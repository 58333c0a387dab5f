-- ===== src/Frame/Dhcp.antt =====
-- src/router/frame.rs and src/net/view.rs: a DHCP message in a frame that the builder wrote.
use userspace_router.Base.{
  ℕ, zero, suc, ◌+◌, ◌-◌, ◌≤◌, ◌≡◌, refl, ap, ◌∙◌, min, some, List, [], ◌∷◌, ◌++◌, length,
  length-append, length-drop, take, drop, arith, ◌||◌, ◌==◌, true,
}
use userspace_router.Wire.{has_bytes}
use userspace_router.View.Message.{MessageView, message_at, dhcp, is_dhcp, body}
use userspace_router.Frame.{UdpV4, frame_len, build_udp_ipv4}
use userspace_router.Frame.Image.{headers, ip_sum_of, udp_sum_of, build-headers, take-append}
use userspace_router.Frame.Built.{Fits, udp_view, headers-IsBuilt}

abbrev pub message : ℕ → MessageView
message n = record { start = 42; body_start = 282; end = 42 + n }

drop-append : (n : ℕ) (xs ys : List ℕ) → n ≤ length xs → drop n (xs ++ ys) ≡ drop n xs ++ ys
drop-append zero xs ys h = refl
drop-append (suc n) [] ys h = absurd (omega arith)
drop-append (suc n) (x ∷ xs) ys h = drop-append n xs ys (omega arith)

dhcp_at :
    (buf : List ℕ) (n : ℕ)
    → 240 ≤ n
    → 42 + n ≤ length buf
    → is_dhcp buf (udp_view n) ≡ true
    → dhcp buf (udp_view n) ≡ some (message n)
unfolding dhcp message_at
dhcp_at buf n big room ports =
    let fits : has_bytes buf 42 240 ≡ true = ground arith in
    let start : min 282 (42 + n) ≡ 282 = omega arith in rw (ports, fits, start) refl

body-drop :
    (p : UdpV4) (payload tail : List ℕ) (a b : ℕ)
    → 240 ≤ length payload
    → body (headers p (length payload) a b (payload ++ tail)) (message (length payload))
      ≡ drop 240 payload
body-drop p payload tail a b big =
    let rest : List ℕ = drop 240 payload in
    let cut = drop-append 240 payload tail big in
    let only : 42 + length payload - 282 ≡ length rest = omega (arith, length-drop 240 payload) in
    ap (λ k. take k (drop 240 (payload ++ tail))) only
    ∙ ap (take (length rest)) cut
    ∙ take-append rest tail

-- A frame built around a payload of at least 240 bytes, with values that fit their fields and one
-- of the DHCP ports as its source or destination, is found to hold a DHCP message: its header is
-- the first 240 bytes of the payload, and its options are all that follows.
pub dhcp-build_udp_ipv4 :
    (buf : List ℕ) (p : UdpV4) (payload : List ℕ)
    → Fits p payload
    → frame_len (length payload) ≤ length buf
    → 240 ≤ length payload
    → (p.src_port == 67 || p.src_port == 68 || (p.dst_port == 67 || p.dst_port == 68)) ≡ true
    → (dhcp (build_udp_ipv4 buf p payload).0 (udp_view (length payload))
        ≡ some (message (length payload)))
      × (body (build_udp_ipv4 buf p payload).0 (message (length payload)) ≡ drop 240 payload)
dhcp-build_udp_ipv4 buf p payload f room big ports =
    let n : ℕ = length payload in
    let tail : List ℕ = drop n (drop 42 buf) in
    let out : List ℕ = headers p n (ip_sum_of p n) (udp_sum_of p payload) (payload ++ tail) in
    let e : (build_udp_ipv4 buf p payload).0 ≡ out =
      ap (λ r. r.0) (build-headers buf p payload room) in
    let built = headers-IsBuilt p payload tail f in
    let is : is_dhcp out (udp_view n) ≡ true =
      rw (built.src_port_read, built.dst_port_read) ports in
    let found = dhcp_at out n big (omega (arith, length-append payload tail)) is in
    (rw e found, rw e (body-drop p payload tail (ip_sum_of p n) (udp_sum_of p payload) big))
