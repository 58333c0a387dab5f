-- ===== src/Frame/Image.antt =====
-- src/router/frame.rs: the bytes of a frame that the builder writes.
use userspace_router.Base.{
  ℕ, ◌+◌, ◌-◌, ◌≤◌, ◌<◌, ◌≡◌, refl, ap, ◌∙◌, none, some, List, [], ◌∷◌, ◌++◌, length, take, drop,
  replicate, arith, ltb, length-drop, false,
}
use userspace_router.Wire.{u16_bytes, u32_bytes, splice}
use userspace_router.Wire.Splice.{splice-nil}
use userspace_router.Wire.Writes.{splice-append}
use userspace_router.Arp.{mac_bytes}
use userspace_router.Checksum.{ipv4_header, udp_ipv4}
use userspace_router.Frame.{UdpV4, frame_len, write_headers, write_checksums, build_udp_ipv4}

-- What stands in front of the IP checksum, between it and the UDP header, and in front of the UDP
-- checksum.
abbrev pub ip_front : UdpV4 → ℕ → List ℕ
ip_front p n = 0x45 ∷ 0 ∷ (u16_bytes (20 + (8 + n)) ++ (0 ∷ 0 ∷ 0 ∷ 0 ∷ p.ttl ∷ 17 ∷ []))

abbrev pub ip_back : UdpV4 → List ℕ
ip_back p = u32_bytes p.src_ip ++ u32_bytes p.dst_ip

abbrev pub udp_front : UdpV4 → ℕ → List ℕ
udp_front p n = u16_bytes p.src_port ++ (u16_bytes p.dst_port ++ u16_bytes (8 + n))

abbrev pub ip_header : UdpV4 → ℕ → ℕ → List ℕ
ip_header p n sum = ip_front p n ++ (u16_bytes sum ++ ip_back p)

abbrev pub datagram : UdpV4 → List ℕ → ℕ → List ℕ
datagram p payload sum = udp_front p (length payload) ++ (u16_bytes sum ++ payload)

-- The headers with these checksums, in front of something.
abbrev pub headers : UdpV4 → ℕ → ℕ → ℕ → List ℕ → List ℕ
headers p n ip_sum udp_sum rest =
    mac_bytes p.dst_mac
    ++ (mac_bytes p.src_mac
        ++ (u16_bytes 0x0800
            ++ (ip_header p n ip_sum ++ (udp_front p n ++ (u16_bytes udp_sum ++ rest)))))

-- The two checksums.
abbrev pub ip_sum_of : UdpV4 → ℕ → ℕ
ip_sum_of p n = ipv4_header (ip_header p n 0)

abbrev pub udp_sum_of : UdpV4 → List ℕ → ℕ
udp_sum_of p payload = udp_ipv4 (u32_bytes p.src_ip) (u32_bytes p.dst_ip) (datagram p payload 0)

headed :
    (rest : List ℕ) (p : UdpV4) (n : ℕ)
    → write_headers (replicate 42 0 ++ rest) p n ≡ headers p n 0 0 rest
unfolding write_headers splice
headed rest p n = refl

filled :
    (rest payload : List ℕ) (p : UdpV4) (n : ℕ)
    → splice (headers p n 0 0 rest) 42 payload ≡ headers p n 0 0 (splice rest 0 payload)
unfolding splice
filled rest payload p n = refl

pub take-append : (xs ys : List ℕ) → take (length xs) (xs ++ ys) ≡ xs
take-append [] ys = refl
take-append (x ∷ xs) ys = ap (◌∷◌ x) (take-append xs ys)

summed :
    (payload tail : List ℕ) (p : UdpV4)
    → write_checksums (headers p (length payload) 0 0 (payload ++ tail)) p (length payload)
      ≡ headers p
          (length payload)
          (ip_sum_of p (length payload))
          (udp_sum_of p payload)
          (payload ++ tail)
unfolding write_checksums splice
summed payload tail p =
    let e : 34 + (8 + length payload) - 34 ≡ length (datagram p payload 0) = omega arith in
    rw (e, take-append payload tail, splice-nil (payload ++ tail) 0) refl

-- The builder writes this image, if the buffer has room, and leaves what is behind it.
pub build-headers :
    (buf : List ℕ) (p : UdpV4) (payload : List ℕ)
    → frame_len (length payload) ≤ length buf
    → build_udp_ipv4 buf p payload ≡ (
      headers p
          (length payload)
          (ip_sum_of p (length payload))
          (udp_sum_of p payload)
          (payload ++ drop (length payload) (drop 42 buf)),
      some (frame_len (length payload)),
    )
unfolding build_udp_ipv4
build-headers buf p payload room =
    let n : ℕ = length payload in
    let rest : List ℕ = drop 42 buf in
    let fits : ltb (length buf) (frame_len n) ≡ false = ground arith in
    let zeroed = splice-append buf (replicate 42 0) (omega arith) in
    let body = splice-append rest payload (omega (arith, length-drop 42 buf)) in
    rw fits (
      ap (λ b. (b, some (frame_len n)))
        (ap (λ b. write_checksums (splice (write_headers b p n) 42 payload) p n) zeroed
          ∙ ap (λ b. write_checksums (splice b 42 payload) p n) (headed rest p n)
          ∙ ap (λ b. write_checksums b p n) (filled rest payload p n)
          ∙ ap (λ t. write_checksums (headers p n 0 0 t) p n) body
          ∙ summed payload (drop n rest) p))

pub build_short :
    (buf : List ℕ) (p : UdpV4) (payload : List ℕ)
    → length buf < frame_len (length payload)
    → build_udp_ipv4 buf p payload ≡ (buf, none)
unfolding build_udp_ipv4
build_short buf p payload short = ground arith
