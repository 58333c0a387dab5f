-- ===== src/Nat/Translate/Endpoint.antt =====
-- src/router/nat.rs: the endpoints of a translated frame, and of the reply to it.
use userspace_router.Base.{
  ℕ, ◌+◌, ◌^◌, ◌≤◌, ◌<◌, ◌≡◌, refl, sym, ap, some-eq-some, ◌∙◌, false, inl, inr, Option, none, some,
  List, length, arith, Option-cases,
}
use userspace_router.Checksum.Sum.{AreBytes}
use userspace_router.Wire.{byte}
use userspace_router.View
use userspace_router.View.{Ipv4View, L4View, src_port, dst_port}
use userspace_router.View.Layout.{ipv4_layout, parse_layout}
use userspace_router.Nat.{Nat, Egress, egress, ingress}
use userspace_router.Nat.Laws.{IsConsistent, ingress-egress}
use userspace_router.Nat.Alloc.{InRange}
use userspace_router.Nat.Translate.{
  Classified, classify, classify_src, classify_dst, rewrite_endpoint, translate_egress,
  translate_ingress, egress_rewrite, ingress_rewrite,
}
use userspace_router.Nat.Translate.Rewrite.{
  IsLaidOut, touched, l4_sum_at, length-rewrite_endpoint, byte-rewrite_endpoint, l4_sum_room,
}
use userspace_router.Nat.Translate.Classify.{classify-Steps, Steps-IsLaidOut}
use userspace_router.Nat.Translate.Frames.{
  egress_steps, src-IsField, src_small, src_rewritten, dst_rewritten, with_endpoint,
  unclassified_egress, classified_egress,
}

-- In a classified frame, whichever endpoint is read, the four fields that a rewrite of an address
-- and a port may write lie in the frame, and in their own headers: the addresses and the checksum
-- in the 20 bytes of the IP header behind the Ethernet header, the ports in front of the L4
-- checksum.
pub classify_room :
    (addr : List ℕ → Ipv4View → ℕ) (port : List ℕ → L4View → ℕ) (buf : List ℕ) (c : Classified)
    → classify addr port buf ≡ some c
    → (14 ≤ c.ip_off)
      × (c.ip_off + 20 ≤ c.l4_off)
      × (c.l4_off + 4 ≤ l4_sum_at c)
      × (l4_sum_at c + 2 ≤ length buf)
classify_room addr port buf c h =
    let s = classify-Steps addr port buf c h in
    let laid = Steps-IsLaidOut addr port buf c s in
    let r = l4_sum_room c.l4 c.l4_off (length buf) laid.l4_room in
    let p = parse_layout buf s.eth s.parsed in
    let q = ipv4_layout buf s.eth s.ip s.has_ip in
    (omega (arith, p, q, s.ip_off_eq), laid.ip_room, r.0, r.1)

-- The result of an egress translation over a consistent table, whose addresses have 32 bits and
-- ports 16: the frame is an IPv4 TCP or UDP frame, whose source is now the WAN address and a port
-- of the range; its destination is as before.
pub translate_egress_endpoints :
    (buf : List ℕ) (nat : Nat) (x : Egress)
    → IsConsistent nat
    → nat.wan_ip < 2 ^ 32
    → nat.port_hi < 2 ^ 16
    → (translate_egress buf nat).2 ≡ some x
    → (c : Classified) × (classify_src buf ≡ some c)
      × (classify_src (translate_egress buf nat).0 ≡ with_endpoint c nat.wan_ip x.new_src_port)
      × (classify_dst (translate_egress buf nat).0 ≡ classify_dst buf)
      × InRange nat x.new_src_port
translate_egress_endpoints buf nat x k small_ip small_port h =
    let (c, e, p, t) = egress_steps buf nat x h in
    let (back, ip, inside) = ingress-egress nat c.l4 c.addr c.port x k p in
    let (src, dst) =
      src_rewritten buf c x.new_src_ip x.new_src_port e (omega (arith, ip))
        (omega (arith, inside)) in
    (
      c,
      e,
      ap (λ r. classify_src r.0) t ∙ src ∙ ap (λ a. with_endpoint c a x.new_src_port) ip,
      ap (λ r. classify_dst r.0) t ∙ dst,
      inside,
    )

egress_rewrite_bytes :
    (buf : List ℕ) (c : Classified) (r : Nat × Option Egress)
    → IsLaidOut buf c
    → (length (egress_rewrite buf c r).0 ≡ length buf)
      × ((i : ℕ) → touched c 12 0 i ≡ false → byte (egress_rewrite buf c r).0 i ≡ byte buf i)
unfolding egress_rewrite
egress_rewrite_bytes buf c (nat, none) laid = (refl, λ i h. refl)
egress_rewrite_bytes buf c (nat, some x) laid = (
  length-rewrite_endpoint buf c 12 0 x.new_src_ip x.new_src_port laid src-IsField,
  byte-rewrite_endpoint buf c 12 0 x.new_src_ip x.new_src_port laid src-IsField,
)

-- An egress translation keeps the length of a frame. In a classified frame it changes at most the
-- source address, the source port and the two checksums; it returns any other frame, and the table,
-- as they are.
pub translate_egress_bytes :
    (buf : List ℕ) (nat : Nat)
    → (length (translate_egress buf nat).0 ≡ length buf)
      × ((c : Classified) (i : ℕ)
          → classify_src buf ≡ some c
          → touched c 12 0 i ≡ false
          → byte (translate_egress buf nat).0 i ≡ byte buf i)
      × (classify_src buf ≡ none → translate_egress buf nat ≡ (buf, nat, none))
translate_egress_bytes buf nat = elim (Option-cases (classify_src buf)) [
  | inl e ↦
      let t = unclassified_egress buf nat e in
      (ap (λ r. length r.0) t, (λ c i k h. ap (λ r. byte r.0 i) t), λ k. t)
  | inr (c, e) ↦
      let t = classified_egress buf nat c e in
      let laid =
        Steps-IsLaidOut View.src src_port buf c (classify-Steps View.src src_port buf c e) in
      let (len, same) = egress_rewrite_bytes buf c (egress nat c.l4 c.addr c.port) laid in
      (
        ap (λ r. length r.0) t ∙ len,
        (λ d i k h.
            let e' : c ≡ d = some-eq-some c d (sym e ∙ k) in
            ap (λ r. byte r.0 i) t ∙ same i (ap (λ z. touched z 12 0 i) e' ∙ h)),
        λ k. cc,
      )
]

classified_ingress :
    (buf : List ℕ) (nat : Nat) (c : Classified)
    → classify_dst buf ≡ some c
    → translate_ingress buf nat ≡ ingress_rewrite buf c (ingress nat c.l4 c.port)
unfolding translate_ingress ingress_rewrite
classified_ingress buf nat c e = rw (e, translate_ingress) refl

-- An ingress translation of a frame to a bound port.
pub translate_ingress_bound :
    (buf : List ℕ) (nat : Nat) (c : Classified) (ip port : ℕ)
    → classify_dst buf ≡ some c
    → ingress nat c.l4 c.port ≡ some (ip, port)
    → translate_ingress buf nat
      ≡ (rewrite_endpoint buf c 16 2 ip port, some (record { dst_ip = ip; dst_port = port }))
unfolding ingress_rewrite
translate_ingress_bound buf nat c ip port e h =
    classified_ingress buf nat c e ∙ ap (ingress_rewrite buf c) h

-- The round trip of two frames over a consistent table. After a frame of bytes has been translated
-- on egress, a frame of the same protocol to the external port comes back, by ingress, to the
-- address and port that the first frame came from; its source is as before.
pub translate_ingress-translate_egress :
    (buf reply : List ℕ) (nat : Nat) (x : Egress) (c d : Classified)
    → IsConsistent nat
    → AreBytes buf
    → (translate_egress buf nat).2 ≡ some x
    → classify_src buf ≡ some c
    → classify_dst reply ≡ some d
    → d.l4 ≡ c.l4
    → d.port ≡ x.new_src_port
    → ((translate_ingress reply (translate_egress buf nat).1).1
        ≡ some (record { dst_ip = c.addr; dst_port = c.port }))
      × (classify_dst (translate_ingress reply (translate_egress buf nat).1).0
          ≡ with_endpoint d c.addr c.port)
      × (classify_src (translate_ingress reply (translate_egress buf nat).1).0 ≡ classify_src reply)
translate_ingress-translate_egress buf reply nat x c d k w h e f same_l4 same_port =
    let (c', e', p, t) = egress_steps buf nat x h in
    let same : c' ≡ c = some-eq-some c' c (sym e' ∙ e) in
    let (back, ip, inside) =
      ingress-egress nat c.l4 c.addr c.port x k
        (ap (λ z. (egress nat z.l4 z.addr z.port).1) (sym same) ∙ p) in
    let table : (translate_egress buf nat).1 ≡ (egress nat c.l4 c.addr c.port).0 =
      ap (λ r. r.1) t ∙ ap (λ z. (egress nat z.l4 z.addr z.port).0) same in
    let bound : ingress (translate_egress buf nat).1 d.l4 d.port ≡ some (c.addr, c.port) =
      rw (table, same_l4, same_port) back in
    let r = translate_ingress_bound reply (translate_egress buf nat).1 d c.addr c.port f bound in
    let (small_ip, small_port) = src_small buf c w e in
    let (dst, src) = dst_rewritten reply d c.addr c.port f small_ip small_port in
    (ap (λ z. z.1) r, ap (λ z. classify_dst z.0) r ∙ dst, ap (λ z. classify_src z.0) r ∙ src)
