-- ===== src/Nat/Translate/Frames.antt =====
-- src/router/nat.rs: what `translate_egress` and `translate_ingress` do to a whole frame.
use userspace_router.Base.{
  ℕ, ◌+◌, ◌^◌, ◌≤◌, ◌<◌, ◌≡◌, ◌≢◌, ◌⊎◌, refl, sym, ap, ap₂, some-eq-some, ◌∙◌, false, inl, inr,
  Option, none, some, List, arith, Option-cases,
}
use userspace_router.Checksum.Sum.{AreBytes}
use userspace_router.Wire.{byte, get_u16, get_u32}
use userspace_router.Wire.Splice.{byte-lt}
use userspace_router.View
use userspace_router.View.{
  EthernetView, Ipv4View, L4View, parse, ipv4, protocol, src_port, dst_port,
}
use userspace_router.Nat.{tcp, udp, Nat, Egress, egress}
use userspace_router.Nat.Translate.{
  Classified, classify_src, classify_dst, l4_checksum_field, rewrite_endpoint, translate_egress,
  egress_rewrite,
}
use userspace_router.Nat.Translate.Rewrite.{
  IsLaidOut, IsField, touched, byte-rewrite_endpoint, get_u32-rewrite_endpoint,
  get_u16-rewrite_endpoint,
}
use userspace_router.Nat.Translate.Classify.{classify-Steps, Steps-IsLaidOut, Steps-other}
use userspace_router.Nat.Translate.Reclassify.{reclassify}

pub src-IsField : IsField 12 0
src-IsField = record { addr_low = omega arith; addr_high = omega arith; port_high = omega arith }

pub dst-IsField : IsField 16 2
dst-IsField = record { addr_low = omega arith; addr_high = omega arith; port_high = omega arith }

pub u16_small : (buf : List ℕ) (at : ℕ) → AreBytes buf → get_u16 buf at < 2 ^ 16
u16_small buf at w = omega (arith, byte-lt buf at w, byte-lt buf (at + 1) w)

pub u32_small : (buf : List ℕ) (at : ℕ) → AreBytes buf → get_u32 buf at < 2 ^ 32
u32_small buf at w = omega (arith, u16_small buf at w, u16_small buf (at + 2) w)

-- The captured endpoint is an address and a port.
pub src_small :
    (buf : List ℕ) (c : Classified)
    → AreBytes buf
    → classify_src buf ≡ some c
    → (c.addr < 2 ^ 32) × (c.port < 2 ^ 16)
src_small buf c w h =
    let s = classify-Steps View.src src_port buf c h in
    omega
      (arith, s.addr_eq, s.port_eq, u32_small buf (s.ip.start + 12) w, u16_small buf s.v.start w)

pub dst_small :
    (buf : List ℕ) (c : Classified)
    → AreBytes buf
    → classify_dst buf ≡ some c
    → (c.addr < 2 ^ 32) × (c.port < 2 ^ 16)
dst_small buf c w h =
    let s = classify-Steps View.dst dst_port buf c h in
    omega (
      arith,
      s.addr_eq,
      s.port_eq,
      u32_small buf (s.ip.start + 16) w,
      u16_small buf (s.v.start + 2) w,
    )

-- Fields of untouched bytes.
u32_same :
    (a b : List ℕ) (at : ℕ)
    → ((i : ℕ) → at ≤ i → i < at + 4 → byte b i ≡ byte a i)
    → get_u32 b at ≡ get_u32 a at
u32_same a b at same = omega (
  arith,
  same at (omega arith) (omega arith),
  same (at + 1) (omega arith) (omega arith),
  same (at + 2) (omega arith) (omega arith),
  same (at + 2 + 1) (omega arith) (omega arith),
)

u16_same :
    (a b : List ℕ) (at : ℕ)
    → ((i : ℕ) → at ≤ i → i < at + 2 → byte b i ≡ byte a i)
    → get_u16 b at ≡ get_u16 a at
u16_same a b at same =
    omega (arith, same at (omega arith) (omega arith), same (at + 1) (omega arith) (omega arith))

-- The other address and the other port are not touched.
other_addr :
    (buf : List ℕ) (c : Classified) (ip_at port_at other i : ℕ)
    → IsLaidOut buf c
    → IsField ip_at port_at
    → (ip_at + 4 ≤ other) ⊎ (other + 4 ≤ ip_at)
    → 12 ≤ other
    → other ≤ 16
    → c.ip_off + other ≤ i
    → i < c.ip_off + other + 4
    → touched c ip_at port_at i ≡ false
unfolding l4_checksum_field
other_addr buf c ip_at port_at other i laid field apart low high g h = elim c.l4 [
  | tcp ↦ ground (arith, laid, field)
  | udp ↦ ground (arith, laid, field)
]

other_port :
    (buf : List ℕ) (c : Classified) (ip_at port_at other i : ℕ)
    → IsLaidOut buf c
    → IsField ip_at port_at
    → (port_at + 2 ≤ other) ⊎ (other + 2 ≤ port_at)
    → other ≤ 2
    → c.l4_off + other ≤ i
    → i < c.l4_off + other + 2
    → touched c ip_at port_at i ≡ false
unfolding l4_checksum_field
other_port buf c ip_at port_at other i laid field apart high g h = elim c.l4 [
  | tcp ↦ ground (arith, laid, field)
  | udp ↦ ground (arith, laid, field)
]

abbrev pub with_endpoint : Classified → ℕ → ℕ → Option Classified
with_endpoint c addr port = some (record c { addr = addr; port = port })

-- The frame with a new source endpoint.
pub src_rewritten :
    (buf : List ℕ) (c : Classified) (ip port : ℕ)
    → classify_src buf ≡ some c
    → ip < 2 ^ 32
    → port < 2 ^ 16
    → (classify_src (rewrite_endpoint buf c 12 0 ip port) ≡ with_endpoint c ip port)
      × (classify_dst (rewrite_endpoint buf c 12 0 ip port) ≡ classify_dst buf)
src_rewritten buf c ip port h small_ip small_port =
    let s = classify-Steps View.src src_port buf c h in
    let laid = Steps-IsLaidOut View.src src_port buf c s in
    let out : List ℕ = rewrite_endpoint buf c 12 0 ip port in
    let addr : get_u32 out (s.ip.start + 12) ≡ ip =
      ap (λ o. get_u32 out (o + 12)) (sym s.ip_off_eq)
      ∙ get_u32-rewrite_endpoint buf c 12 0 ip port laid src-IsField small_ip in
    let at : s.v.start ≡ c.l4_off + 0 = omega (arith, s.l4_off_eq) in
    let port_read : get_u16 out s.v.start ≡ port =
      ap (get_u16 out) at
      ∙ get_u16-rewrite_endpoint buf c 12 0 ip port laid src-IsField small_port in
    let dst : get_u32 out (s.ip.start + 16) ≡ get_u32 buf (s.ip.start + 16) =
      u32_same buf out (s.ip.start + 16) (λ i g k.
        byte-rewrite_endpoint buf c 12 0 ip port laid src-IsField i (
          other_addr buf c 12 0 16 i laid src-IsField (inl (omega arith)) (omega arith)
            (omega arith) (omega (arith, s.ip_off_eq)) (omega (arith, s.ip_off_eq)))) in
    let dst_port_read : get_u16 out (s.v.start + 2) ≡ get_u16 buf (s.v.start + 2) =
      u16_same buf out (s.v.start + 2) (λ i g k.
        byte-rewrite_endpoint buf c 12 0 ip port laid src-IsField i (
          other_port buf c 12 0 2 i laid src-IsField (inl (omega arith)) (omega arith)
            (omega (arith, s.l4_off_eq)) (omega (arith, s.l4_off_eq)))) in
    (
      reclassify buf c 12 0 ip port src-IsField View.src src_port s View.src src_port
          ∙ ap₂ (with_endpoint c) addr port_read,
      reclassify buf c 12 0 ip port src-IsField View.src src_port s View.dst dst_port
          ∙ ap₂ (with_endpoint c) dst dst_port_read
          ∙ sym (Steps-other View.src src_port View.dst dst_port buf c s),
    )

pub dst_rewritten :
    (buf : List ℕ) (c : Classified) (ip port : ℕ)
    → classify_dst buf ≡ some c
    → ip < 2 ^ 32
    → port < 2 ^ 16
    → (classify_dst (rewrite_endpoint buf c 16 2 ip port) ≡ with_endpoint c ip port)
      × (classify_src (rewrite_endpoint buf c 16 2 ip port) ≡ classify_src buf)
dst_rewritten buf c ip port h small_ip small_port =
    let s = classify-Steps View.dst dst_port buf c h in
    let laid = Steps-IsLaidOut View.dst dst_port buf c s in
    let out : List ℕ = rewrite_endpoint buf c 16 2 ip port in
    let addr : get_u32 out (s.ip.start + 16) ≡ ip =
      ap (λ o. get_u32 out (o + 16)) (sym s.ip_off_eq)
      ∙ get_u32-rewrite_endpoint buf c 16 2 ip port laid dst-IsField small_ip in
    let port_read : get_u16 out (s.v.start + 2) ≡ port =
      ap (λ o. get_u16 out (o + 2)) (sym s.l4_off_eq)
      ∙ get_u16-rewrite_endpoint buf c 16 2 ip port laid dst-IsField small_port in
    let src : get_u32 out (s.ip.start + 12) ≡ get_u32 buf (s.ip.start + 12) =
      u32_same buf out (s.ip.start + 12) (λ i g k.
        byte-rewrite_endpoint buf c 16 2 ip port laid dst-IsField i (
          other_addr buf c 16 2 12 i laid dst-IsField (inr (omega arith)) (omega arith)
            (omega arith) (omega (arith, s.ip_off_eq)) (omega (arith, s.ip_off_eq)))) in
    let src_port_read : get_u16 out s.v.start ≡ get_u16 buf s.v.start =
      u16_same buf out s.v.start (λ i g k.
        byte-rewrite_endpoint buf c 16 2 ip port laid dst-IsField i (
          other_port buf c 16 2 0 i laid dst-IsField (inr (omega arith)) (omega arith)
            (omega (arith, s.l4_off_eq)) (omega (arith, s.l4_off_eq)))) in
    (
      reclassify buf c 16 2 ip port dst-IsField View.dst dst_port s View.dst dst_port
          ∙ ap₂ (with_endpoint c) addr port_read,
      reclassify buf c 16 2 ip port dst-IsField View.dst dst_port s View.src src_port
          ∙ ap₂ (with_endpoint c) src src_port_read
          ∙ sym (Steps-other View.dst dst_port View.src src_port buf c s),
    )

egress_rewrite_lem :
    (buf : List ℕ) (c : Classified) (r : Nat × Option Egress) (x : Egress)
    → (egress_rewrite buf c r).2 ≡ some x
    → (r.1 ≡ some x)
      × (egress_rewrite buf c r
          ≡ (rewrite_endpoint buf c 12 0 x.new_src_ip x.new_src_port, r.0, some x))
unfolding egress_rewrite
egress_rewrite_lem buf c (nat, none) x h = cc
egress_rewrite_lem buf c (nat, some y) x h =
    let e : y ≡ x = some-eq-some y x h in
    (h, ap (λ z. (rewrite_endpoint buf c 12 0 z.new_src_ip z.new_src_port, nat, some z)) e)

pub unclassified_egress :
    (buf : List ℕ) (nat : Nat)
    → classify_src buf ≡ none
    → translate_egress buf nat ≡ (buf, nat, none)
unfolding translate_egress
unclassified_egress buf nat e = rw (e, translate_egress) refl

pub classified_egress :
    (buf : List ℕ) (nat : Nat) (c : Classified)
    → classify_src buf ≡ some c
    → translate_egress buf nat ≡ egress_rewrite buf c (egress nat c.l4 c.addr c.port)
unfolding translate_egress egress_rewrite
classified_egress buf nat c e = rw (e, translate_egress) refl

-- A translated frame was classified, and the table gave it its new source.
abbrev pub EgressSteps : List ℕ → Nat → Egress → Type 0
EgressSteps buf nat x =
    (c : Classified) × (classify_src buf ≡ some c)
    × ((egress nat c.l4 c.addr c.port).1 ≡ some x)
    × (translate_egress buf nat ≡ (
      rewrite_endpoint buf c 12 0 x.new_src_ip x.new_src_port,
      (egress nat c.l4 c.addr c.port).0,
      some x,
    ))

pub egress_steps :
    (buf : List ℕ) (nat : Nat) (x : Egress)
    → (translate_egress buf nat).2 ≡ some x
    → EgressSteps buf nat x
egress_steps buf nat x h = elim (Option-cases (classify_src buf)) [
  | inl e ↦
      let t = unclassified_egress buf nat e in absurd (none-some x (sym (ap (λ r. r.2) t) ∙ h))
  | inr (c, e) ↦
      let t = classified_egress buf nat c e in
      let (p, q) =
        egress_rewrite_lem buf c (egress nat c.l4 c.addr c.port) x (sym (ap (λ r. r.2) t) ∙ h) in
      (c, e, p, t ∙ q)
]
  where
    none-some : (y : Egress) → none ≢ some y
    none-some y k = cc
