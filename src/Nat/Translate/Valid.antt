-- ===== src/Nat/Translate/Valid.antt =====
-- src/router/nat.rs: a frame whose checksums are right leaves a translation with right checksums.
use userspace_router.Base.{
  ℕ, ◌+◌, ◌^◌, ◌≤◌, ◌<◌, ◌≡◌, refl, sym, ap, ◌∙◌, Bool, false, ◌&&◌, inl, inr, Option, none, some,
  List, ◌==◌, length, arith, Bool-cases,
}
use userspace_router.Wire.{byte, get_u16, get_u32, u16_bytes, u32_bytes, slice}
use userspace_router.Wire.Splice.{splice-AreBytes}
use userspace_router.Wire.Slices.{
  AreBytes-slice, word_sum-byte, word_sum-slice_le, byte-slice, length-slice,
}
use userspace_router.Checksum.{finish, ipv4_header}
use userspace_router.Checksum.Sum.{AreBytes, checksum_lem}
use userspace_router.Checksum.Verify.{finish_mod}
use userspace_router.View
use userspace_router.View.{Ipv4View, L4View, src_port, dst_port}
use userspace_router.View.Layout.{ipv4_first}
use userspace_router.Nat.{L4, tcp, udp, proto, Nat, Egress, egress, ingress}
use userspace_router.Nat.Laws.{IsConsistent, ingress-egress}
use userspace_router.Nat.Translate.Endpoint.{translate_ingress_bound}
use userspace_router.Nat.Translate.{
  Classified, classify, egress_rewrite, translate_egress, translate_ingress, classify_src,
  classify_dst, rewrite_endpoint,
}
use userspace_router.Nat.Translate.Rewrite.{
  IsLaidOut, min_len, is_udp, l4_sum_at, ip_stored, l4_stored, rewrite_endpoint-splice,
  length-rewrite_endpoint, byte-rewrite_endpoint,
}
use userspace_router.Nat.Translate.Classify.{classify-Steps, Steps-IsLaidOut}
use userspace_router.Nat.Translate.Frames.{classified_egress, src-IsField, dst-IsField}
use userspace_router.Nat.Translate.Reclassify.{head_untouched}
use userspace_router.Nat.Translate.Sums.{ip_sum, l4_sum}
use userspace_router.Nat.Translate.Checks.{Holds, ip_sum_mod, l4_sum_mod}

-- The checks that a receiver makes: of the IP header, and of the L4 segment that ends at `stop`.
unfoldable pub ip_check : List ℕ → Classified → ℕ
ip_check buf c = ipv4_header (slice buf c.ip_off c.l4_off)

unfoldable pub l4_check : List ℕ → Classified → ℕ → ℕ
l4_check buf c stop = finish (l4_sum buf c stop)

-- A UDP checksum of zero is no checksum.
abbrev pub is_disabled : List ℕ → Classified → Bool
is_disabled buf c = is_udp c && (get_u16 buf (l4_sum_at c) == 0)

u16_bytes-AreBytes : (v : ℕ) → AreBytes (u16_bytes v)
u16_bytes-AreBytes v = (omega arith, (omega arith, tt))

l4_stored-AreBytes :
    (buf : List ℕ) (c : Classified) (ip port : ℕ) → AreBytes (l4_stored buf c ip port)
unfolding l4_stored
l4_stored-AreBytes buf c ip port = elim (Bool-cases (is_disabled buf c)) [
  | inl off ↦ rw off tt
  | inr on ↦ rw on (omega arith, (omega arith, tt))
]

pub rewrite_endpoint-AreBytes :
    (buf : List ℕ) (c : Classified) (ip_at port_at new_ip new_port : ℕ)
    → Holds buf c ip_at port_at
    → AreBytes (rewrite_endpoint buf c ip_at port_at new_ip new_port)
unfolding ip_stored
rewrite_endpoint-AreBytes buf c ip_at port_at new_ip new_port h =
    rw (rewrite_endpoint-splice buf c ip_at port_at new_ip new_port h.laid h.field) (
      splice-AreBytes _ (l4_sum_at c) _
        (splice-AreBytes _ (c.l4_off + port_at) _
          (splice-AreBytes _ (c.ip_off + 10) _
            (splice-AreBytes buf (c.ip_off + ip_at) (u32_bytes new_ip) h.bytes
              (omega arith, (omega arith, (omega arith, (omega arith, tt)))))
            (u16_bytes-AreBytes _))
          (u16_bytes-AreBytes new_port))
        (l4_stored-AreBytes buf c new_ip new_port))

-- The sums are far from overflow.
ip_sum_lem :
    (buf : List ℕ) (c : Classified)
    → IsLaidOut buf c
    → AreBytes buf
    → length buf < 2 ^ 16
    → (ip_sum buf c < 2 ^ 32) × (ip_check buf c ≡ finish (ip_sum buf c))
unfolding ip_sum ip_check ipv4_header
ip_sum_lem buf c laid w small =
    checksum_lem (slice buf c.ip_off c.l4_off) (AreBytes-slice buf c.ip_off c.l4_off w) (
      omega (
        arith,
        laid,
        length-slice buf c.ip_off c.l4_off (omega (arith, laid)) (omega (arith, laid)),
      ))

ip_sum_pos :
    (buf : List ℕ) (c : Classified) → IsLaidOut buf c → 0 < byte buf c.ip_off → 0 < ip_sum buf c
unfolding ip_sum
ip_sum_pos buf c laid pos = word_sum-byte (slice buf c.ip_off c.l4_off) (rw at_zero pos)
  where
    at_zero : byte (slice buf c.ip_off c.l4_off) 0 ≡ byte buf c.ip_off
    at_zero = byte-slice buf c.ip_off c.l4_off 0 (omega (arith, laid)) ∙ ap (byte buf) (omega arith)

l4_sum_small :
    (buf : List ℕ) (c : Classified) (stop : ℕ)
    → IsLaidOut buf c
    → AreBytes buf
    → length buf < 2 ^ 16
    → c.l4_off ≤ stop
    → stop ≤ length buf
    → (l4_sum buf c stop < 2 ^ 32) × (0 < l4_sum buf c stop)
unfolding l4_sum proto
l4_sum_small buf c stop laid w small low high =
    let a =
      word_sum-slice_le buf (c.ip_off + 12) (c.ip_off + 20) (omega arith) (omega (arith, laid)) w in
    let b = word_sum-slice_le buf c.l4_off stop low high w in
    (omega (arith, a, b, proto_bounds c.l4), omega (arith, proto_bounds c.l4))
  where
    proto_bounds : (l4 : L4) → (0 < proto l4) × (proto l4 < 256)
    proto_bounds tcp = (omega arith, omega arith)
    proto_bounds udp = (omega arith, omega arith)

-- Where both checks hold before a rewrite, they hold behind it; the second if the checksum is
-- enabled.
pub KeepsChecks : List ℕ → List ℕ → Classified → Type 0
KeepsChecks buf out c =
    (ip_check buf c ≡ 0 → ip_check out c ≡ 0)
    × ((stop : ℕ)
        → c.l4_off + min_len c.l4 ≤ stop
        → stop ≤ length buf
        → is_disabled buf c ≡ false
        → l4_check buf c stop ≡ 0
        → l4_check out c stop ≡ 0)

pub rewrite_endpoint-KeepsChecks :
    (buf : List ℕ) (c : Classified) (ip_at port_at new_ip new_port : ℕ)
    → Holds buf c ip_at port_at
    → length buf < 2 ^ 16
    → 0 < byte buf c.ip_off
    → new_port < 2 ^ 16
    → KeepsChecks buf (rewrite_endpoint buf c ip_at port_at new_ip new_port) c
unfolding KeepsChecks l4_check
rewrite_endpoint-KeepsChecks buf c ip_at port_at new_ip new_port h small first small_port =
    let out : List ℕ = rewrite_endpoint buf c ip_at port_at new_ip new_port in
    let len : length out ≡ length buf =
      length-rewrite_endpoint buf c ip_at port_at new_ip new_port h.laid h.field in
    let laid' : IsLaidOut out c = record {
      ip_room = h.laid.ip_room;
      l4_room = omega (arith, len, h.laid);
    } in
    let w' = rewrite_endpoint-AreBytes buf c ip_at port_at new_ip new_port h in
    let old = ip_sum_lem buf c h.laid h.bytes small in
    let new = ip_sum_lem out c laid' w' (omega (arith, len)) in
    let same : byte out c.ip_off ≡ byte buf c.ip_off =
      byte-rewrite_endpoint buf c ip_at port_at new_ip new_port h.laid h.field c.ip_off
        (head_untouched buf c ip_at port_at c.ip_off h.laid h.field (omega arith)) in
    (
      (λ z.
          new.1
          ∙ finish_mod (ip_sum buf c) (ip_sum out c) old.0 new.0
              (sym (ip_sum_mod buf c ip_at port_at new_ip new_port h small_port))
              (ip_sum_pos out c laid' (omega (arith, same))) (sym old.1 ∙ z)),
      λ stop room inside on z.
          let a = l4_sum_small buf c stop h.laid h.bytes small (omega arith) inside in
          let b =
            l4_sum_small out c stop laid' w' (omega (arith, len)) (omega arith)
              (omega (arith, len)) in
          finish_mod (l4_sum buf c stop) (l4_sum out c stop) a.0 b.0
            (sym (l4_sum_mod buf c ip_at port_at new_ip new_port h small_port stop room inside on))
            b.1 z,
    )

src_Holds :
    (buf : List ℕ) (c : Classified) → AreBytes buf → classify_src buf ≡ some c → Holds buf c 12 0
src_Holds buf c w e =
    let s = classify-Steps View.src src_port buf c e in
    record {
      laid = Steps-IsLaidOut View.src src_port buf c s;
      field = src-IsField;
      bytes = w;
      ip_even = refl;
      port_even = refl;
      addr = s.addr_eq ∙ ap (λ o. get_u32 buf (o + 12)) (sym s.ip_off_eq);
      port = s.port_eq ∙ ap (get_u16 buf) (omega (arith, s.l4_off_eq));
    }

dst_Holds :
    (buf : List ℕ) (c : Classified) → AreBytes buf → classify_dst buf ≡ some c → Holds buf c 16 2
dst_Holds buf c w e =
    let s = classify-Steps View.dst dst_port buf c e in
    record {
      laid = Steps-IsLaidOut View.dst dst_port buf c s;
      field = dst-IsField;
      bytes = w;
      ip_even = refl;
      port_even = refl;
      addr = s.addr_eq ∙ ap (λ o. get_u32 buf (o + 16)) (sym s.ip_off_eq);
      port = s.port_eq ∙ ap (λ o. get_u16 buf (o + 2)) (sym s.l4_off_eq);
    }

same-KeepsChecks : (buf : List ℕ) (c : Classified) → KeepsChecks buf buf c
unfolding KeepsChecks
same-KeepsChecks buf c = ((λ z. z), λ stop room inside on z. z)

first_byte :
    (addr : List ℕ → Ipv4View → ℕ) (port : List ℕ → L4View → ℕ) (buf : List ℕ) (c : Classified)
    → classify addr port buf ≡ some c
    → 0 < byte buf c.ip_off
first_byte addr port buf c e =
    let s = classify-Steps addr port buf c e in rw s.ip_off_eq (ipv4_first buf s.eth s.ip s.has_ip)

egress_rewrite-KeepsChecks :
    (buf : List ℕ) (c : Classified) (r : Nat × Option Egress)
    → AreBytes buf
    → length buf < 2 ^ 16
    → classify_src buf ≡ some c
    → ((x : Egress) → r.1 ≡ some x → x.new_src_port < 2 ^ 16)
    → KeepsChecks buf (egress_rewrite buf c r).0 c
unfolding egress_rewrite
egress_rewrite-KeepsChecks buf c (nat, none) w small e port = same-KeepsChecks buf c
egress_rewrite-KeepsChecks buf c (nat, some x) w small e port =
    rewrite_endpoint-KeepsChecks buf c 12 0 x.new_src_ip x.new_src_port (src_Holds buf c w e) small
      (first_byte View.src src_port buf c e) (port x refl)

-- An egress translation of a classified frame of bytes, shorter than 64 KiB, over a consistent
-- table with ports of 16 bits: if the checksum of the IP header was right it is right, and so is
-- the L4 checksum, unless it was disabled, wherever the L4 segment is taken to end.
pub translate_egress-KeepsChecks :
    (buf : List ℕ) (nat : Nat) (c : Classified)
    → IsConsistent nat
    → nat.port_hi < 2 ^ 16
    → AreBytes buf
    → length buf < 2 ^ 16
    → classify_src buf ≡ some c
    → KeepsChecks buf (translate_egress buf nat).0 c
translate_egress-KeepsChecks buf nat c k small_port w small e = rw (classified_egress buf nat c e) (
    egress_rewrite-KeepsChecks buf c (egress nat c.l4 c.addr c.port) w small e
      (λ x p. let r = ingress-egress nat c.l4 c.addr c.port x k p in omega (arith, r.2)))

-- The same of an ingress translation, of a frame to a bound port whose endpoint has a port of 16
-- bits.
pub translate_ingress-KeepsChecks :
    (buf : List ℕ) (nat : Nat) (c : Classified) (ip port : ℕ)
    → AreBytes buf
    → length buf < 2 ^ 16
    → classify_dst buf ≡ some c
    → ingress nat c.l4 c.port ≡ some (ip, port)
    → port < 2 ^ 16
    → KeepsChecks buf (translate_ingress buf nat).0 c
translate_ingress-KeepsChecks buf nat c ip port w small e bound small_port =
    rw (translate_ingress_bound buf nat c ip port e bound) (
      rewrite_endpoint-KeepsChecks buf c 16 2 ip port (dst_Holds buf c w e) small
        (first_byte View.dst dst_port buf c e) small_port)
