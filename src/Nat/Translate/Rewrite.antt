-- ===== src/Nat/Translate/Rewrite.antt =====
-- src/router/nat.rs: which bytes of a frame a translation changes, and to what.
use userspace_router.Base.{
  ℕ, ◌+◌, ◌^◌, ◌≤◌, ◌<◌, ◌≡◌, refl, sym, ◌∙◌, Bool, false, ◌&&◌, ◌||◌, inl, inr, List, [],
  if◌then◌else◌, leb, ltb, ◌==◌, length, arith, Bool-cases,
}
use userspace_router.Wire.{byte, get_u16, get_u32, u16_bytes, u32_bytes, splice}
use userspace_router.Wire.Splice.{
  get_u32-splice, get_u16-splice, get_u32-splice_outside, length-splice, byte-splice_outside,
  get_u16-splice_outside, splice-nil,
}
use userspace_router.Checksum.{update}
use userspace_router.Nat.{L4, tcp, udp}
use userspace_router.Nat.Translate.{
  Classified, l4_checksum_field, l4_updated, apply_rewrite, rewrite_endpoint,
}

abbrev pub min_len : L4 → ℕ
min_len tcp = 20
min_len udp = 8

-- Both headers lie in the frame, the L4 header behind the fixed part of the IP header.
pub record IsLaidOut (buf : List ℕ) (c : Classified) : Type 0 where
  pub ip_room : c.ip_off + 20 ≤ c.l4_off
  pub l4_room : c.l4_off + min_len c.l4 ≤ length buf

-- The address is one of the last two fields of the IP header, the port one of the two ports.
pub record IsField (ip_at port_at : ℕ) : Type 0 where
  pub addr_low : 12 ≤ ip_at
  pub addr_high : ip_at ≤ 16
  pub port_high : port_at ≤ 2

abbrev pub within : ℕ → ℕ → ℕ → Bool
within off n i = leb off i && ltb i (off + n)

abbrev pub l4_sum_at : Classified → ℕ
l4_sum_at c = (l4_checksum_field c.l4 c.l4_off).0

abbrev pub is_udp : Classified → Bool
is_udp c = (l4_checksum_field c.l4 c.l4_off).1

-- The bytes that a translation may write.
abbrev pub touched : Classified → ℕ → ℕ → ℕ → Bool
touched c ip_at port_at i =
    within (c.ip_off + ip_at) 4 i
    || within (c.ip_off + 10) 2 i
    || within (c.l4_off + port_at) 2 i
    || within (l4_sum_at c) 2 i

-- The bytes stored in the two checksum fields; none where a UDP checksum is disabled.
unfoldable pub ip_stored : List ℕ → Classified → ℕ → List ℕ
ip_stored buf c new_ip =
    u16_bytes (update (get_u16 buf (c.ip_off + 10)) (u32_bytes c.addr) (u32_bytes new_ip))

unfoldable pub l4_stored : List ℕ → Classified → ℕ → ℕ → List ℕ
l4_stored buf c new_ip new_port =
    let l4c = get_u16 buf (l4_sum_at c) in
    if is_udp c && l4c == 0
    then []
    else u16_bytes (
        l4_updated (is_udp c) l4c (u32_bytes c.addr) (u32_bytes new_ip) (u16_bytes c.port)
          (u16_bytes new_port))

pub l4_sum_room :
    (l4 : L4) (l4_off len : ℕ)
    → l4_off + min_len l4 ≤ len
    → (l4_off + 4 ≤ (l4_checksum_field l4 l4_off).0) × ((l4_checksum_field l4 l4_off).0 + 2 ≤ len)
unfolding l4_checksum_field
l4_sum_room tcp l4_off len h = omega arith
l4_sum_room udp l4_off len h = omega arith

module _ (buf : List ℕ) (c : Classified) (ip_at port_at new_ip new_port : ℕ)
    (laid : IsLaidOut buf c) (field : IsField ip_at port_at) where
  abbrev first : List ℕ
  first = splice buf (c.ip_off + ip_at) (u32_bytes new_ip)

  abbrev second : List ℕ
  second = splice first (c.ip_off + 10) (ip_stored buf c new_ip)

  abbrev third : List ℕ
  third = splice second (c.l4_off + port_at) (u16_bytes new_port)

  -- A translation is four writes in place.
  pub rewrite_endpoint-splice :
      rewrite_endpoint buf c ip_at port_at new_ip new_port
      ≡ splice third (l4_sum_at c) (l4_stored buf c new_ip new_port)
  unfolding rewrite_endpoint apply_rewrite ip_stored l4_stored
  rewrite_endpoint-splice =
      let r = l4_sum_room c.l4 c.l4_off (length buf) laid.l4_room in
      let ipc : get_u16 first (c.ip_off + 10) ≡ get_u16 buf (c.ip_off + 10) =
        get_u16-splice_outside buf (c.ip_off + ip_at) (u32_bytes new_ip) (c.ip_off + 10)
          (inl (omega (arith, field))) in
      let at : ℕ = l4_sum_at c in
      let l4c : get_u16
            (splice
              (splice (splice buf (c.ip_off + ip_at) (u32_bytes new_ip)) (c.ip_off + 10)
                (ip_stored buf c new_ip))
              (c.l4_off + port_at) (u16_bytes new_port))
            at
          ≡ get_u16 buf at =
        get_u16-splice_outside second (c.l4_off + port_at) (u16_bytes new_port) at
          (inr (omega (arith, field, r)))
        ∙ get_u16-splice_outside first (c.ip_off + 10) (ip_stored buf c new_ip) at
            (inr (omega (arith, laid, r)))
        ∙ get_u16-splice_outside buf (c.ip_off + ip_at) (u32_bytes new_ip) at
            (inr (omega (arith, field, laid, r))) in
      elim (Bool-cases (is_udp c && (get_u16 buf at == 0))) [
        | inl off ↦ rw (ipc, l4c, off) (sym (splice-nil third at))
        | inr on ↦ rw (ipc, l4c, on) refl
      ]

  length-l4_stored : length (l4_stored buf c new_ip new_port) ≤ 2
  unfolding l4_stored
  length-l4_stored = ground arith

  -- A translation keeps the length of the frame, and every byte outside the four fields.
  pub length-rewrite_endpoint :
      length (rewrite_endpoint buf c ip_at port_at new_ip new_port) ≡ length buf
  length-rewrite_endpoint = rw rewrite_endpoint-splice (
      length-splice third (l4_sum_at c) (l4_stored buf c new_ip new_port)
      ∙ length-splice second (c.l4_off + port_at) (u16_bytes new_port)
      ∙ length-splice first (c.ip_off + 10) (ip_stored buf c new_ip)
      ∙ length-splice buf (c.ip_off + ip_at) (u32_bytes new_ip))

  pub byte-rewrite_endpoint :
      (i : ℕ)
      → touched c ip_at port_at i ≡ false
      → byte (rewrite_endpoint buf c ip_at port_at new_ip new_port) i ≡ byte buf i
  unfolding ip_stored
  byte-rewrite_endpoint i h = rw rewrite_endpoint-splice (
      byte-splice_outside third (l4_sum_at c) (l4_stored buf c new_ip new_port) i
        (ground (arith, length-l4_stored))
      ∙ byte-splice_outside second (c.l4_off + port_at) (u16_bytes new_port) i (ground arith)
      ∙ byte-splice_outside first (c.ip_off + 10) (ip_stored buf c new_ip) i (ground arith)
      ∙ byte-splice_outside buf (c.ip_off + ip_at) (u32_bytes new_ip) i (ground arith))

  -- The new endpoint stands in the fields.
  pub get_u32-rewrite_endpoint :
      new_ip < 2 ^ 32
      → get_u32 (rewrite_endpoint buf c ip_at port_at new_ip new_port) (c.ip_off + ip_at) ≡ new_ip
  unfolding ip_stored
  get_u32-rewrite_endpoint small =
      let r = l4_sum_room c.l4 c.l4_off (length buf) laid.l4_room in
      let at : ℕ = c.ip_off + ip_at in
      rw rewrite_endpoint-splice (
        get_u32-splice_outside third (l4_sum_at c) (l4_stored buf c new_ip new_port) at
          (inl (omega (arith, field, laid, r)))
        ∙ get_u32-splice_outside second (c.l4_off + port_at) (u16_bytes new_port) at
            (inl (omega (arith, field, laid)))
        ∙ get_u32-splice_outside first (c.ip_off + 10) (ip_stored buf c new_ip) at
            (inr (omega (arith, field)))
        ∙ get_u32-splice buf at new_ip (omega (arith, field, laid)) small)

  pub get_u16-rewrite_endpoint :
      new_port < 2 ^ 16
      → get_u16 (rewrite_endpoint buf c ip_at port_at new_ip new_port) (c.l4_off + port_at)
        ≡ new_port
  unfolding ip_stored
  get_u16-rewrite_endpoint small =
      let r = l4_sum_room c.l4 c.l4_off (length buf) laid.l4_room in
      let at : ℕ = c.l4_off + port_at in
      rw rewrite_endpoint-splice (
        get_u16-splice_outside third (l4_sum_at c) (l4_stored buf c new_ip new_port) at
          (inl (omega (arith, field, r)))
        ∙ get_u16-splice second at new_port
            (omega (
              arith,
              field,
              r,
              length-splice first (c.ip_off + 10) (ip_stored buf c new_ip),
              length-splice buf (c.ip_off + ip_at) (u32_bytes new_ip),
            ))
            small)
