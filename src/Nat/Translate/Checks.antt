-- ===== src/Nat/Translate/Checks.antt =====
-- src/router/nat.rs: a rewrite keeps the sums under both checksums, modulo 65535.
use userspace_router.Base.{
  ℕ, ◌+◌, ◌%◌, ◌^◌, ◌≤◌, ◌<◌, ◌≡◌, refl, ap, ◌∙◌, false, ◌&&◌, inl, inr, List, ◌==◌, length, arith,
}
use userspace_router.Wire.{get_u16, get_u32, u16_bytes, u32_bytes, splice, slice}
use userspace_router.Wire.Splice.{length-splice, get_u16-splice_outside, byte-lt}
use userspace_router.Wire.Slices.{word_sum-slice_u16, word_sum-slice_u32, slice-splice_outside}
use userspace_router.Checksum.{update}
use userspace_router.Checksum.Sum.{word_sum, AreBytes}
use userspace_router.Nat.Translate.{Classified, l4_updated, rewrite_endpoint}
use userspace_router.Nat.Translate.Rewrite.{
  IsLaidOut, IsField, min_len, is_udp, l4_sum_at, ip_stored, l4_stored, l4_sum_room,
  rewrite_endpoint-splice,
}
use userspace_router.Nat.Translate.Sums.{
  ip_sum, l4_sum, l4_sum_even, address_words, update_address, l4_updated_mod,
}

-- The fields to be rewritten, of whole words, hold the captured endpoint.
pub record Holds (buf : List ℕ) (c : Classified) (ip_at port_at : ℕ) : Type 0 where
  pub laid : IsLaidOut buf c
  pub field : IsField ip_at port_at
  pub bytes : AreBytes buf
  pub ip_even : ip_at % 2 ≡ 0
  pub port_even : port_at % 2 ≡ 0
  pub addr : c.addr ≡ get_u32 buf (c.ip_off + ip_at)
  pub port : c.port ≡ get_u16 buf (c.l4_off + port_at)

module _ (buf : List ℕ) (c : Classified) (ip_at port_at new_ip new_port : ℕ)
    (h : Holds buf c ip_at port_at) (small : new_port < 2 ^ 16) where
  abbrev ip_pos : ℕ
  ip_pos = c.ip_off + ip_at

  abbrev ipc : ℕ
  ipc = c.ip_off + 10

  abbrev port_pos : ℕ
  port_pos = c.l4_off + port_at

  abbrev first : List ℕ
  first = splice buf ip_pos (u32_bytes new_ip)

  abbrev second : List ℕ
  second = splice first ipc (ip_stored buf c new_ip)

  abbrev third : List ℕ
  third = splice second port_pos (u16_bytes new_port)

  abbrev out : List ℕ
  out = rewrite_endpoint buf c ip_at port_at new_ip new_port

  fourth : out ≡ splice third (l4_sum_at c) (l4_stored buf c new_ip new_port)
  fourth = rewrite_endpoint-splice buf c ip_at port_at new_ip new_port h.laid h.field

  lengths : (length first ≡ length buf) × (length second ≡ length buf) × (length third ≡ length buf)
  lengths =
      let a = length-splice buf ip_pos (u32_bytes new_ip) in
      let b = length-splice first ipc (ip_stored buf c new_ip) in
      let d = length-splice second port_pos (u16_bytes new_port) in (a, b ∙ a, d ∙ b ∙ a)

  l4_stored_short : length (l4_stored buf c new_ip new_port) ≤ 2
  unfolding l4_stored
  l4_stored_short = ground arith

  word_small : (at : ℕ) → get_u16 buf at < 2 ^ 16
  word_small at = omega (arith, byte-lt buf at h.bytes, byte-lt buf (at + 1) h.bytes)

  addr_words : word_sum (u32_bytes c.addr) ≡ get_u16 buf ip_pos + get_u16 buf (ip_pos + 2)
  addr_words = ap (λ a. word_sum (u32_bytes a)) h.addr ∙ address_words buf ip_pos h.bytes

  pub ip_sum_mod : ip_sum out c % 65535 ≡ ip_sum buf c % 65535
  unfolding ip_sum ip_stored
  ip_sum_mod =
      let f = h.field in
      let g = h.laid in
      let from : ℕ = c.ip_off in
      let to : ℕ = c.l4_off in
      let r = l4_sum_room c.l4 c.l4_off (length buf) g.l4_room in
      let s1 =
        word_sum-slice_u32 buf from to ip_pos new_ip (omega arith) (omega (arith, h.ip_even))
          (omega (arith, f, g)) (omega (arith, g)) in
      let u = update_address (get_u16 buf ipc) c.addr new_ip (word_small ipc) in
      let s2 =
        word_sum-slice_u16 first from to ipc
          (update (get_u16 buf ipc) (u32_bytes c.addr) (u32_bytes new_ip)) (omega arith)
          (omega arith) (omega (arith, g)) (omega (arith, g, lengths)) u.1 in
      let old : get_u16 first ipc ≡ get_u16 buf ipc =
        get_u16-splice_outside buf ip_pos (u32_bytes new_ip) ipc (inl (omega (arith, f))) in
      let s3 : slice third from to ≡ slice second from to =
        slice-splice_outside second from to port_pos (u16_bytes new_port) (omega (arith, g))
          (inr (omega arith)) in
      let s4 : slice out from to ≡ slice third from to =
        ap (λ b. slice b from to) fourth
        ∙ slice-splice_outside third from to (l4_sum_at c) (l4_stored buf c new_ip new_port)
            (omega (arith, g)) (inr (omega (arith, r))) in
      let sum : word_sum (slice out from to) ≡ word_sum (slice second from to) =
        ap word_sum (s4 ∙ s3) in
      omega (arith, sum, s1, s2, old, u, addr_words)

  -- The part that a pseudo-header takes from the IP header.
  pseudo_mod :
      word_sum (slice out (c.ip_off + 12) (c.ip_off + 20)) + word_sum (u32_bytes c.addr)
      ≡ word_sum (slice buf (c.ip_off + 12) (c.ip_off + 20)) + word_sum (u32_bytes new_ip)
  unfolding ip_stored
  pseudo_mod =
      let f = h.field in
      let g = h.laid in
      let from : ℕ = c.ip_off + 12 in
      let to : ℕ = c.ip_off + 20 in
      let r = l4_sum_room c.l4 c.l4_off (length buf) g.l4_room in
      let s1 =
        word_sum-slice_u32 buf from to ip_pos new_ip (omega (arith, f)) (omega (arith, h.ip_even))
          (omega (arith, f)) (omega (arith, g)) in
      let s2 : slice second from to ≡ slice first from to =
        slice-splice_outside first from to ipc (ip_stored buf c new_ip) (omega arith)
          (inl (omega arith)) in
      let s3 : slice third from to ≡ slice second from to =
        slice-splice_outside second from to port_pos (u16_bytes new_port) (omega arith)
          (inr (omega (arith, g))) in
      let s4 : slice out from to ≡ slice third from to =
        ap (λ b. slice b from to) fourth
        ∙ slice-splice_outside third from to (l4_sum_at c) (l4_stored buf c new_ip new_port)
            (omega arith) (inr (omega (arith, g, r))) in
      let sum : word_sum (slice out from to) ≡ word_sum (slice first from to) =
        ap word_sum (s4 ∙ s3 ∙ s2) in
      omega (arith, sum, s1, addr_words)

  -- The segment with the new port, before its checksum is written.
  ported :
      (stop : ℕ)
      → c.l4_off + min_len c.l4 ≤ stop
      → stop ≤ length buf
      → word_sum (slice third c.l4_off stop) + c.port
        ≡ word_sum (slice buf c.l4_off stop) + new_port
  unfolding ip_stored
  ported stop room inside =
      let f = h.field in
      let g = h.laid in
      let from : ℕ = c.l4_off in
      let r = l4_sum_room c.l4 c.l4_off stop room in
      let s1 : slice first from stop ≡ slice buf from stop =
        slice-splice_outside buf from stop ip_pos (u32_bytes new_ip) (omega (arith, r))
          (inl (omega (arith, f, g))) in
      let s2 : slice second from stop ≡ slice first from stop =
        slice-splice_outside first from stop ipc (ip_stored buf c new_ip) (omega (arith, r))
          (inl (omega (arith, g))) in
      let s3 =
        word_sum-slice_u16 second from stop port_pos new_port (omega arith)
          (omega (arith, h.port_even)) (omega (arith, f, r)) (omega (arith, lengths)) small in
      let old : get_u16 second port_pos ≡ get_u16 buf port_pos =
        get_u16-splice_outside first ipc (ip_stored buf c new_ip) port_pos
          (inr (omega (arith, g, r)))
        ∙ get_u16-splice_outside buf ip_pos (u32_bytes new_ip) port_pos
            (inr (omega (arith, f, g))) in
      let sum : word_sum (slice second from stop) ≡ word_sum (slice buf from stop) =
        ap word_sum (s2 ∙ s1) in
      omega (arith, s3, old, sum, h.port)

  abbrev l4c : ℕ
  l4c = get_u16 buf (l4_sum_at c)

  abbrev stored : ℕ
  stored =
      l4_updated (is_udp c) l4c (u32_bytes c.addr) (u32_bytes new_ip) (u16_bytes c.port)
        (u16_bytes new_port)

  l4c-third : get_u16 third (l4_sum_at c) ≡ l4c
  unfolding ip_stored
  l4c-third =
      let f = h.field in
      let g = h.laid in
      let r = l4_sum_room c.l4 c.l4_off (length buf) g.l4_room in
      get_u16-splice_outside second port_pos (u16_bytes new_port) (l4_sum_at c)
        (inr (omega (arith, f, r)))
      ∙ get_u16-splice_outside first ipc (ip_stored buf c new_ip) (l4_sum_at c)
          (inr (omega (arith, g, r)))
      ∙ get_u16-splice_outside buf ip_pos (u32_bytes new_ip) (l4_sum_at c)
          (inr (omega (arith, f, g, r)))

  enabled : (is_udp c && (l4c == 0)) ≡ false → l4_stored buf c new_ip new_port ≡ u16_bytes stored
  unfolding l4_stored
  enabled on = rw on refl

  pub l4_sum_mod :
      (stop : ℕ)
      → c.l4_off + min_len c.l4 ≤ stop
      → stop ≤ length buf
      → (is_udp c && (get_u16 buf (l4_sum_at c) == 0)) ≡ false
      → l4_sum out c stop % 65535 ≡ l4_sum buf c stop % 65535
  unfolding l4_sum
  l4_sum_mod stop room inside on =
      let r = l4_sum_room c.l4 c.l4_off stop room in
      let u =
        l4_updated_mod (is_udp c) l4c c.addr new_ip c.port new_port (word_small (l4_sum_at c))
          (omega (arith, h.port, word_small port_pos)) small in
      let s4 =
        word_sum-slice_u16 third c.l4_off stop (l4_sum_at c) stored (omega (arith, r))
          (l4_sum_even c.l4 c.l4_off) (omega (arith, r)) (omega (arith, lengths)) u.1 in
      let whole : word_sum (slice out c.l4_off stop)
          ≡ word_sum (slice (splice third (l4_sum_at c) (u16_bytes stored)) c.l4_off stop) =
        ap (λ b. word_sum (slice b c.l4_off stop))
          (fourth ∙ ap (splice third (l4_sum_at c)) (enabled on)) in
      omega (arith, whole, s4, u, pseudo_mod, ported stop room inside, l4c-third)
