-- ===== src/Nat/Translate/Sums.antt =====
-- src/router/nat.rs: the word sums that the two checksums of a frame cover, after a rewrite.
use userspace_router.Base.{
  ℕ, ◌+◌, ◌-◌, ◌%◌, ◌^◌, ◌≤◌, ◌<◌, ◌≡◌, Bool, true, ◌&&◌, inl, inr, List, ◌==◌, arith, Bool-cases,
}
use userspace_router.Wire.{get_u16, get_u32, u16_bytes, u32_bytes, slice}
use userspace_router.Wire.Splice.{byte-lt}
use userspace_router.Checksum.{update}
use userspace_router.Checksum.Sum.{word_sum, AreBytes, not_sum-le}
use userspace_router.Checksum.Update.{update_mod}
use userspace_router.Nat.{L4, tcp, udp, proto}
use userspace_router.Nat.Translate.{Classified, l4_checksum_field, l4_updated}
use userspace_router.Nat.Translate.Rewrite.{min_len}

-- The words of the IP header, of the addresses, and of the L4 segment up to `stop`.
unfoldable pub ip_sum : List ℕ → Classified → ℕ
ip_sum buf c = word_sum (slice buf c.ip_off c.l4_off)

-- The L4 checksum covers a pseudo-header: the addresses, the protocol and the length.
unfoldable pub l4_sum : List ℕ → Classified → ℕ → ℕ
l4_sum buf c stop =
    word_sum (slice buf (c.ip_off + 12) (c.ip_off + 20))
    + proto c.l4
    + (stop - c.l4_off)
    + word_sum (slice buf c.l4_off stop)

-- The offset of a checksum is even from the start of its header.
pub l4_sum_even : (l4 : L4) (l4_off : ℕ) → ((l4_checksum_field l4 l4_off).0 - l4_off) % 2 ≡ 0
unfolding l4_checksum_field
l4_sum_even tcp l4_off = omega arith
l4_sum_even udp l4_off = omega arith

pub l4_sum_end : (l4 : L4) (l4_off : ℕ) → (l4_checksum_field l4 l4_off).0 + 2 ≤ l4_off + min_len l4
unfolding l4_checksum_field
l4_sum_end tcp l4_off = omega arith
l4_sum_end udp l4_off = omega arith

-- The words of an address: what is captured of it, and what is written for it.
pub address_words :
    (buf : List ℕ) (at : ℕ)
    → AreBytes buf
    → (word_sum (u32_bytes (get_u32 buf at)) ≡ get_u16 buf at + get_u16 buf (at + 2))
unfolding word_sum
address_words buf at w = omega (
  arith,
  byte-lt buf at w,
  byte-lt buf (at + 1) w,
  byte-lt buf (at + 2) w,
  byte-lt buf (at + 2 + 1) w,
)

word_sum-u32_bytes : (v : ℕ) → word_sum (u32_bytes v) ≤ 131070
unfolding word_sum
word_sum-u32_bytes v = omega arith

word_sum-u16_bytes : (v : ℕ) → v < 2 ^ 16 → word_sum (u16_bytes v) ≡ v
unfolding word_sum
word_sum-u16_bytes v h = omega arith

-- An address and a port of a checksum, exchanged for others.
pub update_address :
    (sum old new : ℕ)
    → sum < 2 ^ 16
    → ((update sum (u32_bytes old) (u32_bytes new) + word_sum (u32_bytes new)) % 65535
        ≡ (sum + word_sum (u32_bytes old)) % 65535)
      × (update sum (u32_bytes old) (u32_bytes new) < 2 ^ 16)
update_address sum old new h =
    update_mod sum (u32_bytes old) (u32_bytes new) h
      (omega arith, (omega arith, (omega arith, (omega arith, tt))))
      (omega (arith, not_sum-le (u32_bytes old), word_sum-u32_bytes new))

pub update_port :
    (sum old new : ℕ)
    → sum < 2 ^ 16
    → old < 2 ^ 16
    → new < 2 ^ 16
    → ((update sum (u16_bytes old) (u16_bytes new) + new) % 65535 ≡ (sum + old) % 65535)
      × (update sum (u16_bytes old) (u16_bytes new) < 2 ^ 16)
update_port sum old new h ho hn =
    let u =
      update_mod sum (u16_bytes old) (u16_bytes new) h (omega arith, (omega arith, tt))
        (omega (arith, not_sum-le (u16_bytes old), word_sum-u16_bytes new hn)) in
    (omega (arith, u, word_sum-u16_bytes new hn, word_sum-u16_bytes old ho), u.1)

-- The L4 checksum that is stored, where one is.
pub l4_updated_mod :
    (zeroed : Bool) (sum old_ip new_ip old_port new_port : ℕ)
    → sum < 2 ^ 16
    → old_port < 2 ^ 16
    → new_port < 2 ^ 16
    → ((l4_updated zeroed sum
              (u32_bytes old_ip)
              (u32_bytes new_ip)
              (u16_bytes old_port)
              (u16_bytes new_port)
            + word_sum (u32_bytes new_ip)
            + new_port)
          % 65535
        ≡ (sum + word_sum (u32_bytes old_ip) + old_port) % 65535)
      × (l4_updated zeroed sum
            (u32_bytes old_ip)
            (u32_bytes new_ip)
            (u16_bytes old_port)
            (u16_bytes new_port)
          < 2 ^ 16)
unfolding l4_updated
l4_updated_mod zeroed sum old_ip new_ip old_port new_port h ho hn =
    let u = update_address sum old_ip new_ip h in
    let v =
      update_port (update sum (u32_bytes old_ip) (u32_bytes new_ip)) old_port new_port u.1 ho hn in
    let z : ℕ =
      update (update sum (u32_bytes old_ip) (u32_bytes new_ip)) (u16_bytes old_port)
        (u16_bytes new_port) in
    elim (Bool-cases (zeroed && (z == 0))) [
      | inl zero ↦ rw zero (omega (arith, u, v, zero_of zeroed z zero), omega arith)
      | inr other ↦ rw other (omega (arith, u, v), v.1)
    ]
  where
    zero_of : (b : Bool) (n : ℕ) → (b && (n == 0)) ≡ true → n ≡ 0
    zero_of b n e = ground arith
