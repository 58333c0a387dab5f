-- ===== src/Checksum.antt =====
-- src/net/checksum.rs: the Internet checksum. A `u16` or `u32` is a number with its wrap-around
-- written out; a byte slice is a list of numbers below 256.
pub mod Sum
pub mod Verify
pub mod Update
mod Tests
use userspace_router.Base.{
  ℕ, zero, suc, ◌+◌, ◌-◌, ◌*◌, ◌/◌, ◌%◌, ◌^◌, List, [], ◌∷◌, if◌then◌else◌, ◌==◌, length,
}

-- `while acc >> 16 != 0`, by rounds. `Sum.fold_lem` shows that three are enough for a `u32`.
unfoldable pub fold_loop : ℕ → ℕ → ℕ
fold_loop zero acc = acc
fold_loop (suc rounds) acc =
    let more = fold_loop rounds (acc % 2 ^ 16 + acc / 2 ^ 16) in
    if acc / 2 ^ 16 == 0 then acc else more

unfoldable pub fold : ℕ → ℕ
unfolding fold_loop
fold acc = fold_loop 3 acc % 2 ^ 16

-- `u16::from_be_bytes`
abbrev pub be16 : ℕ → ℕ → ℕ
be16 hi lo = hi * 256 + lo

abbrev pub wrapping_add : ℕ → ℕ → ℕ
wrapping_add a b = (a + b) % 2 ^ 32

-- `!x` on a `u16`
abbrev pub not16 : ℕ → ℕ
not16 x = 65535 - x

unfoldable pub accumulate : ℕ → List ℕ → ℕ
accumulate acc [] = acc
accumulate acc (b ∷ []) = wrapping_add acc (be16 b 0)
accumulate acc (a ∷ b ∷ rest) = accumulate (wrapping_add acc (be16 a b)) rest

unfoldable pub finish : ℕ → ℕ
finish acc = not16 (fold acc)

unfoldable pub checksum : List ℕ → ℕ
checksum bytes = finish (accumulate 0 bytes)

unfoldable pub ipv4_header : List ℕ → ℕ
ipv4_header header = checksum header

-- A computed zero is sent as 0xffff.
abbrev pub nonzero_or_ones : ℕ → ℕ
nonzero_or_ones v = if v == 0 then 0xffff else v

-- `src` and `dst` are four bytes; 17 is the protocol number of UDP.
pub udp_ipv4 : List ℕ → List ℕ → List ℕ → ℕ
udp_ipv4 src dst udp =
    let pseudo = accumulate (accumulate 0 src) dst in
    nonzero_or_ones
      (finish (accumulate (wrapping_add (wrapping_add pseudo 17) (length udp % 2 ^ 32)) udp))

-- The first loop of `update`: the complements of the old words.
unfoldable pub accumulate_not : ℕ → List ℕ → ℕ
accumulate_not acc [] = acc
accumulate_not acc (b ∷ []) = wrapping_add acc (not16 (be16 b 0))
accumulate_not acc (a ∷ b ∷ rest) = accumulate_not (wrapping_add acc (not16 (be16 a b))) rest

unfoldable pub update : ℕ → List ℕ → List ℕ → ℕ
update sum old new = not16 (fold (accumulate (accumulate_not (not16 sum) old) new))
