-- ===== src/Wire.antt =====
-- src/net/wire.rs: header fields in a byte buffer. A buffer is a list of numbers below 256; a
-- header is an offset into it, and its fields are read and written in place, in network byte order.
pub mod Splice
pub mod Sums
pub mod Slices
pub mod Writes
use userspace_router.Base.{
  ℕ, zero, suc, ◌+◌, ◌-◌, ◌*◌, ◌/◌, ◌%◌, ◌^◌, Bool, List, [], ◌∷◌, leb, length, get_or, take, drop,
}

-- `ref_from` behind `buf.get(off..)`: whether `len` bytes stand at `off`.
abbrev pub has_bytes : List ℕ → ℕ → ℕ → Bool
has_bytes buf off len = leb (off + len) (length buf)

unfoldable pub byte : List ℕ → ℕ → ℕ
byte buf i = get_or buf i 0

-- `U16Be::get` and `u16::from_be_bytes`
abbrev pub get_u16 : List ℕ → ℕ → ℕ
get_u16 buf off = byte buf off * 256 + byte buf (off + 1)

-- `U32Be::get`, also `Ipv4Addr::from` of four bytes
abbrev pub get_u32 : List ℕ → ℕ → ℕ
get_u32 buf off = get_u16 buf off * 2 ^ 16 + get_u16 buf (off + 2)

-- `to_be_bytes`
abbrev pub u16_bytes : ℕ → List ℕ
u16_bytes v = v / 256 % 256 ∷ v % 256 ∷ []

abbrev pub u32_bytes : ℕ → List ℕ
u32_bytes v = v / 2 ^ 24 % 256 ∷ v / 2 ^ 16 % 256 ∷ v / 2 ^ 8 % 256 ∷ v % 256 ∷ []

-- `buf[off..off + bytes.len()].copy_from_slice(bytes)`. What would lie outside is not written; the
-- source panics there.
unfoldable pub splice : List ℕ → ℕ → List ℕ → List ℕ
splice [] off bytes = []
splice (x ∷ buf) zero [] = x ∷ buf
splice (x ∷ buf) zero (b ∷ bytes) = b ∷ splice buf zero bytes
splice (x ∷ buf) (suc off) bytes = x ∷ splice buf off bytes

-- `&buf[from..to]`
abbrev pub slice : List ℕ → ℕ → ℕ → List ℕ
slice buf from to = take (to - from) (drop from buf)
