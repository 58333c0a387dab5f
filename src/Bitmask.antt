-- ===== src/Bitmask.antt =====
-- src/core/bitmask.rs: a set of indices as bits of 32-bit words.
pub mod Digits
pub mod Laws
mod Tests
use userspace_router.Base.{
  ℕ, ◌+◌, ◌-◌, ◌*◌, ◌/◌, ◌%◌, ◌^◌, bit_and, bit_or, Bool, not, Option, none, some, List,
  if◌then◌else◌, ltb, ◌==◌, get_or, set, replicate,
}

pub record Bitmask : Type 0 where
  pub size : ℕ
  pub bits : List ℕ

abbrev pub div_ceil : ℕ → ℕ → ℕ
div_ceil a b = (a + b - 1) / b

abbrev pub new : ℕ → Bitmask
new size = record { size = size; bits = replicate (div_ceil size 32) 0 }

-- `1 << bit` and `!` of a `u32`
abbrev pub mask : ℕ → ℕ
mask idx = 2 ^ (idx % 32)

abbrev pub not32 : ℕ → ℕ
not32 x = 2 ^ 32 - 1 - x

abbrev pub word : Bitmask → ℕ → ℕ
word m idx = get_or m.bits (idx / 32) 0

abbrev pub put : Bitmask → ℕ → ℕ → Bitmask
put m idx w = record m { bits = set m.bits (idx / 32) w }

-- The operations behind their assertion that `idx` is below `size`.
unfoldable pub has_bit : Bitmask → ℕ → Bool
has_bit m idx = not (bit_and (word m idx) (mask idx) == 0)

unfoldable pub with_bit : Bitmask → ℕ → Bitmask
with_bit m idx = put m idx (bit_or (word m idx) (mask idx))

unfoldable pub without_bit : Bitmask → ℕ → Bitmask
without_bit m idx = put m idx (bit_and (word m idx) (not32 (mask idx)))

-- `none` is the panic of the assertion.
pub is_set : Bitmask → ℕ → Option Bool
is_set m idx = if ltb idx m.size then some (has_bit m idx) else none

pub set_bit : Bitmask → ℕ → Option Bitmask
set_bit m idx = if ltb idx m.size then some (with_bit m idx) else none

pub clear_bit : Bitmask → ℕ → Option Bitmask
clear_bit m idx = if ltb idx m.size then some (without_bit m idx) else none
