-- ===== src/Netmask.antt =====
-- src/net/util.rs: netmasks and prefix lengths. A mask is a `u32`; its bits are counted from the
-- lowest on, over 32 of them.
pub mod Prefix
mod Tests
use userspace_router.Base.{
  ℕ, zero, suc, ◌+◌, ◌-◌, ◌*◌, ◌/◌, ◌%◌, ◌^◌, bit_and, Option, none, some, if◌then◌else◌, ltb, ◌==◌,
}

-- `count_ones` and `trailing_zeros` of the lowest bits
unfoldable pub count_ones : ℕ → ℕ → ℕ
count_ones zero m = 0
count_ones (suc bits) m = m % 2 + count_ones bits (m / 2)

unfoldable pub trailing_zeros : ℕ → ℕ → ℕ
trailing_zeros zero m = 0
trailing_zeros (suc bits) m =
    let rest = trailing_zeros bits (m / 2) in if m % 2 == 0 then 1 + rest else 0

-- `<<` of a `u32`
abbrev pub shift_left : ℕ → ℕ → ℕ
shift_left m n = m * 2 ^ n % 2 ^ 32

unfoldable pub prefix_to_netmask : ℕ → Option ℕ
prefix_to_netmask prefix =
    if ltb 32 prefix
    then none
    else some (if prefix == 0 then 0 else shift_left (2 ^ 32 - 1) (32 - prefix))

unfoldable pub netmask_to_prefix : ℕ → Option ℕ
netmask_to_prefix mask =
    if count_ones 32 mask + trailing_zeros 32 mask == 32 then some (count_ones 32 mask) else none

-- `Netmask::new` and `Netmask::network`
unfoldable pub new : ℕ → Option ℕ
new netmask = elim (netmask_to_prefix netmask) [ none ↦ none | some prefix ↦ some netmask ]

abbrev pub network : ℕ → ℕ → ℕ
network mask ip = bit_and ip mask
