-- ===== src/Netmask/Prefix.antt =====
-- src/net/util.rs: a netmask is ones and then zeros, and its prefix length tells which.
use native.Mathlib.Nat.{pow-suc, one-le-pow, pow-le-pow_right}
use userspace_router.Base.{
  ℕ, zero, suc, ◌+◌, ◌-◌, ◌*◌, ◌/◌, ◌%◌, ◌^◌, ◌≤◌, ◌<◌, ◌≡◌, refl, ap, ◌∙◌, arith, true, false,
  none, some, ltb, ◌==◌, Bool-cases, inl, inr,
}
use userspace_router.Netmask.{
  count_ones, trailing_zeros, shift_left, prefix_to_netmask, netmask_to_prefix,
}

count_ones-le : (bits m : ℕ) → count_ones bits m ≤ bits
unfolding count_ones
count_ones-le zero m = omega arith
count_ones-le (suc bits) m = omega (arith, count_ones-le bits (m / 2))

prefix_none : (prefix : ℕ) → 32 < prefix → prefix_to_netmask prefix ≡ none
unfolding prefix_to_netmask
prefix_none prefix h = ground arith

all_ones : (bits m : ℕ) → m < 2 ^ bits → count_ones bits m ≡ bits → m + 1 ≡ 2 ^ bits
unfolding count_ones
all_ones zero m h e = omega arith
all_ones (suc bits) m h e =
    let small : m / 2 < 2 ^ bits = omega (arith, pow-suc 2 bits) in
    omega (
      arith,
      pow-suc 2 bits,
      count_ones-le bits (m / 2),
      all_ones bits (m / 2) small (omega (arith, count_ones-le bits (m / 2))),
    )

double : (t : ℕ) → 2 ^ (1 + t) ≡ 2 ^ t * 2
double t = ap (λ k. 2 ^ k) (omega arith) ∙ pow-suc 2 t

-- A mask whose ones and trailing zeros make up all bits.
contiguous :
    (bits m : ℕ)
    → m < 2 ^ bits
    → count_ones bits m + trailing_zeros bits m ≡ bits
    → m + 2 ^ trailing_zeros bits m ≡ 2 ^ bits
unfolding count_ones trailing_zeros
contiguous zero m h e = omega arith
contiguous (suc bits) m h e =
    let small : m / 2 < 2 ^ bits = omega (arith, pow-suc 2 bits) in
    elim (Bool-cases (m % 2 == 0)) [
      | inl even ↦
          let low : m % 2 ≡ 0 = ground arith in
          let rest = trailing_zeros bits (m / 2) in
          let here : trailing_zeros (suc bits) m ≡ 1 + rest = rw even refl in
          let ih = contiguous bits (m / 2) small (omega (arith, here)) in
          rw even (omega (arith, ih, double rest, pow-suc 2 bits))
      | inr odd ↦
          let low : m % 2 ≡ 1 = ground arith in
          let here : trailing_zeros (suc bits) m ≡ 0 = rw odd refl in
          rw odd (
            omega (
              arith,
              pow-suc 2 bits,
              all_ones bits (m / 2) small (omega (arith, here, count_ones-le bits (m / 2))),
            ))
    ]

-- Ones and then zeros, counted.
ones_counted :
    (bits : ℕ) → (count_ones bits (2 ^ bits - 1) ≡ bits) × (trailing_zeros bits (2 ^ bits - 1) ≡ 0)
unfolding count_ones trailing_zeros
ones_counted zero = (refl, refl)
ones_counted (suc bits) =
    let half : (2 ^ suc bits - 1) / 2 ≡ 2 ^ bits - 1 =
      omega (arith, pow-suc 2 bits, one-le-pow bits 2 (omega arith)) in
    let low : (2 ^ suc bits - 1) % 2 ≡ 1 =
      omega (arith, pow-suc 2 bits, one-le-pow bits 2 (omega arith)) in
    let odd : ((2 ^ suc bits - 1) % 2 == 0) ≡ false = ground arith in
    (omega (arith, low, ap (count_ones bits) half, ones_counted bits), rw odd refl)

mask_counted :
    (bits clear : ℕ)
    → clear ≤ bits
    → (count_ones bits (2 ^ bits - 2 ^ clear) ≡ bits - clear)
      × (trailing_zeros bits (2 ^ bits - 2 ^ clear) ≡ clear)
unfolding count_ones trailing_zeros
mask_counted bits zero h = let e : bits - 0 ≡ bits = omega arith in rw e (ones_counted bits)
mask_counted zero (suc clear) h = absurd (omega arith)
mask_counted (suc bits) (suc clear) h =
    let m : ℕ = 2 ^ suc bits - 2 ^ suc clear in
    let half : m / 2 ≡ 2 ^ bits - 2 ^ clear = omega (arith, pow-suc 2 bits, pow-suc 2 clear) in
    let low : m % 2 ≡ 0 = omega (arith, pow-suc 2 bits, pow-suc 2 clear) in
    let even : (m % 2 == 0) ≡ true = ground arith in
    let ih = mask_counted bits clear (omega arith) in
    (
      omega (arith, low, ap (count_ones bits) half, ih),
      rw even (omega (arith, ap (trailing_zeros bits) half, ih)),
    )

shifted : (clear : ℕ) → clear ≤ 31 → shift_left (2 ^ 32 - 1) clear ≡ 2 ^ 32 - 2 ^ clear
shifted clear h =
    let low = one-le-pow clear 2 (omega arith) in
    let high = pow-le-pow_right {n = 2} (omega arith) {i = clear} {j = 31} h in
    omega (arith, low, high)

pub prefix_mask :
    (prefix : ℕ) → prefix ≤ 32 → prefix_to_netmask prefix ≡ some (2 ^ 32 - 2 ^ (32 - prefix))
unfolding prefix_to_netmask
prefix_mask prefix h =
    let fits : ltb 32 prefix ≡ false = ground arith in
    elim (Bool-cases (prefix == 0)) [
      | inl none_set ↦ let e : prefix ≡ 0 = ground arith in rw (e) refl
      | inr some_set ↦ rw (fits, some_set) (ap some (shifted (32 - prefix) (ground arith)))
    ]

-- Every prefix length up to 32 has a netmask, with that prefix length, and a greater one has none.
-- A mask of 32 bits that has a prefix length is the netmask of that length.
pub netmask_to_prefix-prefix_to_netmask :
    (prefix mask : ℕ)
    → mask < 2 ^ 32
    → (prefix ≤ 32
        → (m : ℕ) × (prefix_to_netmask prefix ≡ some m) × (netmask_to_prefix m ≡ some prefix))
      × (32 < prefix → prefix_to_netmask prefix ≡ none)
      × (netmask_to_prefix mask ≡ some prefix → prefix_to_netmask prefix ≡ some mask)
unfolding netmask_to_prefix
netmask_to_prefix-prefix_to_netmask prefix mask small = (
  (λ h.
      let m : ℕ = 2 ^ 32 - 2 ^ (32 - prefix) in
      let counted = mask_counted 32 (32 - prefix) (omega arith) in
      (m, prefix_mask prefix h, ground (arith, counted))),
  prefix_none prefix,
  λ e.
      let whole : count_ones 32 mask + trailing_zeros 32 mask ≡ 32 = ground arith in
      let count : count_ones 32 mask ≡ prefix = ground arith in
      let clear : trailing_zeros 32 mask ≡ 32 - prefix = omega arith in
      let shape = contiguous 32 mask small whole in
      let value : 2 ^ 32 - 2 ^ (32 - prefix) ≡ mask = omega (arith, shape, ap (λ k. 2 ^ k) clear) in
      prefix_mask prefix (omega arith) ∙ ap some value,
)
