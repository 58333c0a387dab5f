-- ===== src/Bitmask/Laws.antt =====
-- src/core/bitmask.rs: a bitmask is a set of the indices below its size.
use native.Mathlib.Nat.{pow-le-pow_right, one-le-pow}
use userspace_router.Base.{
  ℕ, zero, suc, ◌-◌, ◌*◌, ◌/◌, ◌%◌, ◌^◌, ◌≤◌, ◌<◌, ◌≡◌, refl, sym, ap, ◌∙◌, bit_and, bit_or, min,
  max, arith, Bool, true, false, not, some, if◌then◌else◌, ◌==◌, ltb, get_or, replicate, length,
  length-set, length-replicate, get_or-set_self, get_or-set_ne, Bool-cases, inl, inr,
}
use userspace_router.Bitmask.{
  Bitmask, new, div_ceil, mask, not32, word, put, has_bit, with_bit, without_bit, is_set, set_bit,
  clear_bit,
}
use userspace_router.Bitmask.Digits.{
  digit, digit-le, digit-zero, digit-bit_and, digit-bit_or, digit-pow, digit-not, bit_and-pow,
}

-- There is a word for every index below the size.
pub record HasWords (m : Bitmask) : Type 0 where
  pub enough : m.size ≤ 32 * length m.bits

-- A bit is a digit of its word.
has_bit-digit : (m : Bitmask) (i : ℕ) → has_bit m i ≡ not (digit (i % 32) (word m i) == 0)
unfolding has_bit
has_bit-digit m i = rw (bit_and-pow (i % 32) (word m i)) (ground (arith, power (i % 32)))
  where
    power : (k : ℕ) → 0 < 2 ^ k
    power k = one-le-pow k 2 (omega arith)

room : (m : Bitmask) (j : ℕ) → HasWords m → j < m.size → j / 32 < length m.bits
room m j h small = omega (arith, h)

word-put :
    (m : Bitmask) (j w i : ℕ)
    → j / 32 < length m.bits
    → word (put m j w) i ≡ (if i / 32 == j / 32 then w else word m i)
word-put m j w i h = elim (Bool-cases (i / 32 == j / 32)) [
  | inl same ↦
      let e : i / 32 ≡ j / 32 = ground arith in rw (same, e) (get_or-set_self m.bits (j / 32) w 0 h)
  | inr other ↦ rw other (get_or-set_ne m.bits w 0 (λ e. ground arith))
]

-- Whichever word is written, another index of the same word is another digit.
same_bit : (i j : ℕ) → i / 32 ≡ j / 32 → (i % 32 == j % 32) ≡ (i == j)
same_bit i j e = ground arith

mask_small : (k : ℕ) → k < 32 → 2 ^ k < 2 ^ 32
mask_small k h =
    omega (arith, pow-le-pow_right {n = 2} (omega arith) {i = k} {j = 31} (omega arith))

put_bit :
    (m : Bitmask) (i j w : ℕ) (b : Bool)
    → j / 32 < length m.bits
    → (i / 32 ≡ j / 32 → not (digit (i % 32) w == 0) ≡ (if i == j then b else has_bit m i))
    → has_bit (put m j w) i ≡ (if i == j then b else has_bit m i)
put_bit m i j w b h in_word = elim (Bool-cases (i / 32 == j / 32)) [
  | inl same ↦
      let e : i / 32 ≡ j / 32 = ground arith in
      let word_is : word (put m j w) i ≡ w = word-put m j w i h ∙ rw same refl in
      has_bit-digit (put m j w) i ∙ ap (λ v. not (digit (i % 32) v == 0)) word_is ∙ in_word e
  | inr other ↦
      let apart : (i == j) ≡ false = ground arith in
      let word_is : word (put m j w) i ≡ word m i = word-put m j w i h ∙ rw other refl in
      has_bit-digit (put m j w) i
      ∙ ap (λ v. not (digit (i % 32) v == 0)) word_is
      ∙ rw apart (sym (has_bit-digit m i))
]

pub has_bit-with_bit :
    (m : Bitmask) (i j : ℕ)
    → HasWords m
    → j < m.size
    → has_bit (with_bit m j) i ≡ (if i == j then true else has_bit m i)
unfolding with_bit
has_bit-with_bit m i j h small =
    put_bit m i j (bit_or (word m j) (mask j)) true (room m j h small) (λ e.
      let d =
        digit-bit_or (i % 32) (word m j) (mask j)
        ∙ ap (max (digit (i % 32) (word m j))) (digit-pow (i % 32) (j % 32)) in
      let w : digit (i % 32) (word m j) ≡ digit (i % 32) (word m i) =
        ap (λ k. digit (i % 32) (get_or m.bits k 0)) (sym e) in
      ground (arith, d, w, same_bit i j e, has_bit-digit m i, digit-le (i % 32) (word m i)))

pub has_bit-without_bit :
    (m : Bitmask) (i j : ℕ)
    → HasWords m
    → j < m.size
    → has_bit (without_bit m j) i ≡ (if i == j then false else has_bit m i)
unfolding without_bit
has_bit-without_bit m i j h small =
    put_bit m i j (bit_and (word m j) (not32 (mask j))) false (room m j h small) (λ e.
      let d =
        digit-bit_and (i % 32) (word m j) (not32 (mask j))
        ∙ ap (min (digit (i % 32) (word m j))) (
            digit-not 32 (i % 32) (mask j) (omega arith) (mask_small (j % 32) (omega arith))
            ∙ ap (λ t. 1 - t) (digit-pow (i % 32) (j % 32))) in
      let w : digit (i % 32) (word m j) ≡ digit (i % 32) (word m i) =
        ap (λ k. digit (i % 32) (get_or m.bits k 0)) (sym e) in
      ground (arith, d, w, same_bit i j e, has_bit-digit m i, digit-le (i % 32) (word m i)))

pub new-HasWords : (n : ℕ) → HasWords (new n)
new-HasWords n = record { enough = omega (arith, length-replicate {A = ℕ} (div_ceil n 32) 0) }

pub has_bit-new : (n i : ℕ) → has_bit (new n) i ≡ false
has_bit-new n i =
    has_bit-digit (new n) i
    ∙ ground (arith, zero_word (div_ceil n 32) (i / 32), zero_digit (i % 32))
  where
    zero_word : (k j : ℕ) → get_or {A = ℕ} (replicate k 0) j 0 ≡ 0
    zero_word zero j = refl
    zero_word (suc k) zero = refl
    zero_word (suc k) (suc j) = zero_word k j

    zero_digit : (k : ℕ) → digit k 0 ≡ 0
    zero_digit k = omega (arith, digit-zero k)

pub with_bit-HasWords : (m : Bitmask) (j : ℕ) → HasWords m → HasWords (with_bit m j)
unfolding with_bit
with_bit-HasWords m j h = record {
  enough = omega (arith, h, length-set m.bits (j / 32) (bit_or (word m j) (mask j)));
}

pub without_bit-HasWords : (m : Bitmask) (j : ℕ) → HasWords m → HasWords (without_bit m j)
unfolding without_bit
without_bit-HasWords m j h = record {
  enough = omega (arith, h, length-set m.bits (j / 32) (bit_and (word m j) (not32 (mask j))));
}

-- A mask with a word for every index below its size takes and drops these indices as a set does:
-- after `set_bit` the index is in it, after `clear_bit` it is not, and every other index is in it
-- as before. There is no panic.
pub bits_lem :
    (m : Bitmask) (j : ℕ)
    → HasWords m
    → j < m.size
    → (a : Bitmask) × (b : Bitmask) × (set_bit m j ≡ some a)
      × (clear_bit m j ≡ some b)
      × HasWords a
      × HasWords b
      × ((i : ℕ) → is_set a i ≡ (if i == j then some true else is_set m i))
      × ((i : ℕ) → is_set b i ≡ (if i == j then some false else is_set m i))
unfolding set_bit clear_bit is_set with_bit without_bit
bits_lem m j h small =
    let fits : ltb j m.size ≡ true = ground arith in
    (
      with_bit m j,
      without_bit m j,
      rw fits refl,
      rw fits refl,
      with_bit-HasWords m j h,
      without_bit-HasWords m j h,
      (λ i. ground (arith, has_bit-with_bit m i j h small)),
      λ i. ground (arith, has_bit-without_bit m i j h small),
    )

pub size-with_bit : (m : Bitmask) (j : ℕ) → (with_bit m j).size ≡ m.size
unfolding with_bit
size-with_bit m j = refl

pub size-without_bit : (m : Bitmask) (j : ℕ) → (without_bit m j).size ≡ m.size
unfolding without_bit
size-without_bit m j = refl

-- Behind the assertions.
pub is_set_lem : (m : Bitmask) (j : ℕ) → j < m.size → is_set m j ≡ some (has_bit m j)
unfolding is_set
is_set_lem m j h = ground arith

pub set_bit_lem : (m : Bitmask) (j : ℕ) → j < m.size → set_bit m j ≡ some (with_bit m j)
unfolding set_bit
set_bit_lem m j h = ground arith

pub clear_bit_lem : (m : Bitmask) (j : ℕ) → j < m.size → clear_bit m j ≡ some (without_bit m j)
unfolding clear_bit
clear_bit_lem m j h = ground arith
