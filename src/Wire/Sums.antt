-- ===== src/Wire/Sums.antt =====
-- src/net/wire.rs: the word sum of a buffer after a write of whole words at an even offset.
use userspace_router.Base.{
  ℕ, zero, suc, ◌+◌, ◌%◌, ◌≤◌, ◌<◌, ◌≡◌, refl, List, [], ◌∷◌, length, take, drop, arith,
}
use userspace_router.Checksum.Sum.{word_sum, IsWhole}
use userspace_router.Wire.{splice, byte}

pub word_sum-splice :
    (xs : List ℕ) (off : ℕ) (new : List ℕ)
    → off % 2 ≡ 0
    → IsWhole new
    → off + length new ≤ length xs
    → word_sum (splice xs off new) + word_sum (take (length new) (drop off xs))
      ≡ word_sum xs + word_sum new
unfolding word_sum splice
word_sum-splice [] zero [] e w h = refl
word_sum-splice (x ∷ xs) zero [] e w h = omega arith
word_sum-splice xs zero (a ∷ []) e w h = absurd w
word_sum-splice [] zero (a ∷ b ∷ new) e w h = absurd (omega arith)
word_sum-splice (x ∷ []) zero (a ∷ b ∷ new) e w h = absurd (omega arith)
word_sum-splice (x ∷ y ∷ xs) zero (a ∷ b ∷ new) e w h =
    omega (arith, word_sum-splice xs zero new refl w (omega arith))
word_sum-splice xs (suc zero) new e w h = absurd (omega arith)
word_sum-splice [] (suc (suc off)) new e w h = absurd (omega arith)
word_sum-splice (x ∷ []) (suc (suc off)) [] e w h = absurd (omega arith)
word_sum-splice (x ∷ []) (suc (suc off)) (a ∷ new) e w h = absurd (omega arith)
word_sum-splice (x ∷ y ∷ xs) (suc (suc off)) new e w h =
    omega (arith, word_sum-splice xs off new (omega arith) w (omega arith))

-- A buffer with a word that is not zero has a sum that is not zero.
pub word_sum_pos : (x : ℕ) (xs : List ℕ) → 0 < x → 0 < word_sum (x ∷ xs)
unfolding word_sum
word_sum_pos x [] h = omega arith
word_sum_pos x (y ∷ xs) h = omega arith

-- Two and four bytes of a buffer, as lists.
pub slice_two :
    (buf : List ℕ) (off : ℕ)
    → off + 2 ≤ length buf
    → take 2 (drop off buf) ≡ byte buf off ∷ byte buf (off + 1) ∷ []
unfolding byte
slice_two [] zero h = absurd (omega arith)
slice_two (x ∷ []) zero h = absurd (omega arith)
slice_two (x ∷ y ∷ buf) zero h = refl
slice_two [] (suc off) h = absurd (omega arith)
slice_two (x ∷ buf) (suc off) h =
    let one : suc off + 1 ≡ suc (off + 1) = omega arith in rw one (slice_two buf off (omega arith))

pub slice_four :
    (buf : List ℕ) (off : ℕ)
    → off + 4 ≤ length buf
    → take 4 (drop off buf)
      ≡ byte buf off ∷ byte buf (off + 1) ∷ byte buf (off + 2) ∷ byte buf (off + 3) ∷ []
unfolding byte
slice_four (x ∷ y ∷ z ∷ w ∷ buf) zero h = refl
slice_four [] zero h = absurd (omega arith)
slice_four (x ∷ []) zero h = absurd (omega arith)
slice_four (x ∷ y ∷ []) zero h = absurd (omega arith)
slice_four (x ∷ y ∷ z ∷ []) zero h = absurd (omega arith)
slice_four [] (suc off) h = absurd (omega arith)
slice_four (x ∷ buf) (suc off) h =
    let one : suc off + 1 ≡ suc (off + 1) = omega arith in
    let two : suc off + 2 ≡ suc (off + 2) = omega arith in
    let three : suc off + 3 ≡ suc (off + 3) = omega arith in
    rw (one, two, three) (slice_four buf off (omega arith))
