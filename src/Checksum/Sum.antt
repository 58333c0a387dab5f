-- ===== src/Checksum/Sum.antt =====
-- src/net/checksum.rs: the folded sum, as a number without wrap-around.
use userspace_router.Base.{
  ℕ, zero, suc, ◌+◌, ◌*◌, ◌/◌, ◌%◌, ◌^◌, ◌≤◌, ◌<◌, ◌≡◌, ◌≢◌, sym, ◌∙◌, if◌then◌else◌, ◌==◌, refl,
  List, [], ◌∷◌, ◌++◌, arith, length, ap,
}
use userspace_router.Checksum.{
  fold_loop, fold, accumulate, accumulate_not, be16, not16, checksum, finish,
}

-- The sum of the big-endian words; an odd byte at the end counts as a high byte.
unfoldable pub word_sum : List ℕ → ℕ
word_sum [] = 0
word_sum (b ∷ []) = be16 b 0
word_sum (a ∷ b ∷ rest) = be16 a b + word_sum rest

-- Every element is a byte.
abbrev pub AreBytes : List ℕ → Type 0
AreBytes [] = Unit {0}
AreBytes (b ∷ bs) = (b < 256) × AreBytes bs

-- A whole number of words.
abbrev pub IsWhole : List ℕ → Type 0
IsWhole [] = Unit {0}
IsWhole (b ∷ []) = ⊥
IsWhole (a ∷ b ∷ rest) = IsWhole rest

once : ℕ → ℕ
once acc = acc % 2 ^ 16 + acc / 2 ^ 16

once_lem : (acc : ℕ) → (once acc % 65535 ≡ acc % 65535) × (once acc ≡ 0 → acc ≡ 0)
unfolding once
once_lem acc = (omega arith, (λ h. omega arith))

fold_loop-mod :
    (rounds acc : ℕ)
    → (fold_loop rounds acc % 65535 ≡ acc % 65535) × (fold_loop rounds acc ≡ 0 → acc ≡ 0)
unfolding fold_loop once
fold_loop-mod zero acc = (refl, λ h. h)
fold_loop-mod (suc rounds) acc =
    let ih = fold_loop-mod rounds (acc % 2 ^ 16 + acc / 2 ^ 16) in
    let o = once_lem acc in (ground (arith, ih, o), (λ h. ground (arith, ih, o)))

fold_loop_small : (rounds acc : ℕ) → acc < 2 ^ 16 → fold_loop (suc rounds) acc ≡ acc
unfolding fold_loop
fold_loop_small rounds acc h = ground arith

fold_loop_carry : (rounds acc : ℕ) → acc ≤ 131070 → fold_loop (suc (suc rounds)) acc < 2 ^ 16
fold_loop_carry rounds acc h =
    ground (arith, step, fold_loop_small rounds (acc % 2 ^ 16 + acc / 2 ^ 16) (omega arith))
  where
    step :
        fold_loop (suc (suc rounds)) acc
        ≡ (if acc / 2 ^ 16 == 0 then acc else fold_loop (suc rounds) (acc % 2 ^ 16 + acc / 2 ^ 16))
    step = unfold fold_loop in refl

fold_loop-lt : (acc : ℕ) → acc < 2 ^ 32 → fold_loop 3 acc < 2 ^ 16
fold_loop-lt acc h =
    ground (arith, step, fold_loop_carry 0 (acc % 2 ^ 16 + acc / 2 ^ 16) (omega arith))
  where
    step :
        fold_loop 3 acc
        ≡ (if acc / 2 ^ 16 == 0 then acc else fold_loop 2 (acc % 2 ^ 16 + acc / 2 ^ 16))
    step = unfold fold_loop in refl

-- Three rounds bring any `u32` below 2 ^ 16, without changing it modulo 65535; only zero folds to
-- zero.
pub fold_lem :
    (acc : ℕ)
    → acc < 2 ^ 32
    → (fold acc < 2 ^ 16) × (fold acc % 65535 ≡ acc % 65535) × (fold acc ≡ 0 → acc ≡ 0)
unfolding fold
fold_lem acc h =
    let m = fold_loop-mod 3 acc in
    let l : fold_loop 3 acc < 65536 = fold_loop-lt acc h in
    let e : fold_loop 3 acc % 2 ^ 16 ≡ fold_loop 3 acc = omega arith in
    (omega arith, e' e m.0, (λ z. m.1 (sym e ∙ z)))
  where
    e' :
        fold_loop 3 acc % 2 ^ 16 ≡ fold_loop 3 acc
        → fold_loop 3 acc % 65535 ≡ acc % 65535
        → fold_loop 3 acc % 2 ^ 16 % 65535 ≡ acc % 65535
    e' e m = rw e m

pub fold_zero : fold 0 ≡ 0
unfolding fold fold_loop
fold_zero = refl

-- Folding depends only on the value modulo 65535 and on being zero.
pub fold_unique :
    (a b : ℕ) → a < 2 ^ 32 → b < 2 ^ 32 → a % 65535 ≡ b % 65535 → a ≢ 0 → b ≢ 0 → fold a ≡ fold b
fold_unique a b ha hb e na nb = ground (arith, fold_lem a ha, fold_lem b hb)

pub word_sum-append :
    (xs ys : List ℕ) → IsWhole xs → word_sum (xs ++ ys) ≡ word_sum xs + word_sum ys
unfolding word_sum
word_sum-append [] ys w = omega arith
word_sum-append (b ∷ []) ys w = absurd w
word_sum-append (a ∷ b ∷ rest) ys w = omega (arith, word_sum-append rest ys w)

-- So many bytes cannot overflow a `u32`.
pub word_sum-le : (xs : List ℕ) → AreBytes xs → word_sum xs * 2 ≤ 65535 * (length xs + 1)
unfolding word_sum
word_sum-le [] w = omega arith
word_sum-le (b ∷ []) w = omega arith
word_sum-le (a ∷ b ∷ rest) (p, (q, w)) = omega (arith, word_sum-le rest w)

-- Without overflow `accumulate` adds the words.
pub accumulate_lem :
    (acc : ℕ) (xs : List ℕ) → acc + word_sum xs < 2 ^ 32 → accumulate acc xs ≡ acc + word_sum xs
unfolding accumulate word_sum
accumulate_lem acc [] h = omega arith
accumulate_lem acc (b ∷ []) h = omega arith
accumulate_lem acc (a ∷ b ∷ rest) h =
    rw exact (accumulate_lem (acc + be16 a b) rest (omega arith) ∙ omega arith)
  where
    exact : (acc + be16 a b) % 2 ^ 32 ≡ acc + be16 a b
    exact = omega arith

-- The sum of the complements of the words.
pub not_sum : List ℕ → ℕ
not_sum [] = 0
not_sum (b ∷ []) = not16 (be16 b 0)
not_sum (a ∷ b ∷ rest) = not16 (be16 a b) + not_sum rest

pub not_sum-le : (xs : List ℕ) → not_sum xs * 2 ≤ 65535 * (length xs + 1)
unfolding not_sum
not_sum-le [] = omega arith
not_sum-le (b ∷ []) = omega arith
not_sum-le (a ∷ b ∷ rest) = omega (arith, not_sum-le rest)

pub accumulate_not_lem :
    (acc : ℕ) (xs : List ℕ) → acc + not_sum xs < 2 ^ 32 → accumulate_not acc xs ≡ acc + not_sum xs
unfolding accumulate_not not_sum
accumulate_not_lem acc [] h = omega arith
accumulate_not_lem acc (b ∷ []) h = omega arith
accumulate_not_lem acc (a ∷ b ∷ rest) h =
    rw exact (accumulate_not_lem (acc + not16 (be16 a b)) rest (omega arith) ∙ omega arith)
  where
    exact : (acc + not16 (be16 a b)) % 2 ^ 32 ≡ acc + not16 (be16 a b)
    exact = omega arith

-- A word and its complement make 65535.
pub not_sum-word_sum : (xs : List ℕ) → AreBytes xs → (not_sum xs + word_sum xs) % 65535 ≡ 0
unfolding not_sum word_sum
not_sum-word_sum [] w = refl
not_sum-word_sum (b ∷ []) w = omega arith
not_sum-word_sum (a ∷ b ∷ rest) (p, (q, w)) = omega (arith, not_sum-word_sum rest w)

pub AreBytes-append : (xs ys : List ℕ) → AreBytes (xs ++ ys) → AreBytes xs × AreBytes ys
AreBytes-append [] ys h = (tt, h)
AreBytes-append (x ∷ xs) ys (p, h) = let (a, b) = AreBytes-append xs ys h in ((p, a), b)

-- The checksum of a buffer of less than 64 KiB is the complement of the folded exact sum.
pub checksum_lem :
    (xs : List ℕ)
    → AreBytes xs
    → length xs < 2 ^ 16
    → (word_sum xs < 2 ^ 32) × (checksum xs ≡ finish (word_sum xs))
unfolding checksum
checksum_lem xs w h = (small, ap finish (accumulate_lem 0 xs (omega (arith, small)) ∙ omega arith))
  where
    small : word_sum xs < 2 ^ 32
    small = omega (arith, word_sum-le xs w)
