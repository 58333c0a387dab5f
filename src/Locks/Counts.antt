-- ===== src/Locks/Counts.antt =====
-- src/core/spinlock.rs: how many threads are in a stage.
use userspace_router.Base.{
  ℕ, zero, suc, ◌+◌, ◌≤◌, ◌≡◌, ◌≢◌, refl, ap, some-eq-some, Bool-cases, ◌⊎◌, inl, inr, Bool, true,
  false, some, List, [], ◌∷◌, length, get_elem?, set, replicate, arith,
}

abbrev pub one_if : Bool → ℕ
one_if true = 1
one_if false = 0

module _ {ℓ} {A : Type ℓ} where
  pub count : (A → Bool) → List A → ℕ
  count p [] = 0
  count p (x ∷ xs) = one_if (p x) + count p xs

  pub count-set :
      (p : A → Bool) (xs : List A) (i : ℕ) (x v : A)
      → get_elem? xs i ≡ some x
      → count p (set xs i v) + one_if (p x) ≡ count p xs + one_if (p v)
  unfolding count
  count-set p [] i x v h = cc
  count-set p (y ∷ xs) zero x v h =
      let e : one_if (p y) ≡ one_if (p x) = ap (λ z. one_if (p z)) (some-eq-some y x h) in
      omega (arith, e)
  count-set p (y ∷ xs) (suc i) x v h = omega (arith, count-set p xs i x v h)

  pub count_here :
      (p : A → Bool) (xs : List A) (i : ℕ) (x : A)
      → get_elem? xs i ≡ some x
      → one_if (p x) ≤ count p xs
  unfolding count
  count_here p [] i x h = cc
  count_here p (y ∷ xs) zero x h =
      let e : one_if (p y) ≡ one_if (p x) = ap (λ z. one_if (p z)) (some-eq-some y x h) in
      omega (arith, e)
  count_here p (y ∷ xs) (suc i) x h = omega (arith, count_here p xs i x h)

  -- Two threads count twice.
  pub count_two :
      (p : A → Bool) (xs : List A) (i j : ℕ) (x y : A)
      → i ≢ j
      → get_elem? xs i ≡ some x
      → get_elem? xs j ≡ some y
      → one_if (p x) + one_if (p y) ≤ count p xs
  unfolding count
  count_two p [] i j x y ne h g = cc
  count_two p (z ∷ xs) zero zero x y ne h g = absurd (ne refl)
  count_two p (z ∷ xs) zero (suc j) x y ne h g =
      let e : one_if (p z) ≡ one_if (p x) = ap (λ w. one_if (p w)) (some-eq-some z x h) in
      omega (arith, e, count_here p xs j y g)
  count_two p (z ∷ xs) (suc i) zero x y ne h g =
      let e : one_if (p z) ≡ one_if (p y) = ap (λ w. one_if (p w)) (some-eq-some z y g) in
      omega (arith, e, count_here p xs i x h)
  count_two p (z ∷ xs) (suc i) (suc j) x y ne h g =
      omega (arith, count_two p xs i j x y (λ e. ne (ap suc e)) h g)

  pub count-replicate : (p : A → Bool) (n : ℕ) (x : A) → p x ≡ false → count p (replicate n x) ≡ 0
  unfolding count
  count-replicate p zero x h = refl
  count-replicate p (suc n) x h = omega (arith, ap one_if h, count-replicate p n x h)

  pub get_elem?-replicate : (n : ℕ) (x y : A) (i : ℕ) → get_elem? (replicate n x) i ≡ some y → x ≡ y
  get_elem?-replicate zero x y i h = cc
  get_elem?-replicate (suc n) x y zero h = some-eq-some x y h
  get_elem?-replicate (suc n) x y (suc i) h = get_elem?-replicate n x y i h

  -- A write is read where it stands.
  pub get_elem?-set_cases :
      (xs : List A) (i j : ℕ) (v y : A)
      → get_elem? (set xs i v) j ≡ some y
      → ((i ≡ j) × (v ≡ y)) ⊎ ((i ≢ j) × (get_elem? xs j ≡ some y))
  get_elem?-set_cases [] i j v y h = cc
  get_elem?-set_cases (x ∷ xs) zero zero v y h = inl (refl, some-eq-some v y h)
  get_elem?-set_cases (x ∷ xs) zero (suc j) v y h = inr (omega arith, h)
  get_elem?-set_cases (x ∷ xs) (suc i) zero v y h = inr (omega arith, h)
  get_elem?-set_cases (x ∷ xs) (suc i) (suc j) v y h = elim (get_elem?-set_cases xs i j v y h) [
    | inl (e, g) ↦ inl (ap suc e, g)
    | inr (ne, g) ↦ inr (omega arith, g)
  ]

  pub count-le : (p : A → Bool) (xs : List A) → count p xs ≤ length xs
  unfolding count
  count-le p [] = omega arith
  count-le p (x ∷ xs) = elim (Bool-cases (p x)) [
    | inl in_it ↦ omega (arith, ap one_if in_it, count-le p xs)
    | inr out ↦ omega (arith, ap one_if out, count-le p xs)
  ]
