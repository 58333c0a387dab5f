-- ===== src/Ring/Slots.antt =====
-- src/mem/ring.rs: positions round the ring.
use native.Mathlib.Nat.{mod-eq_of_lt, mod-eq-sub-mod}
use userspace_router.Base.{
  ℕ, zero, suc, ◌+◌, ◌-◌, ◌%◌, ◌<◌, ◌≡◌, refl, if◌then◌else◌, ltb, arith, ◌∙◌, some, List, [], ◌∷◌,
  ◌++◌, length, get_elem?, Bool-cases, inl, inr,
}

-- The position `i` places behind `tail`; both are below `n`.
abbrev pub around : ℕ → ℕ → ℕ → ℕ
around n tail i = if ltb (tail + i) n then tail + i else tail + i - n

pub mod-around : (n a : ℕ) → a < n + n → a % n ≡ (if ltb a n then a else a - n)
mod-around n a h = elim (Bool-cases (ltb a n)) [
  | inl small ↦ rw small (mod-eq_of_lt (ground arith))
  | inr big ↦ rw big (mod-eq-sub-mod (ground arith) ∙ mod-eq_of_lt (ground arith))
]

-- The queue of a ring read by position, when an item is added behind it.
pub get_elem?-append {ℓ} :
    {A : Type ℓ} (xs : List A) (x : A) (i : ℕ)
    → i < length xs
    → get_elem? (xs ++ (x ∷ [])) i ≡ get_elem? xs i
get_elem?-append [] x i h = absurd (omega arith)
get_elem?-append (y ∷ xs) x zero h = refl
get_elem?-append (y ∷ xs) x (suc i) h = get_elem?-append xs x i (omega arith)

pub get_elem?-append_last {ℓ} :
    {A : Type ℓ} (xs : List A) (x : A) → get_elem? (xs ++ (x ∷ [])) (length xs) ≡ some x
get_elem?-append_last [] x = refl
get_elem?-append_last (y ∷ xs) x = get_elem?-append_last xs x
