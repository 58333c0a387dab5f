-- ===== src/Wire/Writes.antt =====
-- src/net/wire.rs: fields written one behind the other.
use userspace_router.Base.{
  ℕ, zero, suc, ◌+◌, ◌≤◌, ◌≡◌, refl, sym, ap, ◌∙◌, List, [], ◌∷◌, ◌++◌, length, drop, arith,
}
use userspace_router.Wire.{splice}
use userspace_router.Wire.Splice.{splice-nil}

-- Writes one behind the other are one write.
splice-splice :
    (buf : List ℕ) (off : ℕ) (a b : List ℕ)
    → splice (splice buf off a) (off + length a) b ≡ splice buf off (a ++ b)
unfolding splice
splice-splice [] off a b = refl
splice-splice (x ∷ buf) zero [] b = refl
splice-splice (x ∷ buf) zero (y ∷ a) b =
    let e : zero + length (y ∷ a) ≡ suc (zero + length a) = omega arith in
    rw e (ap (◌∷◌ y) (splice-splice buf zero a b))
splice-splice (x ∷ buf) (suc off) a b =
    let e : suc off + length a ≡ suc (off + length a) = omega arith in
    rw e (ap (◌∷◌ x) (splice-splice buf off a b))

pub splice-append :
    (buf new : List ℕ) → length new ≤ length buf → splice buf 0 new ≡ new ++ drop (length new) buf
unfolding splice
splice-append [] [] h = refl
splice-append [] (y ∷ new) h = absurd (omega arith)
splice-append (x ∷ buf) [] h = refl
splice-append (x ∷ buf) (y ∷ new) h = ap (◌∷◌ y) (splice-append buf new (omega arith))

unfoldable pub writes : List ℕ → ℕ → List (List ℕ) → List ℕ
writes buf off [] = buf
writes buf off (x ∷ xs) = writes (splice buf off x) (off + length x) xs

unfoldable pub concat : List (List ℕ) → List ℕ
concat [] = []
concat (x ∷ xs) = x ++ concat xs

pub writes-concat :
    (buf : List ℕ) (off : ℕ) (xs : List (List ℕ)) → writes buf off xs ≡ splice buf off (concat xs)
unfolding writes concat
writes-concat buf off [] = sym (splice-nil buf off)
writes-concat buf off (x ∷ xs) =
    writes-concat (splice buf off x) (off + length x) xs ∙ splice-splice buf off x (concat xs)
