-- ===== src/Ring/Whole.antt =====
-- src/mem/ring.rs: `push` and `pop` when the other thread does not move.
use userspace_router.Base.{
  ℕ, ◌+◌, ◌<◌, ◌≡◌, ◌∙◌, false, Option, none, some, List, [], ◌∷◌, ◌++◌, ◌==◌, length, arith,
  Bool-cases, inl, inr,
}
use userspace_router.Ring.{Ring, push, pop, len, is_full, has_none, write_slot, clear_slot}
use userspace_router.Ring.Invariant.{
  Represents, is_full_lem, has_none_lem, len_lem, write_slot-Represents, publish-Represents,
  clear_slot-Represents, release-Represents,
}

-- What the operations of a bounded queue do.
pub data Pushes {ℓ} {A : Type ℓ} (n : ℕ) (q : List A) (x : A) : List A → Option A → Type ℓ where
  accepted : length q + 1 < n → Pushes n q x (q ++ (x ∷ [])) none
  refused : length q + 1 ≡ n → Pushes n q x q (some x)

pub data Pops {ℓ} {A : Type ℓ} : List A → List A → Option A → Type ℓ where
  took : (x : A) (q : List A) → Pops (x ∷ q) q (some x)
  nothing : Pops [] [] none

module _ {ℓ} {A : Type ℓ} (n : ℕ) (r : Ring A) where
  -- On a ring that holds a queue, `push` adds the item behind it, or gives it back if the queue has
  -- `n - 1` items, and `len` is the length of the queue.
  pub push_lem :
      (q : List A) (x : A)
      → Represents n r 0 q
      → (q' : List A) × Represents n (push n r x).0 0 q'
        × Pushes n q x q' (push n r x).1
        × (len n r ≡ length q)
  unfolding push
  push_lem q x c = elim (Bool-cases (is_full n r)) [
    | inl full ↦
        let e : length q + 1 ≡ n = ground (arith, is_full_lem n r 0 q c) in
        rw full (q, c, refused e, len_lem n r 0 q c)
    | inr free ↦
        let room : length q + 1 < n = ground (arith, is_full_lem n r 0 q c, c) in
        let (written, at) = write_slot-Represents n r 0 q x c room in
        rw free (
          q ++ (x ∷ []),
          publish-Represents n (write_slot r x) 0 q x written room at,
          accepted room,
          len_lem n r 0 q c,
        )
  ]

  pop_go :
      (q : List A)
      → Represents n r 0 q
      → has_none r ≡ (length q == 0)
      → (q' : List A) × Represents n (pop n r).0 0 q' × Pops q q' (pop n r).1
  unfolding pop
  pop_go [] c e = rw e ([], c, nothing)
  pop_go (x ∷ q) c e =
      let (cleared, got) = clear_slot-Represents n r (x ∷ q) c (omega arith) in
      let some_left : has_none r ≡ false = e ∙ ground arith in
      rw (some_left, got) (q, release-Represents n (clear_slot r) x q cleared, took x q)

  -- On a ring that holds a queue, `pop` takes its first item, if it has one.
  pub pop_lem :
      (q : List A)
      → Represents n r 0 q
      → (q' : List A) × Represents n (pop n r).0 0 q' × Pops q q' (pop n r).1
  pop_lem q c = pop_go q c (has_none_lem n r 0 q c)
