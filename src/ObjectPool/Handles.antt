-- ===== src/ObjectPool/Handles.antt =====
-- src/mem/pool.rs: what `alloc` and `release` do to a well-formed pool.
use userspace_router.Base.{
  ℕ, ◌+◌, ◌<◌, ◌≡◌, ◌≢◌, refl, sym, ap, subst, ◌∙◌, arith, true, false, Option, some, none, is_some,
  List, [], ◌∷◌, length, Option-cases, inl, inr, length-set, Bool,
}
use userspace_router.Bitmask.{with_bit, is_set, set_bit}
use userspace_router.Bitmask.Laws.{
  has_bit-with_bit, has_bit-without_bit, is_set_lem, set_bit_lem, clear_bit_lem,
}
use userspace_router.ObjectPool.{ObjectPool, capacity, available, alloc, value, release}
use userspace_router.ObjectPool.Laws.{
  IsPool, mem, used, taken, returned, front_free, taken-IsPool, returned-IsPool, value-set,
}

-- Every slot but `index` is as before.
pub record SameBut {ℓ} {A : Type ℓ} (p q : ObjectPool A) (index : ℕ) : Type ℓ where
  pub same_capacity : capacity q ≡ capacity p
  pub same_used : (i : ℕ) → i ≢ index → used q i ≡ used p i
  pub same_value : (i : ℕ) → i ≢ index → value q i ≡ value p i

-- What `alloc` answers.
pub data Allocs {ℓ} {A : Type ℓ} (p : ObjectPool A) (v : A)
    : Option (ObjectPool A × Option ℕ) → Type ℓ where
  exhausted : ((i : ℕ) → i < capacity p → used p i ≡ true) → Allocs p v (some (p, none))
  claimed :
      (q : ObjectPool A) (index : ℕ)
      → IsPool q
      → index < capacity p
      → used p index ≡ false
      → used q index ≡ true
      → value q index ≡ some v
      → SameBut p q index
      → available p ≡ available q + 1
      → Allocs p v (some (q, some index))

module _ {ℓ} {A : Type ℓ} (p : ObjectPool A) where
  taken-SameBut :
      (index : ℕ) (rest : List ℕ) (v : A)
      → IsPool p
      → index < length p.slots
      → SameBut p (taken p index rest v) index
  taken-SameBut index rest v c h = record {
    same_capacity = length-set p.slots index (some v);
    same_used = λ i ne.
        ground (arith, has_bit-with_bit p.free.used i index c.words (omega (arith, c.size)));
    same_value = λ i ne. ground (arith, value-set p.slots index i (some v) h);
  }

  returned-SameBut :
      (index : ℕ) → IsPool p → index < length p.slots → SameBut p (returned p index) index
  returned-SameBut index c h = record {
    same_capacity = length-set p.slots index none;
    same_used = λ i ne.
        ground (arith, has_bit-without_bit p.free.used i index c.words (omega (arith, c.size)));
    same_value = λ i ne. ground (arith, value-set p.slots index i none h);
  }

  alloc_taken :
      (debug : Bool) (index : ℕ) (rest : List ℕ) (v : A)
      → p.free.list ≡ index ∷ rest
      → is_set p.free.used index ≡ some false
      → set_bit p.free.used index ≡ some (with_bit p.free.used index)
      → alloc debug p v ≡ some (taken p index rest v, some index)
  unfolding alloc
  alloc_taken true index rest v e clear put = rw (e, clear, put) refl
  alloc_taken false index rest v e clear put = rw (e, put) refl

  alloc_empty : (debug : Bool) (v : A) → p.free.list ≡ [] → alloc debug p v ≡ some (p, none)
  unfolding alloc
  alloc_empty debug v e = rw e refl

  -- `alloc` on a well-formed pool does not panic, with debug assertions or without. It answers none only if every slot is in use, and
  -- then changes nothing; else it answers the index of a slot that was free and now holds the
  -- value, and leaves every other slot as it is.
  pub alloc-Allocs : (debug : Bool) (v : A) → IsPool p → Allocs p v (alloc debug p v)
  alloc-Allocs debug v c = go p.free.list refl
    where
      go : (list : List ℕ) → p.free.list ≡ list → Allocs p v (alloc debug p v)
      go [] e =
          subst (Allocs p v) (sym (alloc_empty debug v e))
            (exhausted (λ i h. ground (arith, c.listed i h, ap (mem i) e)))
      go (index ∷ rest) e =
          let (inside, clear, fresh, others) = front_free p index rest c e in
          let fits : index < p.free.used.size = omega (arith, c.size) in
          subst (Allocs p v)
            (sym (
              alloc_taken debug index rest v e (is_set_lem p.free.used index fits ∙ ap some clear)
                (set_bit_lem p.free.used index fits)))
            (claimed (taken p index rest v) index (taken-IsPool p index rest v c e) inside clear
              (ground (arith, has_bit-with_bit p.free.used index index c.words fits))
              (ground (arith, value-set p.slots index index (some v) inside))
              (taken-SameBut index rest v c inside) (ap length e ∙ omega arith))

  release-returned :
      (debug : Bool) (index : ℕ) (v : A)
      → IsPool p
      → index < capacity p
      → used p index ≡ true
      → value p index ≡ some v
      → release debug p index ≡ (some v, some (returned p index))
  unfolding release
  release-returned true index v c h u there =
      let fits : index < p.free.used.size = omega (arith, c.size) in
      rw (is_set_lem p.free.used index fits, u, clear_bit_lem p.free.used index fits, there) refl
  release-returned false index v c h u there =
      let fits : index < p.free.used.size = omega (arith, c.size) in
      rw (clear_bit_lem p.free.used index fits, there) refl

  -- On a well-formed pool, `release` of a slot in use ends its value, which was there, and frees it,
  -- with debug assertions or without; every other slot is as before, and the slot is the next one
  -- that `alloc` hands out. `release` of a slot that is free finds no value in it; with debug
  -- assertions it panics then, but without, as in the release profile, it lists the slot once more,
  -- though it is listed already.
  pub release_frees :
      (debug : Bool) (index : ℕ)
      → IsPool p
      → index < capacity p
      → (used p index ≡ true
          → (q : ObjectPool A) × (v : A) × (release debug p index ≡ (some v, some q))
            × (value p index ≡ some v)
            × IsPool q
            × (used q index ≡ false)
            × SameBut p q index
            × (q.free.list ≡ index ∷ p.free.list))
        × (used p index ≡ false
            → (release true p index ≡ (none, none))
              × (mem index p.free.list ≡ true)
              × ((q : ObjectPool A) × (release false p index ≡ (none, some q))
                  × (q.free.list ≡ index ∷ p.free.list)))
  unfolding release
  release_frees debug index c h =
      let fits : index < p.free.used.size = omega (arith, c.size) in
      (
        (λ u. elim (Option-cases (value p index)) [
          | inl gone ↦ absurd (ground (arith, c.live index h, ap is_some gone))
          | inr (v, there) ↦ (
            returned p index,
            v,
            release-returned debug index v c h u there,
            there,
            returned-IsPool p index c h u,
            ground (arith, has_bit-without_bit p.free.used index index c.words fits),
            returned-SameBut index c h,
            refl,
          )
        ]),
        (λ u. elim (Option-cases (value p index)) [
          | inr (v, there) ↦ absurd (ground (arith, c.live index h, ap is_some there))
          | inl gone ↦ (
            rw (gone, is_set_lem p.free.used index fits, u) refl,
            ground (arith, c.listed index h),
            (returned p index, rw (gone, clear_bit_lem p.free.used index fits) refl, refl),
          )
        ]),
      )
