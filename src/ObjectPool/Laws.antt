-- ===== src/ObjectPool/Laws.antt =====
-- src/mem/pool.rs: the free list is the indices whose bit is clear, and no two live handles share a
-- slot.
use userspace_router.Base.{
  ℕ, zero, suc, ◌+◌, ◌<◌, ◌≡◌, refl, sym, ap, subst, ◌∙◌, arith, Bool, true, false, not, ◌||◌, ◌&&◌,
  Option, some, none, is_some, if◌then◌else◌, ◌==◌, ltb, leb, List, [], ◌∷◌, get_or, set, replicate,
  length, length-set, length-replicate, get_or-set_self, get_or-set_ne, Bool-cases, inl, inr,
  get_elem?, ◌≤◌, some-eq-some,
}
use userspace_router.Bitmask.{has_bit, with_bit, without_bit}
use userspace_router.Bitmask.Laws.{
  HasWords, new-HasWords, has_bit-new, has_bit-with_bit, has_bit-without_bit, with_bit-HasWords,
  without_bit-HasWords, size-with_bit, size-without_bit,
}
use userspace_router.ObjectPool.{ObjectPool, indices, new, value, dropped, drop_pool}

abbrev pub mem : ℕ → List ℕ → Bool
mem i [] = false
mem i (x ∷ xs) = i == x || mem i xs

abbrev pub Distinct : List ℕ → Type 0
Distinct [] = Unit {0}
Distinct (x ∷ xs) = (mem x xs ≡ false) × Distinct xs

-- The bits of the used slots, by index.
abbrev pub used {ℓ} : {A : Type ℓ} → ObjectPool A → ℕ → Bool
used p i = has_bit p.free.used i

pub record IsPool {ℓ} {A : Type ℓ} (p : ObjectPool A) : Type ℓ where
  pub size : p.free.used.size ≡ length p.slots
  pub words : HasWords p.free.used
  pub distinct : Distinct p.free.list
  pub inside : (i : ℕ) → mem i p.free.list ≡ true → i < length p.slots
  pub listed : (i : ℕ) → i < length p.slots → mem i p.free.list ≡ not (used p i)
  pub live : (i : ℕ) → i < length p.slots → used p i ≡ is_some (value p i)

mem-indices : (n from i : ℕ) → mem i (indices from n) ≡ (leb from i && ltb i (from + n))
unfolding indices
mem-indices zero from i = ground arith
mem-indices (suc n) from i = ground (arith, mem-indices n (from + 1) i)

indices-Distinct : (n from : ℕ) → Distinct (indices from n)
unfolding indices
indices-Distinct zero from = tt
indices-Distinct (suc n) from =
    (mem-indices n (from + 1) from ∙ ground arith, indices-Distinct n (from + 1))

mem_at : (i j : ℕ) (xs : List ℕ) → (i == j) ≡ true → mem i xs ≡ mem j xs
mem_at i j xs h = ap (λ k. mem k xs) (ground arith)

module _ {ℓ} {A : Type ℓ} where
  new-slots : (n i : ℕ) → get_or {A = Option A} (replicate n none) i none ≡ none
  new-slots zero i = refl
  new-slots (suc n) zero = refl
  new-slots (suc n) (suc i) = new-slots n i

  pub new-IsPool : (n : ℕ) → IsPool (new {A = A} n)
  new-IsPool n =
      let len : length (new {A = A} n).slots ≡ n = length-replicate {A = Option A} n none in
      record {
        size = sym len;
        words = new-HasWords n;
        distinct = indices-Distinct n 0;
        inside = λ i h. ground (arith, mem-indices n 0 i, len);
        listed = λ i h. ground (arith, mem-indices n 0 i, len, has_bit-new n i);
        live = λ i h. has_bit-new n i ∙ ap is_some (sym (new-slots n i));
      }

  -- The pool with a slot taken from the front of the list, and with a slot given back.
  abbrev pub taken : ObjectPool A → ℕ → List ℕ → A → ObjectPool A
  taken p index rest v = record {
    slots = set p.slots index (some v);
    free = record { used = with_bit p.free.used index; list = rest };
  }

  abbrev pub returned : ObjectPool A → ℕ → ObjectPool A
  returned p index = record {
    slots = set p.slots index none;
    free = record { used = without_bit p.free.used index; list = index ∷ p.free.list };
  }

  pub value-set :
      (xs : List (Option A)) (j i : ℕ) (v : Option A)
      → j < length xs
      → get_or (set xs j v) i none ≡ (if i == j then v else get_or xs i none)
  value-set xs j i v h = elim (Bool-cases (i == j)) [
    | inl same ↦
        let e : i ≡ j = ground arith in
        rw same (ap (λ k. get_or (set xs j v) k none) e ∙ get_or-set_self xs j v none h)
    | inr other ↦ rw other (get_or-set_ne xs v none (λ e. ground arith))
  ]

  pub front_free :
      (p : ObjectPool A) (index : ℕ) (rest : List ℕ)
      → IsPool p
      → p.free.list ≡ index ∷ rest
      → (index < length p.slots) × (used p index ≡ false) × (mem index rest ≡ false) × Distinct rest
  front_free p index rest c e =
      let here : mem index p.free.list ≡ true = ap (mem index) e ∙ ground arith in
      let inside = c.inside index here in
      let (fresh, others) = subst Distinct e c.distinct in
      (inside, ground (arith, c.listed index inside), fresh, others)

  pub taken-IsPool :
      (p : ObjectPool A) (index : ℕ) (rest : List ℕ) (v : A)
      → IsPool p
      → p.free.list ≡ index ∷ rest
      → IsPool (taken p index rest v)
  taken-IsPool p index rest v c e =
      let (inside, clear, fresh, others) = front_free p index rest c e in
      let fits : index < p.free.used.size = omega (arith, c.size) in
      let len = length-set p.slots index (some v) in
      let bit : (i : ℕ) → used (taken p index rest v) i ≡ (if i == index then true else used p i) =
        λ i. has_bit-with_bit p.free.used i index c.words fits in
      let in_list : (i : ℕ) → mem i p.free.list ≡ (i == index || mem i rest) = λ i. ap (mem i) e in
      record {
        size = size-with_bit p.free.used index ∙ c.size ∙ sym len;
        words = with_bit-HasWords p.free.used index c.words;
        distinct = others;
        inside = λ i h. ground (arith, len, in_list i, c.inside i);
        listed = λ i h.
            let here : mem index rest ≡ false = fresh in
            ground (arith, len, in_list i, c.listed i, bit i, mem_at i index rest);
        live =
            λ i h. ground (arith, len, c.live i, bit i, value-set p.slots index i (some v) inside);
      }

  pub returned-IsPool :
      (p : ObjectPool A) (index : ℕ)
      → IsPool p
      → index < length p.slots
      → used p index ≡ true
      → IsPool (returned p index)
  returned-IsPool p index c inside u =
      let fits : index < p.free.used.size = omega (arith, c.size) in
      let len = length-set p.slots index none in
      let bit : (i : ℕ) → used (returned p index) i ≡ (if i == index then false else used p i) =
        λ i. has_bit-without_bit p.free.used i index c.words fits in
      record {
        size = size-without_bit p.free.used index ∙ c.size ∙ sym len;
        words = without_bit-HasWords p.free.used index c.words;
        distinct = (c.listed index inside ∙ ap not u, c.distinct);
        inside = λ i h. ground (arith, len, c.inside i);
        listed = λ i h. ground (arith, len, c.listed i, bit i);
        live = λ i h. ground (arith, len, c.live i, bit i, value-set p.slots index i none inside);
      }

  dropped_live :
      (p : ObjectPool A) (n from i : ℕ) (v : Option A)
      → IsPool p
      → from + n ≤ length p.slots
      → get_elem? (dropped p from n) i ≡ some v
      → is_some v ≡ true
  unfolding dropped
  dropped_live p zero from i v c h e = cc
  dropped_live p (suc n) from i v c h e = elim (Bool-cases (used p from)) [
    | inl in_use ↦
        front (value p from) (dropped p (from + 1) n) i (sym (c.live from (omega arith)) ∙ in_use)
          (λ j k. dropped_live p n (from + 1) j v c (omega arith) k) (rw in_use at e)
    | inr not_used ↦ dropped_live p n (from + 1) i v c (omega arith) (rw not_used at e)
  ]
    where
      front :
          (o : Option A) (rest : List (Option A)) (j : ℕ)
          → is_some o ≡ true
          → ((k : ℕ) → get_elem? rest k ≡ some v → is_some v ≡ true)
          → get_elem? (o ∷ rest) j ≡ some v
          → is_some v ≡ true
      front o rest zero here later g = ap is_some (sym (some-eq-some o v g)) ∙ here
      front o rest (suc j) here later g = later j g

  -- Dropping a well-formed pool drops only slots that hold a value.
  pub drop_pool_live :
      (p : ObjectPool A) (i : ℕ) (v : Option A)
      → IsPool p
      → get_elem? (drop_pool p) i ≡ some v
      → is_some v ≡ true
  drop_pool_live p i v c = dropped_live p (length p.slots) 0 i v c (omega arith)
