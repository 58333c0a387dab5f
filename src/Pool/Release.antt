-- ===== src/Pool/Release.antt =====
-- src/router/pool.rs: `release` gives one address back.
use userspace_router.Base.{
  ℕ, ◌-◌, zero, suc, ◌+◌, ◌^◌, ◌≤◌, ◌<◌, ◌≡◌, refl, sym, false, ◌&&◌, ◌||◌, List, [], ◌∷◌, ltb, leb,
  ◌==◌, arith, none, some, if◌then◌else◌, Bool-cases, inl, inr, ==_iff, ◌∙◌, ◌⊎◌,
}
use userspace_router.Pool
use userspace_router.Pool.{
  Interval, AddressPool, partition_point, release_in, release, release_at, merge, merge_first,
  right_adj, interval_or, take_in, available, consume, addresses, wrapped_span,
}
use userspace_router.Pool.Cover.{covers, Ascends, Ascends-mono, IsValid}

-- An interval that ends in the address, joined with the one behind it where they touch.
absorb : ℕ → ℕ → List Interval → List Interval
absorb s a [] = (s, a) ∷ []
absorb s a ((s', e') ∷ ivs) = if s' == a + 1 then (s, e') ∷ ivs else (s, a) ∷ (s', e') ∷ ivs

-- `release` by a walk along the intervals, without positions.
walk : ℕ → List Interval → List Interval
walk a [] = (a, a) ∷ []
walk a ((s, e) ∷ ivs) =
    if ltb s a
    then (if e + 1 == a then absorb s a ivs else (s, e) ∷ walk a ivs)
    else absorb a a ((s, e) ∷ ivs)

partition_zero :
    (a lo hi : ℕ) (ivs : List Interval)
    → hi < 2 ^ 32
    → a ≤ hi
    → Ascends lo hi ivs
    → partition_point (λ iv. ltb iv.0 a) ivs ≡ 0
    → (walk a ivs ≡ absorb a a ivs) × (release_at 0 a ivs ≡ absorb a a ivs)
unfolding partition_point walk release_at absorb
partition_zero a lo hi [] small le asc h = (refl, refl)
partition_zero a lo hi ((s, e) ∷ ivs) small le asc h = (ground arith, ground arith)

partition_pos :
    (a lo hi n : ℕ) (ivs : List Interval)
    → Ascends lo hi ivs
    → partition_point (λ iv. ltb iv.0 a) ivs ≡ suc n
    → lo < a
unfolding partition_point
partition_pos a lo hi n [] asc h = absurd (omega arith)
partition_pos a lo hi n ((s, e) ∷ ivs) (p, q, r, t) h = ground arith

release_at-suc :
    (a n : ℕ) (iv : Interval) (ivs : List Interval)
    → release_at (suc (suc n)) a (iv ∷ ivs) ≡ iv ∷ release_at (suc n) a ivs
unfolding release_at
release_at-suc a n iv ivs = ground arith

walk_first :
    (a lo hi s e : ℕ) (ivs : List Interval)
    → hi < 2 ^ 32
    → a ≤ hi
    → Ascends lo hi ((s, e) ∷ ivs)
    → s < a
    → e < a
    → partition_point (λ iv. ltb iv.0 a) ivs ≡ 0
    → release_at 1 a ((s, e) ∷ ivs) ≡ walk a ((s, e) ∷ ivs)
unfolding walk absorb release_at partition_point
walk_first a lo hi s e [] small le asc h k z = ground arith
walk_first a lo hi s e ((s', e') ∷ ivs) small le asc h k z = ground arith

walk_past :
    (a s e : ℕ) (ivs : List Interval)
    → s < a
    → e + 1 < a
    → walk a ((s, e) ∷ ivs) ≡ (s, e) ∷ walk a ivs
unfolding walk
walk_past a s e ivs h k = ground arith

walk_lem :
    (a lo hi n : ℕ) (ivs : List Interval)
    → hi < 2 ^ 32
    → a ≤ hi
    → Ascends lo hi ivs
    → covers a ivs ≡ false
    → partition_point (λ iv. ltb iv.0 a) ivs ≡ suc n
    → release_at (suc n) a ivs ≡ walk a ivs
unfolding partition_point
walk_lem a lo hi n [] small le asc free h = absurd (omega arith)
walk_lem a lo hi zero ((s, e) ∷ ivs) small le asc free h =
    walk_first a lo hi s e ivs small le asc (ground arith) (ground arith) (ground arith)
walk_lem a lo hi (suc n) ((s, e) ∷ ivs) small le (p, q, r, t) free h = ground (
  arith,
  release_at-suc a n (s, e) ivs,
  walk_lem a (e + 2) hi n ivs small le t,
  partition_pos a (e + 2) hi n ivs t,
  walk_past a s e ivs,
)

-- The search by position is the walk, for an address that is not free.
release_in-walk :
    (a lo hi : ℕ) (ivs : List Interval)
    → hi < 2 ^ 32
    → a ≤ hi
    → Ascends lo hi ivs
    → covers a ivs ≡ false
    → release_in a ivs ≡ walk a ivs
unfolding release_in
release_in-walk a lo hi ivs small le asc free = go (partition_point (λ iv. ltb iv.0 a) ivs) refl
  where
    go : (n : ℕ) → partition_point (λ iv. ltb iv.0 a) ivs ≡ n → release_in a ivs ≡ walk a ivs
    go zero h =
        let z = partition_zero a lo hi ivs small le asc h in rw (h, release_in) (z.1 ∙ sym z.0)
    go (suc n) h = rw (h, release_in) (walk_lem a lo hi n ivs small le asc free h)

absorb-covers :
    (s a x hi : ℕ) (ivs : List Interval)
    → s ≤ a
    → Ascends (a + 1) hi ivs
    → covers x (absorb s a ivs) ≡ ((leb s x && leb x a) || covers x ivs)
unfolding absorb
absorb-covers s a x hi [] le asc = refl
absorb-covers s a x hi ((s', e') ∷ ivs) le asc = ground arith

absorb-Ascends :
    (lo s a hi : ℕ) (ivs : List Interval)
    → lo ≤ s
    → s ≤ a
    → a ≤ hi
    → Ascends (a + 1) hi ivs
    → Ascends lo hi (absorb s a ivs)
unfolding absorb
absorb-Ascends lo s a hi [] p q r asc = (p, q, r, tt)
absorb-Ascends lo s a hi ((s', e') ∷ ivs) p q r (h1, h2, h3, t) = elim (Bool-cases (s' == a + 1)) [
  | inl touch ↦ rw touch (p, ground arith, h3, t)
  | inr gap ↦ rw gap (p, q, r, (ground arith, h2, h3, t))
]

walk-covers :
    (a x lo hi : ℕ) (ivs : List Interval)
    → lo ≤ a
    → a ≤ hi
    → Ascends lo hi ivs
    → covers a ivs ≡ false
    → (covers x (walk a ivs) ≡ ((x == a) || covers x ivs)) × Ascends lo hi (walk a ivs)
unfolding walk
walk-covers a x lo hi [] low high asc free = (ground arith, (low, omega arith, high, tt))
walk-covers a x lo hi ((s, e) ∷ ivs) low high (p, q, r, t) free = elim (Bool-cases (ltb s a)) [
  | inl from ↦ elim (Bool-cases (e + 1 == a)) [
    | inl touch ↦
        let end : e + 1 ≡ a = (==_iff (e + 1) a).0 touch in
        let t' : Ascends (a + 1) hi ivs = Ascends-mono (e + 2) (a + 1) hi ivs (omega arith) t in
        rw (from, touch)
          (
            ground (arith, absorb-covers s a x hi ivs),
            absorb-Ascends lo s a hi ivs p (ground arith) high t',
          )
    | inr beyond ↦
        let ih = walk-covers a x (e + 2) hi ivs (ground arith) high t (ground arith) in
        rw (from, beyond) (ground (arith, ih), (p, q, r, ih.1))
  ]
  | inr before ↦
      let asc : Ascends (a + 1) hi ((s, e) ∷ ivs) = (ground arith, q, r, t) in
      rw before (
        ground (arith, absorb-covers a a x hi ((s, e) ∷ ivs)),
        absorb-Ascends lo a a hi ((s, e) ∷ ivs) low (omega arith) high asc,
      )
]

-- In a valid pool, releasing an address of its range that is not free makes it free, and changes
-- nothing else; the intervals stay in order, apart and within the bounds. Outside the range it
-- panics.
pub release_lem :
    (p : AddressPool) (a x : ℕ)
    → IsValid p
    → covers a p.intervals ≡ false
    → (p.start ≤ a
        → a ≤ p.end
        → (q : AddressPool) × (release p a ≡ some q)
          × (covers x q.intervals ≡ ((x == a) || covers x p.intervals))
          × IsValid q)
      × ((a < p.start) ⊎ (p.end < a) → release p a ≡ none)
unfolding release
release_lem p a x v free = (
  (λ low high.
      let w = walk-covers a x p.start p.end p.intervals low high v.ordered free in
      let e = release_in-walk a p.start p.end p.intervals v.small high v.ordered free in
      (
        record p { intervals = release_in a p.intervals },
        ground arith,
        rw e w.0,
        record { ordered = rw e w.1; small = v.small },
      )),
  (λ out. ground arith),
)

-- The source does not check that a released address was taken. Releasing the lowest address of a
-- fresh pool of fewer than 2 ^ 32 addresses, which is free, succeeds, and the next two addresses
-- that `take` hands out are both that address.
pub release_free_doubles :
    (s e : ℕ)
    → s ≤ e
    → e < 2 ^ 32
    → e - s + 1 < 2 ^ 32
    → (q : AddressPool) × (release (record { start = s; end = e; intervals = (s, e) ∷ [] }) s
        ≡ some q)
      × ((Pool.take q 2).1 ≡ some (s ∷ s ∷ []))
unfolding release release_in partition_point Pool.take take_in available consume addresses
    wrapped_span
release_free_doubles s e h k small =
    (record { start = s; end = e; intervals = (s, s) ∷ (s, e) ∷ [] }, ground arith, ground arith)
