-- ===== src/Pool/Reserve.antt =====
-- src/router/pool.rs: `reserve` takes one address out.
use userspace_router.Base.{
  ℕ, zero, suc, ◌+◌, ◌-◌, ◌≤◌, ◌≡◌, refl, ◌&&◌, ◌||◌, not, List, [], ◌∷◌, ◌++◌, ltb, leb, ◌==◌,
  arith, Option, none, some, if◌then◌else◌, Bool-cases, inl, inr, sym,
}
use userspace_router.Pool.{Interval, AddressPool, partition_point, reserve_in, reserve, reserve_at}
use userspace_router.Pool.Cover.{covers, Ascends, Ascends-mono, covers_below, IsValid}

-- What is left of an interval without one of its addresses.
cut : ℕ → Interval → List Interval
cut a (s, e) =
    if (s == a) && (e == a)
    then []
    else (if s == a
        then (a + 1, e) ∷ []
        else (if e == a then (s, a - 1) ∷ [] else (s, a - 1) ∷ (a + 1, e) ∷ []))

-- `reserve` by a walk along the intervals, without positions.
walk : ℕ → List Interval → List Interval × Option ℕ
walk a [] = ([], none)
walk a ((s, e) ∷ ivs) =
    if ltb a s
    then ((s, e) ∷ ivs, none)
    else (if leb a e
        then (cut a (s, e) ++ ivs, some a)
        else ((s, e) ∷ (walk a ivs).0, (walk a ivs).1))

-- No interval starts at or below the address.
partition_zero :
    (a lo hi : ℕ) (ivs : List Interval)
    → Ascends lo hi ivs
    → partition_point (λ iv. leb iv.0 a) ivs ≡ 0
    → walk a ivs ≡ (ivs, none)
unfolding partition_point walk
partition_zero a lo hi [] asc h = refl
partition_zero a lo hi ((s, e) ∷ ivs) asc h = ground arith

partition_pos :
    (a lo hi n : ℕ) (ivs : List Interval)
    → Ascends lo hi ivs
    → partition_point (λ iv. leb iv.0 a) ivs ≡ suc n
    → lo ≤ a
unfolding partition_point
partition_pos a lo hi n [] asc h = absurd (omega arith)
partition_pos a lo hi n ((s, e) ∷ ivs) (p, q, r, t) h = ground arith

reserve_at-suc :
    (a n : ℕ) (iv : Interval) (ivs : List Interval)
    → reserve_at (suc (suc n)) a (iv ∷ ivs)
      ≡ (iv ∷ (reserve_at (suc n) a ivs).0, (reserve_at (suc n) a ivs).1)
unfolding reserve_at
reserve_at-suc a n iv ivs = ground arith

walk_first :
    (a s e : ℕ) (ivs : List Interval)
    → s ≤ a
    → walk a ivs ≡ (ivs, none)
    → reserve_at 1 a ((s, e) ∷ ivs) ≡ walk a ((s, e) ∷ ivs)
unfolding reserve_at walk cut
walk_first a s e ivs h w = ground arith

-- At the last interval that starts at or below the address the positions agree with the walk.
walk_lem :
    (a lo hi n : ℕ) (ivs : List Interval)
    → Ascends lo hi ivs
    → partition_point (λ iv. leb iv.0 a) ivs ≡ suc n
    → reserve_at (suc n) a ivs ≡ walk a ivs
unfolding partition_point walk
walk_lem a lo hi n [] asc h = absurd (omega arith)
walk_lem a lo hi zero ((s, e) ∷ ivs) (p, q, r, t) h =
    ground (arith, walk_first a s e ivs, partition_zero a (e + 2) hi ivs t)
walk_lem a lo hi (suc n) ((s, e) ∷ ivs) (p, q, r, t) h = ground (
  arith,
  reserve_at-suc a n (s, e) ivs,
  walk_lem a (e + 2) hi n ivs t,
  partition_pos a (e + 2) hi n ivs t,
)

-- The search by position is the walk.
reserve_in-walk :
    (a lo hi : ℕ) (ivs : List Interval) → Ascends lo hi ivs → reserve_in a ivs ≡ walk a ivs
unfolding reserve_in
reserve_in-walk a lo hi ivs asc = go (partition_point (λ iv. leb iv.0 a) ivs) refl
  where
    go : (n : ℕ) → partition_point (λ iv. leb iv.0 a) ivs ≡ n → reserve_in a ivs ≡ walk a ivs
    go zero h = rw (h, reserve_in) (sym (partition_zero a lo hi ivs asc h))
    go (suc n) h = rw (h, reserve_in) (walk_lem a lo hi n ivs asc h)

cut-covers :
    (a x s e : ℕ) (ivs : List Interval)
    → s ≤ a
    → a ≤ e
    → covers x (cut a (s, e) ++ ivs) ≡ ((leb s x && leb x e && not (x == a)) || covers x ivs)
unfolding cut
cut-covers a x s e ivs p q = ground arith

cut-Ascends :
    (a lo hi s e : ℕ) (ivs : List Interval)
    → s ≤ a
    → a ≤ e
    → Ascends lo hi ((s, e) ∷ ivs)
    → Ascends lo hi (cut a (s, e) ++ ivs)
unfolding cut
cut-Ascends a lo hi s e ivs p q (h1, h2, h3, t) = elim (Bool-cases (s == a)) [
  | inl first ↦ elim (Bool-cases (e == a)) [
    | inl last ↦ rw (first, last) (Ascends-mono (e + 2) lo hi ivs (omega arith) t)
    | inr inner ↦ rw (first, inner) (ground arith, ground arith, h3, t)
  ]
  | inr later ↦ elim (Bool-cases (e == a)) [
    | inl last ↦
        rw (later, last)
          (h1, ground arith, omega arith, Ascends-mono (e + 2) (a - 1 + 2) hi ivs (omega arith) t)
    | inr inner ↦
        rw (later, inner) (h1, ground arith, omega arith, (ground arith, ground arith, h3, t))
  ]
]

walk-covers :
    (a x lo hi : ℕ) (ivs : List Interval)
    → Ascends lo hi ivs
    → (covers x (walk a ivs).0 ≡ (covers x ivs && not (x == a)))
      × ((walk a ivs).1 ≡ (if covers a ivs then some a else none))
      × Ascends lo hi (walk a ivs).0
unfolding walk
walk-covers a x lo hi [] asc = (refl, refl, tt)
walk-covers a x lo hi ((s, e) ∷ ivs) (p, q, r, t) = elim (Bool-cases (ltb a s)) [
  | inl before ↦ rw before (
    ground (arith, covers_below x (e + 2) hi ivs t),
    ground (arith, covers_below a (e + 2) hi ivs t),
    (p, q, r, t),
  )
  | inr from ↦ elim (Bool-cases (leb a e)) [
    | inl inside ↦
        rw (from, inside)
          (
            ground (arith, cut-covers a x s e ivs, covers_below x (e + 2) hi ivs t),
            ground arith,
            cut-Ascends a lo hi s e ivs (ground arith) (ground arith) (p, q, r, t),
          )
    | inr beyond ↦
        rw (from, beyond)
          (
            ground (arith, walk-covers a x (e + 2) hi ivs t),
            ground (arith, walk-covers a x (e + 2) hi ivs t),
            (p, q, r, (walk-covers a x (e + 2) hi ivs t).2),
          )
  ]
]

-- In a valid pool `reserve` returns the address exactly when it is free, and then takes it, and
-- nothing else, out of the free ones; the intervals stay in order and within the bounds.
pub reserve_lem :
    (p : AddressPool) (a x : ℕ)
    → IsValid p
    → ((reserve p a).1 ≡ (if covers a p.intervals then some a else none))
      × (covers x (reserve p a).0.intervals ≡ (covers x p.intervals && not (x == a)))
      × IsValid (reserve p a).0
unfolding reserve
reserve_lem p a x v =
    let w = walk-covers a x p.start p.end p.intervals v.ordered in
    rw (reserve_in-walk a p.start p.end p.intervals v.ordered)
      (w.1, w.0, record { ordered = w.2; small = v.small })
