-- ===== src/Pool/Cover.antt =====
-- src/router/pool.rs: the set of free addresses that a vector of intervals stands for, and the
-- form in which the pool keeps it.
use userspace_router.Base.{
  ℕ, ◌+◌, ◌^◌, ◌≤◌, ◌<◌, ◌≡◌, refl, Bool, true, false, ◌&&◌, ◌||◌, List, [], ◌∷◌, leb, arith,
}
use userspace_router.Pool.{Interval, AddressPool}

-- Whether an address is free.
abbrev pub covers : ℕ → List Interval → Bool
covers x [] = false
covers x ((s, e) ∷ ivs) = (leb s x && leb x e) || covers x ivs

-- Nonempty intervals from `lo` to `hi`, in rising order, with a gap between neighbours.
abbrev pub Ascends : ℕ → ℕ → List Interval → Type 0
Ascends lo hi [] = Unit {0}
Ascends lo hi ((s, e) ∷ ivs) = (lo ≤ s) × (s ≤ e) × (e ≤ hi) × Ascends (e + 2) hi ivs

pub Ascends-mono :
    (lo lo' hi : ℕ) (ivs : List Interval) → lo' ≤ lo → Ascends lo hi ivs → Ascends lo' hi ivs
Ascends-mono lo lo' hi [] h a = tt
Ascends-mono lo lo' hi ((s, e) ∷ ivs) h (p, q, r, t) = (omega arith, q, r, t)

-- Nothing below the first bound is free.
pub covers_below :
    (x lo hi : ℕ) (ivs : List Interval) → Ascends lo hi ivs → x < lo → covers x ivs ≡ false
covers_below x lo hi [] a h = refl
covers_below x lo hi ((s, e) ∷ ivs) (p, q, r, t) h = ground (arith, covers_below x (e + 2) hi ivs t)

pub covers-le :
    (x lo hi : ℕ) (ivs : List Interval)
    → Ascends lo hi ivs
    → covers x ivs ≡ true
    → (lo ≤ x) × (x ≤ hi)
covers-le x lo hi [] a h = cc
covers-le x lo hi ((s, e) ∷ ivs) (p, q, r, t) h = ground (arith, covers-le x (e + 2) hi ivs t)

-- The pool keeps its intervals within its bounds, which are addresses.
pub record IsValid (p : AddressPool) : Type 0 where
  pub ordered : Ascends p.start p.end p.intervals
  pub small : p.end < 2 ^ 32
