-- ===== src/Pool/Tests.antt =====
-- src/router/pool.rs: the pool on the addresses of its own tests.
use userspace_router.Base.{
  ℕ, ◌≤◌, ◌<◌, ◌≡◌, ◌⊎◌, refl, Bool, true, false, Option, none, some, List, [], ◌∷◌, arith, length,
  ◌^◌, not, ◌&&◌, ◌||◌, ◌==◌, if◌then◌else◌,
}
use userspace_router.Base
use userspace_router.Pool
use userspace_router.Pool.{AddressPool, reserve, release}
use userspace_router.Pool.Cover.{covers, IsValid}
use userspace_router.Pool.Release.{release_lem, release_free_doubles}
use userspace_router.Pool.Take.{take_lem, free_list}

-- 10.0.0.1 to 10.0.0.10 with 10.0.0.5 reserved
abbrev lan : AddressPool
lan = record {
  start = 0x0a000001;
  end = 0x0a00000a;
  intervals = (0x0a000001, 0x0a000004) ∷ (0x0a000006, 0x0a00000a) ∷ [];
}

lan-IsValid : IsValid lan
lan-IsValid = omega arith

reserve_splits :
    (reserve (record { start = 1; end = 10; intervals = (1, 10) ∷ [] }) 5).0.intervals
    ≡ (1, 4) ∷ (6, 10) ∷ []
unfolding reserve Pool.partition_point
reserve_splits = refl

take_all_nine : (Pool.take lan 10).1 ≡ none
unfolding Pool.take Pool.wrapped_span
take_all_nine = refl

-- An address in the middle of a free interval is not noticed either.
release_inside_doubles :
    (Pool.take (record lan { intervals = Pool.release_in 0x0a000002 lan.intervals }) 5).1
    ≡ some (0x0a000001 ∷ 0x0a000002 ∷ 0x0a000003 ∷ 0x0a000004 ∷ 0x0a000002 ∷ [])
unfolding Pool.take Pool.release_in Pool.partition_point Pool.addresses Pool.wrapped_span
release_inside_doubles = refl

-- The pool of all addresses.
abbrev everything : AddressPool
everything = record { start = 0; end = 0xffffffff; intervals = (0, 0xffffffff) ∷ [] }

take_from_everything : Pool.take everything 1 ≡ (everything, none)
unfolding Pool.take Pool.wrapped_span
take_from_everything = refl

-- With one address reserved, the next `take` succeeds.
take_from_nearly_all :
    (Pool.take (record everything { intervals = (1, 0xffffffff) ∷ [] }) 2).1 ≡ some (1 ∷ 2 ∷ [])
unfolding Pool.take Pool.wrapped_span Pool.addresses
take_from_nearly_all = refl

release_lem_example :
    (0x0a000001 ≤ 0x0a000005
      → 0x0a000005 ≤ 0x0a00000a
      → (q : AddressPool) × (release lan 0x0a000005 ≡ some q)
        × (covers 0x0a000005 q.intervals ≡ true)
        × IsValid q)
    × ((0x0a000005 < 0x0a000001) ⊎ (0x0a00000a < 0x0a000005) → release lan 0x0a000005 ≡ none)
release_lem_example = release_lem lan 0x0a000005 0x0a000005 lan-IsValid refl

take_lem_example :
    (5 ≤ length (free_list lan.intervals)
      → length (free_list lan.intervals) < 2 ^ 32
      → ((Pool.take lan 5).1 ≡ some (Base.take 5 (free_list lan.intervals)))
        × (free_list (Pool.take lan 5).0.intervals ≡ Base.drop 5 (free_list lan.intervals))
        × IsValid (Pool.take lan 5).0)
    × (length (free_list lan.intervals) < 5 → Pool.take lan 5 ≡ (lan, none))
    × (length (free_list lan.intervals) ≡ 2 ^ 32 → 0 < 5 → Pool.take lan 5 ≡ (lan, none))
take_lem_example = take_lem lan 5 lan-IsValid

release_free_doubles_example :
    (q : AddressPool) × (release (record { start = 4; end = 9; intervals = (4, 9) ∷ [] }) 4
      ≡ some q)
    × ((Pool.take q 2).1 ≡ some (4 ∷ 4 ∷ []))
release_free_doubles_example = release_free_doubles 4 9 (omega arith) (omega arith) (omega arith)
