-- ===== src/ObjectPool/Tests.antt =====
-- src/mem/pool.rs: a pool of two slots, one of them in use.
use userspace_router.Base.{ℕ, ◌≡◌, refl, true, false, none, some, [], ◌∷◌, arith}
use userspace_router.ObjectPool
use userspace_router.ObjectPool.{ObjectPool, alloc, release, value, indices}
use userspace_router.ObjectPool.Laws.{IsPool, new-IsPool, taken, taken-IsPool, used, mem}
use userspace_router.ObjectPool.Handles.{Allocs, alloc-Allocs, release_frees, SameBut}

abbrev two_slots : ObjectPool ℕ
two_slots = ObjectPool.new 2

two_slots-IsPool : IsPool two_slots
two_slots-IsPool = new-IsPool 2

alloc-Allocs_example : Allocs two_slots 7 (alloc true two_slots 7)
alloc-Allocs_example = alloc-Allocs two_slots true 7 two_slots-IsPool

abbrev one_used : ObjectPool ℕ
one_used = taken two_slots 0 (1 ∷ []) 7

one_used-IsPool : IsPool one_used
unfolding indices
one_used-IsPool = taken-IsPool two_slots 0 (1 ∷ []) 7 two_slots-IsPool refl

release_frees_example :
    (used one_used 0 ≡ true
      → (q : ObjectPool ℕ) × (v : ℕ) × (release false one_used 0 ≡ (some v, some q))
        × (value one_used 0 ≡ some v)
        × IsPool q
        × (used q 0 ≡ false)
        × SameBut one_used q 0
        × (q.free.list ≡ 0 ∷ one_used.free.list))
    × (used one_used 0 ≡ false
        → (release true one_used 0 ≡ (none, none))
          × (mem 0 one_used.free.list ≡ true)
          × ((q : ObjectPool ℕ) × (release false one_used 0 ≡ (none, some q))
              × (q.free.list ≡ 0 ∷ one_used.free.list)))
release_frees_example = release_frees one_used false 0 one_used-IsPool (omega arith)
