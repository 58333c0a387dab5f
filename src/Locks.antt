-- ===== src/Locks.antt =====
-- src/core/spinlock.rs: the two spin locks, with any number of threads. A thread is its stage in an
-- operation; the accesses of the threads interleave, one atomic access or one access of the guarded
-- data at a time. Acquire and release order the data accesses as the locks do, so the accesses are
-- taken to be sequentially consistent. A turn of a waiting loop changes nothing.
mod Counts
pub mod Spin
pub mod ReadWrite
mod Tests
use userspace_router.Base.{
  ℕ, zero, ◌+◌, ◌-◌, ◌%◌, ◌≡◌, ◌≢◌, Bool, true, false, Option, none, some, List, [], ◌++◌, ◌∷◌,
  get_elem?, set, replicate,
}

-- Where a thread stands in `SpinLock::with f`: before the exchange that takes the lock; in `f`,
-- before or after its read of the data; in front of the store that frees the lock.
pub data Stage {ℓ} (A : Type ℓ) : Type ℓ where
  outside done : Stage A
  entered : (A → A) → Stage A
  has_read : (A → A) → A → Stage A

-- The lock, with the functions that have been applied so far.
pub record SpinLock {ℓ} (A : Type ℓ) : Type ℓ where
  pub locked : Bool
  pub value : A
  pub stages : List (Stage A)
  pub applied : List (A → A)

abbrev pub new_spin {ℓ} : {A : Type ℓ} → A → ℕ → SpinLock A
new_spin first threads = record {
  locked = false;
  value = first;
  stages = replicate threads outside;
  applied = [];
}

pub data SpinStep {ℓ} {A : Type ℓ} (s : SpinLock A) : SpinLock A → Type ℓ where
  spins : s.locked ≡ true → SpinStep s s
  enters :
      (i : ℕ) (f : A → A)
      → get_elem? s.stages i ≡ some outside
      → s.locked ≡ false
      → SpinStep s (record s { locked = true; stages = set s.stages i (entered f) })
  reads :
      (i : ℕ) (f : A → A)
      → get_elem? s.stages i ≡ some (entered f)
      → SpinStep s (record s { stages = set s.stages i (has_read f s.value) })
  writes :
      (i : ℕ) (f : A → A) (d : A)
      → get_elem? s.stages i ≡ some (has_read f d)
      → SpinStep s
          (record s { value = f d; stages = set s.stages i done; applied = s.applied ++ (f ∷ []) })
  leaves :
      (i : ℕ)
      → get_elem? s.stages i ≡ some done
      → SpinStep s (record s { locked = false; stages = set s.stages i outside })

pub data SpinRun {ℓ} {A : Type ℓ} (s : SpinLock A) : SpinLock A → Type ℓ where
  here : SpinRun s s
  after : (t u : SpinLock A) → SpinRun s t → SpinStep t u → SpinRun s u

-- A thread of a `RwSpinLock`: outside, behind the load of an even state, or with a lock.
pub data RwStage : Type 0 where
  free reading writing : RwStage
  loaded : ℕ → RwStage

pub record RwSpinLock : Type 0 where
  pub state : ℕ
  pub stages : List RwStage

abbrev pub new_rw : ℕ → RwSpinLock
new_rw threads = record { state = 0; stages = replicate threads free }

-- An exchange may fail although the state has not changed (`compare_exchange_weak`).
pub data RwStep (s : RwSpinLock) : RwSpinLock → Type 0 where
  waits : RwStep s s
  loads :
      (i : ℕ)
      → get_elem? s.stages i ≡ some free
      → s.state % 2 ≡ 0
      → RwStep s (record s { stages = set s.stages i (loaded s.state) })
  retries :
      (i seen : ℕ)
      → get_elem? s.stages i ≡ some (loaded seen)
      → RwStep s (record s { stages = set s.stages i free })
  takes_read :
      (i seen : ℕ)
      → get_elem? s.stages i ≡ some (loaded seen)
      → s.state ≡ seen
      → RwStep s (record { state = seen + 2; stages = set s.stages i reading })
  drops_read :
      (i : ℕ)
      → get_elem? s.stages i ≡ some reading
      → RwStep s (record { state = s.state - 2; stages = set s.stages i free })
  takes_write :
      (i : ℕ)
      → get_elem? s.stages i ≡ some free
      → s.state ≡ 0
      → RwStep s (record { state = 1; stages = set s.stages i writing })
  drops_write :
      (i : ℕ)
      → get_elem? s.stages i ≡ some writing
      → RwStep s (record { state = 0; stages = set s.stages i free })

pub data RwRun (s : RwSpinLock) : RwSpinLock → Type 0 where
  here : RwRun s s
  after : (t u : RwSpinLock) → RwRun s t → RwStep t u → RwRun s u
