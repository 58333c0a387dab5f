-- ===== src/Locks/Tests.antt =====
-- src/core/spinlock.rs: two threads at one counter, and two readers.
use userspace_router.Base.{ℕ, ◌+◌, refl, [], ◌∷◌, true}
use userspace_router.Locks
use userspace_router.Locks.{SpinLock, SpinRun, RwSpinLock, RwRun, new_spin, new_rw}
use userspace_router.Locks.{
  outside, done, entered, has_read, enters, reads, writes, leaves, loads, takes_read, free, reading,
  loaded,
}
use userspace_router.Locks.Spin.{IsSerial, SpinRun-IsSerial}
use userspace_router.Locks.ReadWrite.{IsExclusive, RwRun-IsExclusive}

abbrev increment : ℕ → ℕ
increment n = n + 1

-- The first thread has added one, and the second has read the result.
abbrev handed_over : SpinLock ℕ
handed_over = record {
  locked = true;
  value = 1;
  stages = outside ∷ has_read increment 1 ∷ [];
  applied = increment ∷ [];
}

to_handed_over : SpinRun (new_spin 0 2) handed_over
to_handed_over =
    Locks.after _ handed_over
      (Locks.after _ _
        (Locks.after _ _
          (Locks.after _ _
            (Locks.after _ _ (Locks.after _ _ Locks.here (enters 0 increment refl refl))
              (reads 0 increment refl))
            (writes 0 increment 0 refl))
          (leaves 0 refl))
        (enters 1 increment refl refl))
      (reads 1 increment refl)

SpinRun-IsSerial_example : IsSerial 0 handed_over
SpinRun-IsSerial_example = SpinRun-IsSerial 0 2 handed_over to_handed_over

abbrev two_readers : RwSpinLock
two_readers = record { state = 4; stages = reading ∷ reading ∷ free ∷ [] }

to_two_readers : RwRun (new_rw 3) two_readers
to_two_readers =
    Locks.after _ two_readers
      (Locks.after _ _
        (Locks.after _ _ (Locks.after _ _ Locks.here (loads 0 refl refl))
          (takes_read 0 0 refl refl))
        (loads 1 refl refl))
      (takes_read 1 2 refl refl)

RwRun-IsExclusive_example : IsExclusive 3 two_readers
RwRun-IsExclusive_example = RwRun-IsExclusive 3 two_readers to_two_readers
