-- ===== src/Locks/ReadWrite.antt =====
-- src/core/spinlock.rs: `RwSpinLock` excludes a writer from readers and from other writers.
use userspace_router.Base.{
  ℕ, ◌+◌, ◌*◌, ◌%◌, ◌≤◌, ◌≡◌, inl, inr, refl, ◌∙◌, Bool, true, false, some, List, get_elem?, set,
  length, length-set, length-replicate, arith,
}
use userspace_router.Locks.{RwStage, RwSpinLock, RwStep, RwRun, new_rw}
use userspace_router.Locks.{
  free, reading, writing, loaded, waits, loads, retries, takes_read, drops_read, takes_write,
  drops_write, here, after,
}
use userspace_router.Locks.Counts.{
  count, count-set, count-le, count-replicate, get_elem?-replicate, get_elem?-set_cases,
}

abbrev pub is_reading : RwStage → Bool
is_reading free = false
is_reading reading = true
is_reading writing = false
is_reading (loaded seen) = false

abbrev pub is_writing : RwStage → Bool
is_writing free = false
is_writing reading = false
is_writing writing = true
is_writing (loaded seen) = false

abbrev pub readers : RwSpinLock → ℕ
readers s = count is_reading s.stages

abbrev pub writers : RwSpinLock → ℕ
writers s = count is_writing s.stages

-- The state counts the readers by twos, and the writer by one; a writer is alone. The state does
-- not exceed twice the number of threads, so that it does not wrap around.
pub record IsExclusive (threads : ℕ) (s : RwSpinLock) : Type 0 where
  pub size : length s.stages ≡ threads
  pub counted : s.state ≡ 2 * readers s + writers s
  pub one_writer : writers s ≤ 1
  pub alone : writers s ≡ 1 → readers s ≡ 0
  pub seen_even : (i seen : ℕ) → get_elem? s.stages i ≡ some (loaded seen) → seen % 2 ≡ 0
  pub bounded : s.state ≤ 2 * threads

-- A thread that changes its stage does not change what others have seen.
seen_kept :
    (stages : List RwStage) (i : ℕ) (v : RwStage)
    → ((j seen : ℕ) → get_elem? stages j ≡ some (loaded seen) → seen % 2 ≡ 0)
    → ((seen : ℕ) → v ≡ loaded seen → seen % 2 ≡ 0)
    → (j seen : ℕ) → get_elem? (set stages i v) j ≡ some (loaded seen)
    → seen % 2 ≡ 0
seen_kept stages i v old new j seen h = elim (get_elem?-set_cases stages i j v (loaded seen) h) [
  | inl (e, same) ↦ new seen same
  | inr (ne, kept) ↦ old j seen kept
]

module _ (threads : ℕ) where
  RwStep-IsExclusive :
      (s t : RwSpinLock) → RwStep s t → IsExclusive threads s → IsExclusive threads t
  RwStep-IsExclusive s _ waits c = c
  RwStep-IsExclusive s _ (loads i g even) c =
      let r = count-set is_reading s.stages i free (loaded s.state) g in
      let w = count-set is_writing s.stages i free (loaded s.state) g in
      record {
        size = length-set s.stages i (loaded s.state) ∙ c.size;
        counted = omega (arith, r, w, c);
        one_writer = omega (arith, w, c);
        alone = λ h. omega (arith, r, c.alone (omega (arith, w)));
        seen_even =
            seen_kept s.stages i (loaded s.state) c.seen_even
              (λ seen e. let same : s.state ≡ seen = cc in omega arith);
        bounded = c.bounded;
      }
  RwStep-IsExclusive s _ (retries i seen g) c =
      let r = count-set is_reading s.stages i (loaded seen) free g in
      let w = count-set is_writing s.stages i (loaded seen) free g in
      record {
        size = length-set s.stages i free ∙ c.size;
        counted = omega (arith, r, w, c);
        one_writer = omega (arith, w, c);
        alone = λ h. omega (arith, r, c.alone (omega (arith, w)));
        seen_even = seen_kept s.stages i free c.seen_even (λ seen' e. cc);
        bounded = c.bounded;
      }
  RwStep-IsExclusive s _ (takes_read i seen g e) c =
      let r = count-set is_reading s.stages i (loaded seen) reading g in
      let w = count-set is_writing s.stages i (loaded seen) reading g in
      let even = c.seen_even i seen g in
      let few = count-le is_reading (set s.stages i reading) in
      let len = length-set s.stages i reading ∙ c.size in
      record {
        size = len;
        counted = omega (arith, r, w, c);
        one_writer = omega (arith, w, c);
        alone = λ h. omega (arith, r, w, even, c);
        seen_even = seen_kept s.stages i reading c.seen_even (λ seen' k. cc);
        bounded = omega (arith, r, w, c, even, few, len);
      }
  RwStep-IsExclusive s _ (drops_read i g) c =
      let r = count-set is_reading s.stages i reading free g in
      let w = count-set is_writing s.stages i reading free g in
      record {
        size = length-set s.stages i free ∙ c.size;
        counted = omega (arith, r, w, c);
        one_writer = omega (arith, w, c);
        alone = λ h. omega (arith, r, c.alone (omega (arith, w)));
        seen_even = seen_kept s.stages i free c.seen_even (λ seen k. cc);
        bounded = omega (arith, c);
      }
  RwStep-IsExclusive s _ (takes_write i g e) c =
      let r = count-set is_reading s.stages i free writing g in
      let w = count-set is_writing s.stages i free writing g in
      let few = count-le is_writing (set s.stages i writing) in
      let len = length-set s.stages i writing ∙ c.size in
      record {
        size = len;
        counted = omega (arith, r, w, c);
        one_writer = omega (arith, w, c);
        alone = λ h. omega (arith, r, c);
        seen_even = seen_kept s.stages i writing c.seen_even (λ seen k. cc);
        bounded = omega (arith, w, c, few, len);
      }
  RwStep-IsExclusive s _ (drops_write i g) c =
      let r = count-set is_reading s.stages i writing free g in
      let w = count-set is_writing s.stages i writing free g in
      record {
        size = length-set s.stages i free ∙ c.size;
        counted = omega (arith, r, w, c, c.alone (omega (arith, w, c)));
        one_writer = omega (arith, w, c);
        alone = λ h. omega (arith, r, w, c);
        seen_even = seen_kept s.stages i free c.seen_even (λ seen k. cc);
        bounded = omega arith;
      }

  -- With any number of threads and under every interleaving, the state of a reader-writer lock is
  -- twice the number of readers plus the number of writers; there is at most one writer, and no
  -- reader beside it; the state is at most twice the number of threads.
  pub RwRun-IsExclusive : (s : RwSpinLock) → RwRun (new_rw threads) s → IsExclusive threads s
  RwRun-IsExclusive _ here =
      let r = count-replicate is_reading threads free refl in
      let w = count-replicate is_writing threads free refl in
      record {
        size = length-replicate threads free;
        counted = omega (arith, r, w);
        one_writer = omega (arith, w);
        alone = λ h. r;
        seen_even = λ i seen h.
            let e : free ≡ loaded seen = get_elem?-replicate threads free (loaded seen) i h in cc;
        bounded = omega arith;
      }
  RwRun-IsExclusive s (after t _ run step) = RwStep-IsExclusive t s step (RwRun-IsExclusive t run)
