-- ===== src/Locks/Spin.antt =====
-- src/core/spinlock.rs: `SpinLock` excludes, and loses no update.
use userspace_router.Base.{
  ℕ, ◌≤◌, ◌≡◌, ◌≢◌, inl, inr, refl, sym, ap, ◌∙◌, Bool, true, false, some, List, [], ◌∷◌, ◌++◌,
  get_elem?, arith,
}
use userspace_router.Locks.{Stage, SpinLock, SpinStep, SpinRun, new_spin}
use userspace_router.Locks.{
  outside, done, entered, has_read, spins, enters, reads, writes, leaves, here, after,
}
use userspace_router.Locks.Counts.{
  one_if, count, count-set, count_two, count_here, count-replicate, get_elem?-replicate,
  get_elem?-set_cases,
}

-- Whether a thread is between its exchange and its store.
abbrev pub holds {ℓ} : {A : Type ℓ} → Stage A → Bool
holds outside = false
holds done = true
holds (entered f) = true
holds (has_read f d) = true

-- The functions, applied one after the other.
abbrev pub apply_all {ℓ} : {A : Type ℓ} → List (A → A) → A → A
apply_all [] a = a
apply_all (f ∷ fs) a = apply_all fs (f a)

-- At most one thread is in the critical section, and only under the lock; what it has read is still
-- the value; the value is the result of every function applied so far, in that order.
pub record IsSerial {ℓ} {A : Type ℓ} (first : A) (s : SpinLock A) : Type ℓ where
  pub holders : count holds s.stages ≡ one_if s.locked
  pub fresh : (i : ℕ) (f : A → A) (d : A) → get_elem? s.stages i ≡ some (has_read f d) → d ≡ s.value
  pub serial : s.value ≡ apply_all s.applied first

module _ {ℓ} {A : Type ℓ} (first : A) where
  apply_all-append :
      (fs : List (A → A)) (f : A → A) (a : A) → apply_all (fs ++ (f ∷ [])) a ≡ f (apply_all fs a)
  apply_all-append [] f a = refl
  apply_all-append (g ∷ fs) f a = apply_all-append fs f (g a)

  -- Beside a thread in the critical section, no other is.
  alone :
      (s : SpinLock A) (i j : ℕ) (x y : Stage A)
      → IsSerial first s
      → i ≢ j
      → get_elem? s.stages i ≡ some x
      → get_elem? s.stages j ≡ some y
      → holds x ≡ true
      → holds y ≡ true
      → ⊥
  alone s i j x y c ne gi gj hx hy =
      let two = count_two holds s.stages i j x y ne gi gj in
      too_many s.locked (omega (arith, two, c.holders, ap one_if hx, ap one_if hy))
    where
      too_many : (b : Bool) → ¬ (2 ≤ one_if b)
      too_many true h = omega arith
      too_many false h = omega arith

  SpinStep-IsSerial : (s t : SpinLock A) → SpinStep s t → IsSerial first s → IsSerial first t
  SpinStep-IsSerial s _ (spins e) c = c
  SpinStep-IsSerial s _ (enters i f g free) c = record {
    holders =
        omega (arith, count-set holds s.stages i outside (entered f) g, c.holders, ap one_if free);
    fresh = λ j h d k. elim (get_elem?-set_cases s.stages i j (entered f) (has_read h d) k) [
      | inl (e, bad) ↦ cc
      | inr (ne, old) ↦ c.fresh j h d old
    ];
    serial = c.serial;
  }
  SpinStep-IsSerial s _ (reads i f g) c = record {
    holders =
        omega (arith, count-set holds s.stages i (entered f) (has_read f s.value) g, c.holders);
    fresh = λ j h d k.
        elim (get_elem?-set_cases s.stages i j (has_read f s.value) (has_read h d) k) [
          | inl (e, same) ↦ cc
          | inr (ne, old) ↦ c.fresh j h d old
        ];
    serial = c.serial;
  }
  SpinStep-IsSerial s _ (writes i f d g) c = record {
    holders = omega (arith, count-set holds s.stages i (has_read f d) done g, c.holders);
    fresh = λ j h e k. elim (get_elem?-set_cases s.stages i j done (has_read h e) k) [
      | inl (at, bad) ↦ cc
      | inr (ne, old) ↦ absurd (alone s i j (has_read f d) (has_read h e) c ne g old refl refl)
    ];
    serial = ap f (c.fresh i f d g ∙ c.serial) ∙ sym (apply_all-append s.applied f first);
  }
  SpinStep-IsSerial s _ (leaves i g) c =
      let locked = held s.locked (omega (arith, count_here holds s.stages i done g, c.holders)) in
      record {
        holders =
            omega (arith, count-set holds s.stages i done outside g, c.holders, ap one_if locked);
        fresh = λ j h d k. elim (get_elem?-set_cases s.stages i j outside (has_read h d) k) [
          | inl (e, bad) ↦ cc
          | inr (ne, old) ↦ c.fresh j h d old
        ];
        serial = c.serial;
      }
    where
      held : (b : Bool) → 1 ≤ one_if b → b ≡ true
      held true h = refl
      held false h = absurd (omega arith)

  -- With any number of threads and under every interleaving, at most one thread is in the critical
  -- section of a spin lock, and then the lock is taken; what it has read is still the value; and
  -- the value is the result of the functions of all calls that have written, each applied once, in
  -- the order of the writes.
  pub SpinRun-IsSerial :
      (threads : ℕ) (s : SpinLock A) → SpinRun (new_spin first threads) s → IsSerial first s
  SpinRun-IsSerial threads _ here = record {
    holders = count-replicate holds threads outside refl;
    fresh = λ i f d h.
        let e : outside ≡ has_read f d = get_elem?-replicate threads outside (has_read f d) i h in
        cc;
    serial = refl;
  }
  SpinRun-IsSerial threads s (after t _ run step) =
      SpinStep-IsSerial t s step (SpinRun-IsSerial threads t run)
