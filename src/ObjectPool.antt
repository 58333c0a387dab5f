-- ===== src/ObjectPool.antt =====
-- src/mem/pool.rs: the object pool. A handle is the index of its slot; memory without a value is
-- `none`. The free list is a stack, with the last element of the `Vec` in front.
pub mod Laws
pub mod Handles
mod Tests
use mathlib.Core.Option
use userspace_router.Base.{
  ℕ, zero, suc, ◌+◌, Bool, true, false, not, Option, none, some, List, [], ◌∷◌, if◌then◌else◌,
  length, get_or, set, replicate, ◌>>=◌,
}
use userspace_router.Bitmask
use userspace_router.Bitmask.{Bitmask, has_bit, is_set, set_bit, clear_bit}

pub record FreeState : Type 0 where
  pub used : Bitmask
  pub list : List ℕ

pub record ObjectPool {ℓ} (A : Type ℓ) : Type ℓ where
  pub slots : List (Option A)
  pub free : FreeState

-- `(0..capacity).rev()`, as a stack
unfoldable pub indices : ℕ → ℕ → List ℕ
indices from zero = []
indices from (suc n) = from ∷ indices (from + 1) n

abbrev pub new {ℓ} : {A : Type ℓ} → ℕ → ObjectPool A
new capacity = record {
  slots = replicate capacity none;
  free = record { used = Bitmask.new capacity; list = indices 0 capacity };
}

abbrev pub capacity {ℓ} : {A : Type ℓ} → ObjectPool A → ℕ
capacity p = length p.slots

abbrev pub available {ℓ} : {A : Type ℓ} → ObjectPool A → ℕ
available p = length p.free.list

-- `debug_assert!`, by whether the build has debug assertions: without them the condition is not even
-- evaluated, and the release profile has none. `none` is a panic.
abbrev pub debug_assert : Bool → Option Bool → Option (Unit {0})
debug_assert false condition = some tt
debug_assert true none = none
debug_assert true (some false) = none
debug_assert true (some true) = some tt

-- A result of `none` is a panic, of an assertion; `none` inside is the answer of an exhausted pool.
pub alloc {ℓ} : {A : Type ℓ} → Bool → ObjectPool A → A → Option (ObjectPool A × Option ℕ)
alloc debug p value = elim p.free.list [
  | [] ↦ some (p, none)
  | index ∷ rest ↦ do
    _ ← debug_assert debug (Option.map not (is_set p.free.used index))
    used ← set_bit p.free.used index
    some (
      record { slots = set p.slots index (some value); free = record { used = used; list = rest } },
      some index,
    )
]

-- The value of a live slot; reading a slot without one is undefined.
abbrev pub value {ℓ} : {A : Type ℓ} → ObjectPool A → ℕ → Option A
value p index = get_or p.slots index none

-- `release`, behind the end of the value: the slot has none afterwards, whether it was dropped or
-- has been moved out.
give_back {ℓ} : {A : Type ℓ} → Bool → ObjectPool A → ℕ → Option (ObjectPool A)
give_back debug p index = do
  _ ← debug_assert debug (is_set p.free.used index)
  used ← clear_bit p.free.used index
  some (record {
    slots = set p.slots index none;
    free = record { used = used; list = index ∷ p.free.list };
  })

-- First the value that stands in the slot ends: `Obj::drop` has it dropped, `Obj::into_inner` has
-- moved it out. Only then is the slot given back, or does an assertion panic, which is `none`.
pub release {ℓ} : {A : Type ℓ} → Bool → ObjectPool A → ℕ → Option A × Option (ObjectPool A)
unfolding give_back
release debug p index = (value p index, give_back debug p index)

-- `ObjectPool::drop`: the values of the slots in use are dropped, in the order of their indices.
unfoldable pub dropped {ℓ} : {A : Type ℓ} → ObjectPool A → ℕ → ℕ → List (Option A)
dropped p from zero = []
dropped p from (suc n) =
    let rest = dropped p (from + 1) n in
    if has_bit p.free.used from then value p from ∷ rest else rest

abbrev pub drop_pool {ℓ} : {A : Type ℓ} → ObjectPool A → List (Option A)
drop_pool p = dropped p 0 (capacity p)
