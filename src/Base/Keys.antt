-- ===== src/Base/Keys.antt =====
-- Boolean equality of map keys, with its law. `HashMap` and `BTreeMap` keys are numbers and
-- tuples or records of numbers.
use Prim.Native.Nat.{ℕ}
use mathlib.Core.Path.{◌≡◌}
use mathlib.Core.Logic.{◌↔◌}
use mathlib.Core.Bool.{Bool, true, ◌&&◌}
use native.Mathlib.Omega.{arith}
use userspace_router.Base.Tests.{◌==◌, ==_iff}

pub record Eq {ℓ} (A : Type ℓ) : Type ℓ where
  pub beq : A → A → Bool
  pub beq_iff : (a b : A) → (beq a b ≡ true) ↔ (a ≡ b)

abbrev pub nat_beq : ℕ → ℕ → Bool
nat_beq a b = a == b

instance abbrev pub nat_eq : Eq ℕ
nat_eq = record { beq = nat_beq; beq_iff = ==_iff }

abbrev pub pair_beq : ℕ × ℕ → ℕ × ℕ → Bool
pair_beq a b = (a.0 == b.0) && (a.1 == b.1)

pub pair_beq_iff : (a b : ℕ × ℕ) → (pair_beq a b ≡ true) ↔ (a ≡ b)
pair_beq_iff a b = ground arith

instance abbrev pub pair_eq : Eq (ℕ × ℕ)
pair_eq = record { beq = pair_beq; beq_iff = pair_beq_iff }

abbrev pub triple_beq : ℕ × ℕ × ℕ → ℕ × ℕ × ℕ → Bool
triple_beq a b = (a.0 == b.0) && (a.1 == b.1) && (a.2 == b.2)

pub triple_beq_iff : (a b : ℕ × ℕ × ℕ) → (triple_beq a b ≡ true) ↔ (a ≡ b)
triple_beq_iff a b = ground arith

instance abbrev pub triple_eq : Eq (ℕ × ℕ × ℕ)
triple_eq = record { beq = triple_beq; beq_iff = triple_beq_iff }
