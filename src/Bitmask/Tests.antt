-- ===== src/Bitmask/Tests.antt =====
-- src/core/bitmask.rs: a mask of forty bits, whose last eight stand in the second word.
use userspace_router.Base.{ℕ, ◌≡◌, refl, true, false, some, if◌then◌else◌, ◌==◌, arith}
use userspace_router.Bitmask.{Bitmask, new, is_set, set_bit, clear_bit, has_bit, with_bit}
use userspace_router.Bitmask.Laws.{HasWords, new-HasWords, bits_lem}

second_word : has_bit (with_bit (new 40) 35) 35 ≡ true
unfolding has_bit with_bit
second_word = refl

bits_lem_example :
    (a : Bitmask) × (b : Bitmask) × (set_bit (new 40) 35 ≡ some a)
    × (clear_bit (new 40) 35 ≡ some b)
    × HasWords a
    × HasWords b
    × ((i : ℕ) → is_set a i ≡ (if i == 35 then some true else is_set (new 40) i))
    × ((i : ℕ) → is_set b i ≡ (if i == 35 then some false else is_set (new 40) i))
bits_lem_example = bits_lem (new 40) 35 (new-HasWords 40) (omega arith)
