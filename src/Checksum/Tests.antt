-- ===== src/Checksum/Tests.antt =====
-- src/net/checksum.rs: the vectors of its own tests.
use userspace_router.Base.{ℕ, ◌%◌, ◌^◌, ◌<◌, ◌≡◌, refl, List, [], ◌∷◌, ◌++◌, arith, ◌<◌}
use userspace_router.Checksum.{checksum, update, accumulate, fold, fold_loop, finish}
use userspace_router.Checksum.Sum.{word_sum, fold_lem}
use userspace_router.Checksum.Update.{update_lem}

-- The header of RFC 1071's example, from the unit test.
abbrev header_front : List ℕ
header_front = 0x45 ∷ 0 ∷ 0 ∷ 0x73 ∷ 0 ∷ 0 ∷ 0x40 ∷ 0 ∷ 0x40 ∷ 0x11 ∷ []

abbrev header_back : List ℕ
header_back = 0xc0 ∷ 0xa8 ∷ 0 ∷ 1 ∷ 0xc0 ∷ 0xa8 ∷ 0 ∷ 0xc7 ∷ []

checksum_of_header : checksum (header_front ++ 0 ∷ 0 ∷ header_back) ≡ 0xb861
unfolding checksum accumulate finish fold fold_loop
checksum_of_header = refl

-- Two rounds are needed.
abbrev carries : ℕ
carries = 0x2fffd

fold_lem_example :
    (fold 0x2fffd < 2 ^ 16)
    × (fold 0x2fffd % 65535 ≡ 0x2fffd % 65535)
    × (fold 0x2fffd ≡ 0 → carries ≡ 0)
fold_lem_example = fold_lem 0x2fffd (omega arith)

update_lem_example :
    update
      (checksum (0x45 ∷ 0 ∷ 192 ∷ 168 ∷ 1 ∷ 2 ∷ 7 ∷ []))
      (192 ∷ 168 ∷ 1 ∷ 2 ∷ [])
      (203 ∷ 0 ∷ 113 ∷ 7 ∷ [])
    ≡ checksum (0x45 ∷ 0 ∷ 203 ∷ 0 ∷ 113 ∷ 7 ∷ 7 ∷ [])
unfolding word_sum
update_lem_example =
    update_lem (0x45 ∷ 0 ∷ []) (192 ∷ 168 ∷ 1 ∷ 2 ∷ []) (203 ∷ 0 ∷ 113 ∷ 7 ∷ []) (7 ∷ [])
      (omega arith) (omega arith) tt tt tt refl (omega arith) (ground arith)
