-- ===== src/Checksum/Update.antt =====
-- src/net/checksum.rs: the incremental `update` of RFC 1624 against a full recomputation.
use userspace_router.Base.{
  ℕ, ◌+◌, ◌%◌, ◌^◌, ◌<◌, ◌≡◌, ◌≢◌, ◌∙◌, ap, List, ◌++◌, arith, length, length-append,
}
use userspace_router.Checksum.{fold, accumulate, accumulate_not, finish, checksum, update, not16}
use userspace_router.Checksum.Sum.{
  word_sum, not_sum, AreBytes, IsWhole, fold_lem, fold_unique, accumulate_lem, accumulate_not_lem,
  not_sum-le, not_sum-word_sum, word_sum-append, word_sum-le, checksum_lem, AreBytes-append,
}

-- On sums: with `r` the sum of the words that stay.
update-sum :
    (r : ℕ) (old new : List ℕ)
    → AreBytes old
    → r + word_sum old < 2 ^ 32
    → r + word_sum new < 2 ^ 32
    → 65535 + not_sum old + word_sum new < 2 ^ 32
    → r + word_sum new ≢ 0
    → update (finish (r + word_sum old)) old new ≡ finish (r + word_sum new)
unfolding update finish
update-sum r old new w ho hn room nz = ap not16 (
    ap fold sums
    ∙ fold_unique acc (r + word_sum new) (omega (arith, f)) hn (omega (arith, f, n))
        (λ z. nz (zero z)) nz)
  where
    f :
        (fold (r + word_sum old) < 2 ^ 16)
        × (fold (r + word_sum old) % 65535 ≡ (r + word_sum old) % 65535)
        × (fold (r + word_sum old) ≡ 0 → r + word_sum old ≡ 0)
    f = fold_lem (r + word_sum old) ho

    n : (not_sum old + word_sum old) % 65535 ≡ 0
    n = not_sum-word_sum old w

    acc : ℕ
    acc = fold (r + word_sum old) + not_sum old + word_sum new

    start : not16 (not16 (fold (r + word_sum old))) ≡ fold (r + word_sum old)
    start = omega (arith, f)

    sums : accumulate (accumulate_not (not16 (not16 (fold (r + word_sum old)))) old) new ≡ acc
    sums =
        rw (start, accumulate_not_lem (fold (r + word_sum old)) old (omega (arith, f)))
          (accumulate_lem (fold (r + word_sum old) + not_sum old) new (omega (arith, f)))

    zero : acc ≡ 0 → r + word_sum new ≡ 0
    zero z = omega (arith, f.2 (omega arith))

-- Replacing a field of a buffer and updating its checksum gives what a recomputation over the new
-- buffer gives, byte for byte, if the new buffer is not all zero. The field starts at an even
-- offset and is a whole number of words; the buffer is at most 65,535 bytes.
pub update_lem :
    (pre old new post : List ℕ)
    → AreBytes (pre ++ (old ++ post))
    → AreBytes (pre ++ (new ++ post))
    → IsWhole pre
    → IsWhole old
    → IsWhole new
    → length old ≡ length new
    → length (pre ++ (old ++ post)) < 2 ^ 16
    → word_sum (pre ++ (new ++ post)) ≢ 0
    → update (checksum (pre ++ (old ++ post))) old new ≡ checksum (pre ++ (new ++ post))
update_lem pre old new post bo bn wp wo wn le small nz =
    rw (co.1, cn.1, sum_of old wo, sum_of new wn)
      (update-sum rest old new (AreBytes-append old post (AreBytes-append pre (old ++ post) bo).1).0
        (rw (sum_of old wo) at co.0) (rw (sum_of new wn) at cn.0) room (rw (sum_of new wn) at nz))
  where
    rest : ℕ
    rest = word_sum pre + word_sum post

    sum_of :
        (field : List ℕ) → IsWhole field → word_sum (pre ++ (field ++ post)) ≡ rest + word_sum field
    sum_of field w =
        omega (arith, word_sum-append pre (field ++ post) wp, word_sum-append field post w)

    long :
        (field : List ℕ)
        → length (pre ++ (field ++ post)) ≡ length pre + (length field + length post)
    long field = omega (arith, length-append pre (field ++ post), length-append field post)

    small' : length (pre ++ (new ++ post)) < 2 ^ 16
    small' = omega (arith, long old, long new)

    co :
        (word_sum (pre ++ (old ++ post)) < 2 ^ 32)
        × (checksum (pre ++ (old ++ post)) ≡ finish (word_sum (pre ++ (old ++ post))))
    co = checksum_lem (pre ++ (old ++ post)) bo small

    cn :
        (word_sum (pre ++ (new ++ post)) < 2 ^ 32)
        × (checksum (pre ++ (new ++ post)) ≡ finish (word_sum (pre ++ (new ++ post))))
    cn = checksum_lem (pre ++ (new ++ post)) bn small'

    room : 65535 + not_sum old + word_sum new < 2 ^ 32
    room = omega (
      arith,
      not_sum-le old,
      long old,
      word_sum-le new (AreBytes-append new post (AreBytes-append pre (new ++ post) bn).1).0,
    )

-- The update exchanges the old words for the new ones, modulo 65535.
pub update_mod :
    (sum : ℕ) (old new : List ℕ)
    → sum < 2 ^ 16
    → AreBytes old
    → 65535 + not_sum old + word_sum new < 2 ^ 32
    → ((update sum old new + word_sum new) % 65535 ≡ (sum + word_sum old) % 65535)
      × (update sum old new < 2 ^ 16)
unfolding update
update_mod sum old new small w room = rw sums (omega (arith, f, n), omega arith)
  where
    acc : ℕ
    acc = not16 sum + not_sum old + word_sum new

    f : (fold acc < 2 ^ 16) × (fold acc % 65535 ≡ acc % 65535) × (fold acc ≡ 0 → acc ≡ 0)
    f = fold_lem acc (omega arith)

    n : (not_sum old + word_sum old) % 65535 ≡ 0
    n = not_sum-word_sum old w

    sums : accumulate (accumulate_not (not16 sum) old) new ≡ acc
    sums =
        rw (accumulate_not_lem (not16 sum) old (omega arith))
          (accumulate_lem (not16 sum + not_sum old) new (omega arith))
