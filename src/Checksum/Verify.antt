-- ===== src/Checksum/Verify.antt =====
-- src/net/checksum.rs: a buffer with its checksum in place sums to zero.
use userspace_router.Base.{
  zero, suc, ℕ, ◌+◌, ◌-◌, ◌/◌, ◌%◌, ◌^◌, ◌<◌, ◌≡◌, ◌≢◌, refl, sym, ◌∙◌, ap, List, [], ◌∷◌, ◌++◌,
  arith, length, length-append, ℕ_discrete,
}
use userspace_router.Checksum.{
  fold, accumulate, finish, checksum, udp_ipv4, wrapping_add, nonzero_or_ones,
}
use userspace_router.Checksum.Sum.{
  word_sum, AreBytes, IsWhole, fold_lem, accumulate_lem, word_sum-append, word_sum-le, checksum_lem,
  fold_zero,
}

-- `u16::to_be_bytes`, in front of the rest of the buffer.
abbrev pub put16 : ℕ → List ℕ → List ℕ
put16 v post = v / 256 ∷ v % 256 ∷ post

finish_eq : (s : ℕ) → finish s ≡ 65535 - fold s
unfolding finish
finish_eq s = refl

-- Adding the checksum of a sum to it gives a sum that checks.
finish-add : (s : ℕ) → s + 65535 < 2 ^ 32 → finish (s + finish s) ≡ 0
finish-add zero h =
    rw (finish_eq 0, fold_zero, finish_eq 65535) (ground (arith, fold_lem 65535 (omega arith)))
finish-add (suc n) h =
    let s : ℕ = suc n in
    rw (finish_eq s, finish_eq (s + (65535 - fold s)))
      (ground (arith, fold_lem s (omega arith), fold_lem (s + (65535 - fold s)) (omega arith)))

pub finish-lt : (s : ℕ) → finish s < 2 ^ 16
unfolding finish
finish-lt s = omega arith

word_sum-put16 :
    (pre post : List ℕ) (v : ℕ)
    → IsWhole pre
    → v < 2 ^ 16
    → word_sum (pre ++ put16 v post) ≡ word_sum (pre ++ 0 ∷ 0 ∷ post) + v
unfolding word_sum
word_sum-put16 pre post v w h =
    omega (arith, word_sum-append pre (put16 v post) w, word_sum-append pre (0 ∷ 0 ∷ post) w)

AreBytes-put16 :
    (pre post : List ℕ) (v : ℕ)
    → v < 2 ^ 16
    → AreBytes (pre ++ 0 ∷ 0 ∷ post)
    → AreBytes (pre ++ put16 v post)
AreBytes-put16 [] post v h (p, (q, b)) = (omega arith, (omega arith, b))
AreBytes-put16 (x ∷ pre) post v h (p, b) = (p, AreBytes-put16 pre post v h b)

length-put16 :
    (pre post : List ℕ) (v : ℕ) → length (pre ++ put16 v post) ≡ length (pre ++ 0 ∷ 0 ∷ post)
length-put16 pre post v =
    omega (arith, length-append pre (put16 v post), length-append pre (0 ∷ 0 ∷ post))

-- The checksum of a buffer whose checksum field, at an even offset, is zero, written into that
-- field, makes the checksum of the whole buffer zero. The buffer is shorter than 64 KiB.
pub checksum_verifies :
    (pre post : List ℕ)
    → AreBytes (pre ++ 0 ∷ 0 ∷ post)
    → IsWhole pre
    → length (pre ++ 0 ∷ 0 ∷ post) < 2 ^ 16
    → checksum (pre ++ put16 (checksum (pre ++ 0 ∷ 0 ∷ post)) post) ≡ 0
checksum_verifies pre post b w small =
    rw (zeroed.1, filled.1, word_sum-put16 pre post c w (finish-lt _))
      (finish-add (word_sum (pre ++ 0 ∷ 0 ∷ post))
        (omega (arith, word_sum-le (pre ++ 0 ∷ 0 ∷ post) b)))
  where
    c : ℕ
    c = finish (word_sum (pre ++ 0 ∷ 0 ∷ post))

    zeroed :
        (word_sum (pre ++ 0 ∷ 0 ∷ post) < 2 ^ 32)
        × (checksum (pre ++ 0 ∷ 0 ∷ post) ≡ finish (word_sum (pre ++ 0 ∷ 0 ∷ post)))
    zeroed = checksum_lem (pre ++ 0 ∷ 0 ∷ post) b small

    filled :
        (word_sum (pre ++ put16 c post) < 2 ^ 32)
        × (checksum (pre ++ put16 c post) ≡ finish (word_sum (pre ++ put16 c post)))
    filled =
        checksum_lem (pre ++ put16 c post) (AreBytes-put16 pre post c (finish-lt _) b)
          (omega (arith, length-put16 pre post c))

-- The check that a receiver of a UDP datagram makes: the pseudo-header and the datagram, summed.
pub udp_check : List ℕ → List ℕ → List ℕ → ℕ
udp_check src dst udp = finish (
    accumulate
      (wrapping_add (wrapping_add (accumulate (accumulate 0 src) dst) 17) (length udp % 2 ^ 32))
      udp)

udp_sum : List ℕ → List ℕ → List ℕ → ℕ
udp_sum src dst udp = word_sum src + word_sum dst + 17 + length udp + word_sum udp

pseudo_lem :
    (src dst udp : List ℕ)
    → AreBytes src
    → AreBytes dst
    → AreBytes udp
    → length src ≡ 4
    → length dst ≡ 4
    → length udp < 2 ^ 16
    → (udp_sum src dst udp + 65535 < 2 ^ 32)
      × (accumulate
            (wrapping_add
              (wrapping_add (accumulate (accumulate 0 src) dst) 17)
              (length udp % 2 ^ 32))
            udp
          ≡ udp_sum src dst udp)
unfolding udp_sum
pseudo_lem src dst udp bs bd bu ls ld small = (omega (arith, bound), sums)
  where
    bound : word_sum src + word_sum dst + 17 + length udp + word_sum udp + 65535 < 2 ^ 32
    bound = omega (arith, word_sum-le src bs, word_sum-le dst bd, word_sum-le udp bu)

    first : accumulate 0 src ≡ word_sum src
    first = accumulate_lem 0 src (omega (arith, bound)) ∙ omega arith

    second : accumulate (accumulate 0 src) dst ≡ word_sum src + word_sum dst
    second = rw first (accumulate_lem (word_sum src) dst (omega (arith, bound)))

    third :
        (((word_sum src + word_sum dst) + 17) % 2 ^ 32 + length udp % 2 ^ 32) % 2 ^ 32
        ≡ word_sum src + word_sum dst + 17 + length udp
    third = omega (arith, bound)

    sums :
        accumulate
          (wrapping_add (wrapping_add (accumulate (accumulate 0 src) dst) 17) (length udp % 2 ^ 32))
          udp
        ≡ word_sum src + word_sum dst + 17 + length udp + word_sum udp
    sums =
        rw (second, third)
          (accumulate_lem (word_sum src + word_sum dst + 17 + length udp) udp
            (omega (arith, bound)))

-- The receiver sums the datagram without a checksum and the checksum.
udp_check-put16 :
    (src dst pre post : List ℕ) (v : ℕ)
    → v < 2 ^ 16
    → AreBytes src
    → AreBytes dst
    → AreBytes (pre ++ 0 ∷ 0 ∷ post)
    → length src ≡ 4
    → length dst ≡ 4
    → IsWhole pre
    → length (pre ++ 0 ∷ 0 ∷ post) < 2 ^ 16
    → udp_check src dst (pre ++ put16 v post) ≡ finish (udp_sum src dst (pre ++ 0 ∷ 0 ∷ post) + v)
unfolding udp_check udp_sum
udp_check-put16 src dst pre post v h bs bd b ls ld w small = ap finish (
    (pseudo_lem src dst (pre ++ put16 v post) bs bd (AreBytes-put16 pre post v h b) ls ld
      (omega (arith, length-put16 pre post v))).1
    ∙ omega (arith, length-put16 pre post v, word_sum-put16 pre post v w h))

udp_ipv4_lem :
    (src dst udp : List ℕ)
    → AreBytes src
    → AreBytes dst
    → AreBytes udp
    → length src ≡ 4
    → length dst ≡ 4
    → length udp < 2 ^ 16
    → udp_ipv4 src dst udp ≡ nonzero_or_ones (finish (udp_sum src dst udp))
unfolding udp_ipv4
udp_ipv4_lem src dst udp bs bd bu ls ld small =
    ap (λ t. nonzero_or_ones (finish t)) (pseudo_lem src dst udp bs bd bu ls ld small).1

finish-ones : (s : ℕ) → s + 65535 < 2 ^ 32 → finish s ≡ 0 → finish (s + 65535) ≡ 0
finish-ones s h z = rw (finish_eq (s + 65535)) (
    ground
      (arith, sym (finish_eq s) ∙ z, fold_lem s (omega arith), fold_lem (s + 65535) (omega arith)))

-- A UDP datagram whose checksum field, at an even offset, was zero and now holds `udp_ipv4` passes
-- the receiver's check, also where a computed zero is sent as 0xffff; the field is never zero.
pub udp_ipv4_verifies :
    (src dst pre post : List ℕ)
    → AreBytes src
    → AreBytes dst
    → AreBytes (pre ++ 0 ∷ 0 ∷ post)
    → length src ≡ 4
    → length dst ≡ 4
    → IsWhole pre
    → length (pre ++ 0 ∷ 0 ∷ post) < 2 ^ 16
    → (udp_check src dst (pre ++ put16 (udp_ipv4 src dst (pre ++ 0 ∷ 0 ∷ post)) post) ≡ 0)
      × (udp_ipv4 src dst (pre ++ 0 ∷ 0 ∷ post) ≢ 0)
udp_ipv4_verifies src dst pre post bs bd b ls ld w small =
    rw (udp_ipv4_lem src dst (pre ++ 0 ∷ 0 ∷ post) bs bd b ls ld small) (
      sent (udp_sum src dst (pre ++ 0 ∷ 0 ∷ post)) refl
        (pseudo_lem src dst (pre ++ 0 ∷ 0 ∷ post) bs bd b ls ld small).0)
  where
    checked :
        (v : ℕ)
        → v < 2 ^ 16
        → udp_check src dst (pre ++ put16 v post)
          ≡ finish (udp_sum src dst (pre ++ 0 ∷ 0 ∷ post) + v)
    checked v h = udp_check-put16 src dst pre post v h bs bd b ls ld w small

    sent :
        (s : ℕ)
        → udp_sum src dst (pre ++ 0 ∷ 0 ∷ post) ≡ s
        → s + 65535 < 2 ^ 32
        → (udp_check src dst (pre ++ put16 (nonzero_or_ones (finish s)) post) ≡ 0)
          × (nonzero_or_ones (finish s) ≢ 0)
    sent s e h = elim (ℕ_discrete (finish s) 0) [
      | yes z ↦ (rw z (checked 65535 (omega arith) ∙ rw e (finish-ones s h z)), ground (arith, z))
      | no nz ↦
          let same : nonzero_or_ones (finish s) ≡ finish s = ground arith in
          (rw same (checked (finish s) (finish-lt s) ∙ rw e (finish-add s h)), ground arith)
    ]

-- Whether a sum checks depends only on its value modulo 65535, and on being zero.
pub finish_mod :
    (a b : ℕ)
    → a < 2 ^ 32
    → b < 2 ^ 32
    → a % 65535 ≡ b % 65535
    → 0 < b
    → finish a ≡ 0
    → finish b ≡ 0
finish_mod a b ha hb same pos z =
    rw (finish_eq b) (ground (arith, sym (finish_eq a) ∙ z, fold_lem a ha, fold_lem b hb))

-- Both checksums are values of 16 bits.
pub checksum-lt : (bytes : List ℕ) → checksum bytes < 2 ^ 16
unfolding checksum
checksum-lt bytes = finish-lt (accumulate 0 bytes)

pub udp_ipv4-lt : (src dst udp : List ℕ) → udp_ipv4 src dst udp < 2 ^ 16
unfolding udp_ipv4
udp_ipv4-lt src dst udp =
    let sum : ℕ =
      accumulate
        (wrapping_add (wrapping_add (accumulate (accumulate 0 src) dst) 17) (length udp % 2 ^ 32))
        udp in
    ground (arith, finish-lt sum)
