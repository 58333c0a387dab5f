-- ===== src/Wire/Slices.antt =====
-- src/net/wire.rs: the word sum of a part of a buffer, after a field is written.
use userspace_router.Base.{
  ℕ, zero, suc, ◌+◌, ◌-◌, ◌*◌, ◌%◌, ◌^◌, ◌≤◌, ◌<◌, ◌≡◌, ◌⊎◌, inl, inr, refl, ap, ◌∙◌, List, [], ◌∷◌,
  length, take, drop, arith, length-take, length-drop,
}
use userspace_router.Checksum.Sum.{word_sum, AreBytes, word_sum-le}
use userspace_router.Wire.{splice, byte, slice, get_u16, u16_bytes, u32_bytes}
use userspace_router.Wire.Splice.{take-splice, drop-splice, drop-splice_past, take-splice_before}
use userspace_router.Wire.Sums.{word_sum-splice, slice_two, slice_four}

pub byte-drop : (n : ℕ) (xs : List ℕ) (i : ℕ) → byte (drop n xs) i ≡ byte xs (n + i)
unfolding byte
byte-drop zero xs i = ap (byte xs) (omega arith)
byte-drop (suc n) [] i = refl
byte-drop (suc n) (x ∷ xs) i =
    let one : suc n + i ≡ suc (n + i) = omega arith in rw one (byte-drop n xs i)

pub byte-take : (n : ℕ) (xs : List ℕ) (i : ℕ) → i < n → byte (take n xs) i ≡ byte xs i
unfolding byte
byte-take zero xs i h = absurd (omega arith)
byte-take (suc n) [] i h = refl
byte-take (suc n) (x ∷ xs) zero h = refl
byte-take (suc n) (x ∷ xs) (suc i) h = byte-take n xs i (omega arith)

pub byte-slice :
    (buf : List ℕ) (from to i : ℕ)
    → from + i < to
    → byte (slice buf from to) i ≡ byte buf (from + i)
byte-slice buf from to i h =
    byte-take (to - from) (drop from buf) i (omega arith) ∙ byte-drop from buf i

pub length-slice :
    (buf : List ℕ) (from to : ℕ)
    → from ≤ to
    → to ≤ length buf
    → length (slice buf from to) ≡ to - from
length-slice buf from to h g =
    omega (arith, length-take (to - from) (drop from buf), length-drop from buf)

pub slice-splice :
    (buf : List ℕ) (from to off : ℕ) (bytes : List ℕ)
    → from ≤ off
    → slice (splice buf off bytes) from to ≡ splice (slice buf from to) (off - from) bytes
slice-splice buf from to off bytes h =
    ap (take (to - from)) (drop-splice from buf off bytes h)
    ∙ take-splice (to - from) (drop from buf) (off - from) bytes

pub slice-splice_outside :
    (buf : List ℕ) (from to off : ℕ) (bytes : List ℕ)
    → from ≤ to
    → (off + length bytes ≤ from) ⊎ (to ≤ off)
    → slice (splice buf off bytes) from to ≡ slice buf from to
slice-splice_outside buf from to off bytes o (inl h) =
    ap (take (to - from)) (drop-splice_past from buf off bytes h)
slice-splice_outside buf from to off bytes o (inr h) =
    ap (take (to - from)) (drop-splice from buf off bytes (omega arith))
    ∙ take-splice_before (to - from) (drop from buf) (off - from) bytes (omega arith)

-- The sum after a field at an even offset of the part is written.
pub word_sum-slice_u16 :
    (buf : List ℕ) (from to off v : ℕ)
    → from ≤ off
    → (off - from) % 2 ≡ 0
    → off + 2 ≤ to
    → to ≤ length buf
    → v < 2 ^ 16
    → word_sum (slice (splice buf off (u16_bytes v)) from to) + get_u16 buf off
      ≡ word_sum (slice buf from to) + v
unfolding word_sum
word_sum-slice_u16 buf from to off v h even room inside small =
    let part : List ℕ = slice buf from to in
    let at : ℕ = off - from in
    let len = length-slice buf from to (omega arith) inside in
    let old = slice_two part at (omega (arith, len)) in
    let b0 : byte part at ≡ byte buf off =
      byte-slice buf from to at (omega arith) ∙ ap (byte buf) (omega arith) in
    let b1 : byte part (at + 1) ≡ byte buf (off + 1) =
      byte-slice buf from to (at + 1) (omega arith) ∙ ap (byte buf) (omega arith) in
    let w = word_sum-splice part at (u16_bytes v) even tt (omega (arith, len)) in
    let old_sum : word_sum (take 2 (drop at part)) ≡ get_u16 buf off =
      ap word_sum old ∙ omega (arith, b0, b1) in
    rw (slice-splice buf from to off (u16_bytes v) h) (omega (arith, w, old_sum))

pub word_sum-slice_u32 :
    (buf : List ℕ) (from to off v : ℕ)
    → from ≤ off
    → (off - from) % 2 ≡ 0
    → off + 4 ≤ to
    → to ≤ length buf
    → word_sum (slice (splice buf off (u32_bytes v)) from to)
        + (get_u16 buf off + get_u16 buf (off + 2))
      ≡ word_sum (slice buf from to) + word_sum (u32_bytes v)
unfolding word_sum
word_sum-slice_u32 buf from to off v h even room inside =
    let part : List ℕ = slice buf from to in
    let at : ℕ = off - from in
    let len = length-slice buf from to (omega arith) inside in
    let old = slice_four part at (omega (arith, len)) in
    let b0 : byte part at ≡ byte buf off =
      byte-slice buf from to at (omega arith) ∙ ap (byte buf) (omega arith) in
    let b1 : byte part (at + 1) ≡ byte buf (off + 1) =
      byte-slice buf from to (at + 1) (omega arith) ∙ ap (byte buf) (omega arith) in
    let b2 : byte part (at + 2) ≡ byte buf (off + 2) =
      byte-slice buf from to (at + 2) (omega arith) ∙ ap (byte buf) (omega arith) in
    let b3 : byte part (at + 3) ≡ byte buf (off + 2 + 1) =
      byte-slice buf from to (at + 3) (omega arith) ∙ ap (byte buf) (omega arith) in
    let w = word_sum-splice part at (u32_bytes v) even tt (omega (arith, len)) in
    let old_sum : word_sum (take 4 (drop at part)) ≡ get_u16 buf off + get_u16 buf (off + 2) =
      ap word_sum old ∙ omega (arith, b0, b1, b2, b3) in
    rw (slice-splice buf from to off (u32_bytes v) h) (omega (arith, w, old_sum))

pub AreBytes-slice : (buf : List ℕ) (from to : ℕ) → AreBytes buf → AreBytes (slice buf from to)
AreBytes-slice buf from to w = AreBytes-take (to - from) (drop from buf) (AreBytes-drop from buf w)
  where
    AreBytes-drop : (n : ℕ) (xs : List ℕ) → AreBytes xs → AreBytes (drop n xs)
    AreBytes-drop zero xs k = k
    AreBytes-drop (suc n) [] k = k
    AreBytes-drop (suc n) (x ∷ xs) (p, k) = AreBytes-drop n xs k

    AreBytes-take : (n : ℕ) (xs : List ℕ) → AreBytes xs → AreBytes (take n xs)
    AreBytes-take zero xs k = tt
    AreBytes-take (suc n) [] k = k
    AreBytes-take (suc n) (x ∷ xs) (p, k) = (p, AreBytes-take n xs k)

pub word_sum-byte : (xs : List ℕ) → 0 < byte xs 0 → 0 < word_sum xs
unfolding word_sum byte
word_sum-byte [] h = omega arith
word_sum-byte (x ∷ []) h = omega arith
word_sum-byte (x ∷ y ∷ xs) h = omega arith

-- A part of a buffer of less than 64 KiB has a sum far below 2 ^ 32.
pub word_sum-slice_le :
    (buf : List ℕ) (from to : ℕ)
    → from ≤ to
    → to ≤ length buf
    → AreBytes buf
    → word_sum (slice buf from to) * 2 ≤ 65535 * (to - from + 1)
word_sum-slice_le buf from to h g w = omega (
  arith,
  word_sum-le (slice buf from to) (AreBytes-slice buf from to w),
  length-slice buf from to h g,
)
