-- ===== src/Wire/Splice.antt =====
-- src/net/wire.rs: what a write in place leaves, and what it does to slices.
use userspace_router.Base.{
  ℕ, zero, suc, ◌+◌, ◌-◌, ◌^◌, ◌≤◌, ◌<◌, ◌≡◌, ◌⊎◌, inr, refl, ap, ◌∙◌, ◌&&◌, List, [], ◌∷◌, leb,
  ltb, length, take, drop, arith, if◌then◌else◌,
}
use userspace_router.Checksum.Sum.{AreBytes}
use userspace_router.Wire.{get_u16, get_u32, u16_bytes, u32_bytes, byte, splice}

pub length-splice :
    (buf : List ℕ) (off : ℕ) (bytes : List ℕ) → length (splice buf off bytes) ≡ length buf
unfolding splice
length-splice [] off bytes = refl
length-splice (x ∷ buf) zero [] = refl
length-splice (x ∷ buf) zero (b ∷ bytes) = ap suc (length-splice buf zero bytes)
length-splice (x ∷ buf) (suc off) bytes = ap suc (length-splice buf off bytes)

-- The bytes written are read back, all others stay.
pub byte-splice :
    (buf : List ℕ) (off : ℕ) (bytes : List ℕ) (i : ℕ)
    → off + length bytes ≤ length buf
    → byte (splice buf off bytes) i
      ≡ (if leb off i && ltb i (off + length bytes) then byte bytes (i - off) else byte buf i)
unfolding splice byte
byte-splice [] zero [] i h = ground arith
byte-splice [] zero (b ∷ bytes) i h = absurd (omega arith)
byte-splice [] (suc off) bytes i h = absurd (omega arith)
byte-splice (x ∷ buf) zero [] i h = ground arith
byte-splice (x ∷ buf) zero (b ∷ bytes) zero h = ground arith
byte-splice (x ∷ buf) zero (b ∷ bytes) (suc i) h = ground (arith, byte-splice buf zero bytes i)
byte-splice (x ∷ buf) (suc off) bytes zero h = ground arith
byte-splice (x ∷ buf) (suc off) bytes (suc i) h = ground (arith, byte-splice buf off bytes i)

pub byte-splice_outside :
    (buf : List ℕ) (off : ℕ) (bytes : List ℕ) (i : ℕ)
    → (i < off) ⊎ (off + length bytes ≤ i)
    → byte (splice buf off bytes) i ≡ byte buf i
unfolding splice byte
byte-splice_outside [] off bytes i h = refl
byte-splice_outside (x ∷ buf) zero [] i h = refl
byte-splice_outside (x ∷ buf) zero (b ∷ bytes) zero h = absurd (ground arith)
byte-splice_outside (x ∷ buf) zero (b ∷ bytes) (suc i) h =
    byte-splice_outside buf zero bytes i (inr (ground arith))
byte-splice_outside (x ∷ buf) (suc off) bytes zero h = refl
byte-splice_outside (x ∷ buf) (suc off) bytes (suc i) h =
    byte-splice_outside buf off bytes i (ground arith)

pub get_u16-splice_outside :
    (buf : List ℕ) (off : ℕ) (bytes : List ℕ) (i : ℕ)
    → (i + 2 ≤ off) ⊎ (off + length bytes ≤ i)
    → get_u16 (splice buf off bytes) i ≡ get_u16 buf i
get_u16-splice_outside buf off bytes i h =
    rw
      (
        byte-splice_outside buf off bytes i (ground arith),
        byte-splice_outside buf off bytes (i + 1) (ground arith),
      )
      refl

pub get_u32-splice_outside :
    (buf : List ℕ) (off : ℕ) (bytes : List ℕ) (i : ℕ)
    → (i + 4 ≤ off) ⊎ (off + length bytes ≤ i)
    → get_u32 (splice buf off bytes) i ≡ get_u32 buf i
get_u32-splice_outside buf off bytes i h =
    rw
      (
        get_u16-splice_outside buf off bytes i (ground arith),
        get_u16-splice_outside buf off bytes (i + 2) (ground arith),
      )
      refl

-- A field that is written is read back.
pub get_u16-splice :
    (buf : List ℕ) (off v : ℕ)
    → off + 2 ≤ length buf
    → v < 2 ^ 16
    → get_u16 (splice buf off (u16_bytes v)) off ≡ v
unfolding byte
get_u16-splice buf off v room h =
    let b = u16_bytes v in
    ground (arith, byte-splice buf off b off, byte-splice buf off b (off + 1))

pub get_u32-splice :
    (buf : List ℕ) (off v : ℕ)
    → off + 4 ≤ length buf
    → v < 2 ^ 32
    → get_u32 (splice buf off (u32_bytes v)) off ≡ v
unfolding byte
get_u32-splice buf off v room h =
    let b = u32_bytes v in
    ground (
      arith,
      byte-splice buf off b off,
      byte-splice buf off b (off + 1),
      byte-splice buf off b (off + 2),
      byte-splice buf off b (off + 2 + 1),
    )

pub splice-nil : (buf : List ℕ) (off : ℕ) → splice buf off [] ≡ buf
unfolding splice
splice-nil [] off = refl
splice-nil (x ∷ buf) zero = refl
splice-nil (x ∷ buf) (suc off) = ap (◌∷◌ x) (splice-nil buf off)

pub take-splice :
    (n : ℕ) (buf : List ℕ) (off : ℕ) (bytes : List ℕ)
    → take n (splice buf off bytes) ≡ splice (take n buf) off bytes
unfolding splice
take-splice zero buf off bytes = refl
take-splice (suc n) [] off bytes = refl
take-splice (suc n) (x ∷ buf) zero [] = refl
take-splice (suc n) (x ∷ buf) zero (b ∷ bytes) = ap (◌∷◌ b) (take-splice n buf zero bytes)
take-splice (suc n) (x ∷ buf) (suc off) bytes = ap (◌∷◌ x) (take-splice n buf off bytes)

pub drop-splice :
    (n : ℕ) (buf : List ℕ) (off : ℕ) (bytes : List ℕ)
    → n ≤ off
    → drop n (splice buf off bytes) ≡ splice (drop n buf) (off - n) bytes
unfolding splice
drop-splice zero buf off bytes h = ap (λ o. splice buf o bytes) (omega arith)
drop-splice (suc n) [] off bytes h = refl
drop-splice (suc n) (x ∷ buf) zero bytes h = absurd (omega arith)
drop-splice (suc n) (x ∷ buf) (suc off) bytes h =
    drop-splice n buf off bytes (omega arith) ∙ ap (λ o. splice (drop n buf) o bytes) (omega arith)

pub drop-splice_past :
    (n : ℕ) (buf : List ℕ) (off : ℕ) (bytes : List ℕ)
    → off + length bytes ≤ n
    → drop n (splice buf off bytes) ≡ drop n buf
unfolding splice
drop-splice_past n [] off bytes h = refl
drop-splice_past n (x ∷ buf) zero [] h = refl
drop-splice_past zero (x ∷ buf) zero (b ∷ bytes) h = absurd (omega arith)
drop-splice_past (suc n) (x ∷ buf) zero (b ∷ bytes) h =
    drop-splice_past n buf zero bytes (omega arith)
drop-splice_past zero (x ∷ buf) (suc off) bytes h = absurd (omega arith)
drop-splice_past (suc n) (x ∷ buf) (suc off) bytes h =
    drop-splice_past n buf off bytes (omega arith)

-- A write past the end of a prefix does not touch it.
pub take-splice_before :
    (n : ℕ) (buf : List ℕ) (off : ℕ) (bytes : List ℕ)
    → n ≤ off
    → take n (splice buf off bytes) ≡ take n buf
unfolding splice
take-splice_before zero buf off bytes h = refl
take-splice_before (suc n) [] off bytes h = refl
take-splice_before (suc n) (x ∷ buf) zero bytes h = absurd (omega arith)
take-splice_before (suc n) (x ∷ buf) (suc off) bytes h =
    ap (◌∷◌ x) (take-splice_before n buf off bytes (omega arith))

pub splice-AreBytes :
    (buf : List ℕ) (off : ℕ) (bytes : List ℕ)
    → AreBytes buf
    → AreBytes bytes
    → AreBytes (splice buf off bytes)
unfolding splice
splice-AreBytes [] off bytes h k = tt
splice-AreBytes (x ∷ buf) zero [] h k = h
splice-AreBytes (x ∷ buf) zero (b ∷ bytes) (p, h) (q, k) = (q, splice-AreBytes buf zero bytes h k)
splice-AreBytes (x ∷ buf) (suc off) bytes (p, h) k = (p, splice-AreBytes buf off bytes h k)

pub byte-lt : (buf : List ℕ) (i : ℕ) → AreBytes buf → byte buf i < 256
unfolding byte
byte-lt [] i h = omega arith
byte-lt (x ∷ buf) zero (p, h) = p
byte-lt (x ∷ buf) (suc i) (p, h) = byte-lt buf i h
