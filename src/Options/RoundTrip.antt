-- ===== src/Options/RoundTrip.antt =====
-- src/net/dhcp.rs: what is written is read back.
use userspace_router.Base
use userspace_router.Base.{
  ℕ, zero, suc, ◌+◌, ◌*◌, ◌/◌, ◌%◌, ◌^◌, ◌≤◌, ◌<◌, ◌≡◌, ◌≢◌, refl, Bool, true, false, ◌||◌, Option,
  none, some, List, [], ◌∷◌, ◌++◌, if◌then◌else◌, ltb, leb, ◌==◌, length, drop, arith,
  length-append, ap, ◌∙◌, sym,
}
use userspace_router.Options.{
  read_option, next, items, find, get, OptionsWriter, writer, option, end, be_bytes, from_be_bytes,
}

-- An option that can be written: its code is no marker, its value not longer than 255 bytes.
abbrev pub IsOption : ℕ × List ℕ → Type 0
IsOption (code, value) = (code ≢ 0) × (code ≢ 255) × (length value ≤ 255)

abbrev pub AreOptions : List (ℕ × List ℕ) → Type 0
AreOptions [] = Unit {0}
AreOptions (o ∷ os) = IsOption o × AreOptions os

-- The bytes of options, without the end marker.
unfoldable pub encode : List (ℕ × List ℕ) → List ℕ
encode [] = []
encode ((code, value) ∷ os) = code ∷ length value ∷ (value ++ encode os)

take-all : (xs ys : List ℕ) → Base.take (length xs) (xs ++ ys) ≡ xs
take-all [] ys = refl
take-all (x ∷ xs) ys = ap (◌∷◌ x) (take-all xs ys)

drop-all : (xs ys : List ℕ) → drop (length xs) (xs ++ ys) ≡ ys
drop-all [] ys = refl
drop-all (x ∷ xs) ys = drop-all xs ys

append_assoc : (xs ys zs : List ℕ) → (xs ++ ys) ++ zs ≡ xs ++ (ys ++ zs)
append_assoc [] ys zs = refl
append_assoc (x ∷ xs) ys zs = ap (◌∷◌ x) (append_assoc xs ys zs)

pub append_nil : (xs : List ℕ) → xs ++ [] ≡ xs
append_nil [] = refl
append_nil (x ∷ xs) = ap (◌∷◌ x) (append_nil xs)

-- An option is read back, and reading goes on behind it.
next-option :
    (code : ℕ) (value rest : List ℕ)
    → IsOption (code, value)
    → next (code ∷ length value ∷ (value ++ rest)) ≡ (some (code, value), rest)
unfolding next read_option
next-option code value rest (p, q, h) =
    let fits : ltb (length (value ++ rest)) (length value) ≡ false =
      ground (arith, length-append value rest) in
    let not_pad : (code == 0) ≡ false = ground arith in
    let not_end : (code == 255) ≡ false = ground arith in
    rw (not_pad, not_end, fits, take-all value rest, drop-all value rest) refl

next-end : (rest : List ℕ) → next (255 ∷ rest) ≡ (none, [])
unfolding next
next-end rest = refl

items_stop : (n : ℕ) (buf : List ℕ) → (next buf).0 ≡ none → items (suc n) buf ≡ []
unfolding items
items_stop n buf e = rw (e, items) refl

items_go :
    (n : ℕ) (buf : List ℕ) (o : ℕ × List ℕ) (rest : List ℕ)
    → next buf ≡ (some o, rest)
    → items (suc n) buf ≡ o ∷ items n rest
unfolding items
items_go n buf o rest e =
    let left : (next buf).1 ≡ rest = ap (λ r. r.1) e in rw (e, items) (ap (λ r. o ∷ items n r) left)

items-encode :
    (os : List (ℕ × List ℕ)) (n : ℕ) (rest : List ℕ)
    → AreOptions os
    → length os < n
    → items n (encode os ++ 255 ∷ rest) ≡ os
unfolding encode
items-encode [] (suc n) rest h lt = items_stop n (255 ∷ rest) (ap (λ r. r.0) (next-end rest))
items-encode [] zero rest h lt = absurd (omega arith)
items-encode ((code, value) ∷ os) zero rest h lt = absurd (omega arith)
items-encode ((code, value) ∷ os) (suc n) rest (o, h) lt =
    rw (append_assoc value (encode os) (255 ∷ rest)) (
      items_go n _ (code, value) (encode os ++ 255 ∷ rest)
        (next-option code value (encode os ++ 255 ∷ rest) o)
      ∙ ap (◌∷◌ (code, value)) (items-encode os n rest h (omega arith)))

-- `option` for each of a list, until one does not fit.
pub write_all : OptionsWriter → List (ℕ × List ℕ) → OptionsWriter × Bool
write_all w [] = (w, true)
write_all w ((code, value) ∷ os) =
    let (w', ok) = option w code value in
    let rest = write_all w' os in if ok then rest else (w', false)

length-encode : (os : List (ℕ × List ℕ)) → length os ≤ length (encode os)
unfolding encode
length-encode [] = omega arith
length-encode ((code, value) ∷ os) =
    omega (arith, length-append value (encode os), length-encode os)

option_fits :
    (w : OptionsWriter) (code : ℕ) (value : List ℕ)
    → length value ≤ 255
    → length w.written + (2 + length value) ≤ w.capacity
    → option w code value ≡ (record w { written = w.written ++ code ∷ length value ∷ value }, true)
unfolding option
option_fits w code value h room = ground arith

write_all_lem :
    (w : OptionsWriter) (os : List (ℕ × List ℕ))
    → AreOptions os
    → length w.written + length (encode os) ≤ w.capacity
    → write_all w os ≡ (record w { written = w.written ++ encode os }, true)
unfolding write_all encode
write_all_lem w [] h room = ap (λ t. (record w { written = t }, true)) (sym (append_nil w.written))
write_all_lem w ((code, value) ∷ os) (o, h) room =
    let fits = option_fits w code value o.2 (omega (arith, length-append value (encode os))) in
    let w' : OptionsWriter = record w { written = w.written ++ code ∷ length value ∷ value } in
    let rest = write_all_lem w' os h (
      omega (
        arith,
        length-append value (encode os),
        length-append w.written (code ∷ length value ∷ value),
      )) in
    rw (fits, rest)
      (ap (λ t. (record w { written = t }, true))
        (append_assoc w.written (code ∷ length value ∷ value) (encode os)))

-- A lookup in written options, with whatever follows the end marker.
pub get-encode :
    (os : List (ℕ × List ℕ)) (post : List ℕ) (code : ℕ)
    → AreOptions os
    → get (encode os ++ 255 ∷ post) code ≡ find code os
unfolding get
get-encode os post code h = ap (find code) (
    items-encode os (length (encode os ++ 255 ∷ post)) post h
      (omega (arith, length-encode os, length-append (encode os) (255 ∷ post))))

pub from_be_bytes-be_bytes : (a : ℕ) → a < 2 ^ 32 → from_be_bytes (be_bytes a) ≡ some a
unfolding from_be_bytes
from_be_bytes-be_bytes a h = ap some (omega arith)

-- Options with codes other than 0 and 255 and values of at most 255 bytes, which fit into the
-- buffer with the end marker, are all written; read back, with whatever follows in the message,
-- they are the same options in the same order, and a lookup of a code finds the first of them with
-- that code.
pub read_written :
    (capacity : ℕ) (os : List (ℕ × List ℕ)) (post : List ℕ) (code : ℕ)
    → AreOptions os
    → length (encode os) < capacity
    → ((write_all (writer capacity) os).1 ≡ true)
      × ((end (write_all (writer capacity) os).0).1 ≡ true)
      × (items
            (length ((end (write_all (writer capacity) os).0).0.written ++ post))
            ((end (write_all (writer capacity) os).0).0.written ++ post)
          ≡ os)
      × (get ((end (write_all (writer capacity) os).0).0.written ++ post) code ≡ find code os)
unfolding writer end get
read_written capacity os post code h room =
    rw (written, ended, append_assoc (encode os) (255 ∷ []) post)
      (refl, refl, back, ap (find code) back)
  where
    written :
        write_all (writer capacity) os ≡ (record { capacity = capacity; written = encode os }, true)
    written = write_all_lem (writer capacity) os h (omega arith)

    ended :
        end (record { capacity = capacity; written = encode os })
        ≡ (record { capacity = capacity; written = encode os ++ 255 ∷ [] }, true)
    ended = ground arith

    back : items (length (encode os ++ 255 ∷ post)) (encode os ++ 255 ∷ post) ≡ os
    back =
        items-encode os (length (encode os ++ 255 ∷ post)) post h
          (omega (arith, length-encode os, length-append (encode os) (255 ∷ post)))
