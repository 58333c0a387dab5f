-- ===== src/Options.antt =====
-- src/net/dhcp.rs: the options region of a DHCP message, read by `OptionsIter` and `Options` and
-- written by `OptionsWriter`. A byte slice is a list of numbers below 256.
pub mod RoundTrip
mod Tests
use mathlib.Core.Option
use userspace_router.Base
use userspace_router.Base.{
  ℕ, zero, suc, ◌+◌, ◌*◌, ◌/◌, ◌%◌, ◌^◌, Bool, true, false, ◌||◌, Option, none, some, List, [], ◌∷◌,
  ◌++◌, if◌then◌else◌, ltb, leb, ◌==◌, length, drop,
}

read_option : ℕ → List ℕ → Option (ℕ × List ℕ) × List ℕ
read_option code [] = (none, code ∷ [])
read_option code (len ∷ rest) =
    if ltb (length rest) len then (none, []) else (some (code, Base.take len rest), drop len rest)

-- `OptionsIter::next`: the option, and the bytes left.
pub next : List ℕ → Option (ℕ × List ℕ) × List ℕ
unfolding read_option
next [] = (none, [])
next (code ∷ rest) =
    let behind_pad = next rest in
    if code == 0 then behind_pad else (if code == 255 then (none, []) else read_option code rest)

-- What `OptionsIter` yields, by a bound on the number of options.
pub items : ℕ → List ℕ → List (ℕ × List ℕ)
items zero buf = []
items (suc n) buf =
    let rest = items n (next buf).1 in elim (next buf).0 [ none ↦ [] | some o ↦ o ∷ rest ]

unfoldable pub find : ℕ → List (ℕ × List ℕ) → Option (List ℕ)
find code [] = none
find code ((c, v) ∷ os) = if c == code then some v else find code os

-- `Options::get`; there are fewer options than bytes.
unfoldable pub get : List ℕ → ℕ → Option (List ℕ)
get bytes code = find code (items (length bytes) bytes)

-- `u32::to_be_bytes`, which is also `Ipv4Addr::octets`
abbrev pub be_bytes : ℕ → List ℕ
be_bytes a = a / 2 ^ 24 % 256 ∷ a / 2 ^ 16 % 256 ∷ a / 2 ^ 8 % 256 ∷ a % 256 ∷ []

-- `opt_ipv4` and `opt_seconds`: four bytes, no more and no less.
unfoldable pub from_be_bytes : List ℕ → Option ℕ
from_be_bytes (a ∷ b ∷ c ∷ d ∷ []) = some (a * 2 ^ 24 + b * 2 ^ 16 + c * 2 ^ 8 + d)
from_be_bytes _ = none

unfoldable pub server_id : List ℕ → Option ℕ
server_id bytes = Option.bind (get bytes 54) from_be_bytes

unfoldable pub requested_ip : List ℕ → Option ℕ
requested_ip bytes = Option.bind (get bytes 50) from_be_bytes

unfoldable pub subnet_mask : List ℕ → Option ℕ
subnet_mask bytes = Option.bind (get bytes 1) from_be_bytes

unfoldable pub lease_time : List ℕ → Option ℕ
lease_time bytes = Option.bind (get bytes 51) from_be_bytes

-- The bytes written so far, `buf[..len]`, in a buffer of `capacity` bytes.
pub record OptionsWriter : Type 0 where
  pub capacity : ℕ
  pub written : List ℕ

unfoldable pub writer : ℕ → OptionsWriter
writer capacity = record { capacity = capacity; written = [] }

-- The result says whether the option fits.
unfoldable pub option : OptionsWriter → ℕ → List ℕ → OptionsWriter × Bool
option w code value =
    if ltb 255 (length value) || ltb w.capacity (length w.written + (2 + length value))
    then (w, false)
    else (record w { written = w.written ++ code ∷ length value ∷ value }, true)

unfoldable pub ipv4 : OptionsWriter → ℕ → ℕ → OptionsWriter × Bool
ipv4 w code addr = option w code (be_bytes addr)

unfoldable pub seconds : OptionsWriter → ℕ → ℕ → OptionsWriter × Bool
seconds w code secs = option w code (be_bytes secs)

unfoldable pub octets : List ℕ → List ℕ
octets [] = []
octets (a ∷ as') = be_bytes a ++ octets as'

unfoldable pub ipv4_list : OptionsWriter → ℕ → List ℕ → OptionsWriter × Bool
ipv4_list w code addrs =
    let vlen = length addrs * 4 in
    if ltb 255 vlen || ltb w.capacity (length w.written + 2 + vlen)
    then (w, false)
    else (record w { written = w.written ++ code ∷ vlen ∷ octets addrs }, true)

unfoldable pub end : OptionsWriter → OptionsWriter × Bool
end w =
    if ltb w.capacity (length w.written + 1)
    then (w, false)
    else (record w { written = w.written ++ 255 ∷ [] }, true)
