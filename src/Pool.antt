-- ===== src/Pool.antt =====
-- src/router/pool.rs: the DHCP address pool, a vector of intervals of free addresses. An `Ipv4Addr`
-- is the number below 2 ^ 32 that `u32::from` gives. Additions on a `u32` wrap where they can
-- overflow, as in the release profile; where an index would be out of range the source panics, and
-- here nothing happens.
pub mod Cover
pub mod Reserve
pub mod Release
pub mod Take
pub mod First
mod Tests
use userspace_router.Base.{
  ℕ, zero, suc, ◌+◌, ◌-◌, ◌%◌, ◌^◌, ◌≤◌, Bool, true, false, ◌&&◌, Option, none, some, List, [], ◌∷◌,
  ◌++◌, if◌then◌else◌, ltb, leb, ◌==◌, get_elem?, set, remove_at, insert_at, length, drop,
}

-- `(start, end)` of a free interval, both included.
abbrev pub Interval : Type 0
Interval = ℕ × ℕ

pub record AddressPool : Type 0 where
  pub start : ℕ
  pub end : ℕ
  pub intervals : List Interval

-- `new` asserts `start <= end`.
pub new : ℕ → ℕ → Option AddressPool
new s e = if leb s e then some (record { start = s; end = e; intervals = (s, e) ∷ [] }) else none

-- `slice::partition_point`: how many leading elements satisfy the predicate.
pub partition_point : (Interval → Bool) → List Interval → ℕ
partition_point p [] = 0
partition_point p (iv ∷ ivs) = let rest = partition_point p ivs in if p iv then suc rest else 0

-- The branches of `reserve` at the candidate interval.
split_at : ℕ → ℕ → Interval → List Interval → List Interval × Option ℕ
split_at addr idx (s, e) ivs =
    if ltb e addr
    then (ivs, none)
    else (if (s == addr) && (e == addr)
        then (remove_at idx ivs, some addr)
        else (if s == addr
            then (set ivs idx (addr + 1, e), some addr)
            else (if e == addr
                then (set ivs idx (s, addr - 1), some addr)
                else (set (insert_at (suc idx) (addr + 1, e) ivs) idx (s, addr - 1), some addr))))

-- `pos` intervals start at or below the address; the last of them is the candidate.
reserve_at : ℕ → ℕ → List Interval → List Interval × Option ℕ
unfolding split_at
reserve_at zero addr ivs = (ivs, none)
reserve_at (suc idx) addr ivs = elim (get_elem? ivs idx) [
  | none ↦ (ivs, none)
  | some iv ↦ split_at addr idx iv ivs
]

pub reserve_in : ℕ → List Interval → List Interval × Option ℕ
unfolding reserve_at
reserve_in addr ivs = reserve_at (partition_point (λ iv. leb iv.0 addr) ivs) addr ivs

pub reserve : AddressPool → ℕ → AddressPool × Option ℕ
unfolding reserve_in
reserve p addr = let (ivs, out) = reserve_in addr p.intervals in (record p { intervals = ivs }, out)

-- `u32::from(e) - u32::from(s) + 1`, computed in a `u32`: 0 for the interval of all addresses.
unfoldable pub wrapped_span : ℕ → ℕ → ℕ
wrapped_span s e = (e + 2 ^ 32 - s + 1) % 2 ^ 32

-- The first loop of `take`: addresses counted until `n` are found.
available : ℕ → ℕ → List Interval → ℕ
available n count [] = count
available n count ((s, e) ∷ ivs) =
    let rest = available n (count + wrapped_span s e) ivs in
    if leb n (count + wrapped_span s e) then count + wrapped_span s e else rest

-- `n` addresses from `s` on.
unfoldable pub addresses : ℕ → ℕ → List ℕ
addresses s zero = []
addresses s (suc n) = s ∷ addresses (suc s) n

-- The second loop of `take`: consumes whole intervals, `s..=e`, then shortens one, to start at
-- `s + remaining` in a `u32`. The intervals behind `full_consumed` are what `drain` leaves.
consume : ℕ → List Interval → List ℕ × List Interval
consume remaining [] = ([], [])
consume remaining ((s, e) ∷ ivs) =
    let more = consume (remaining - wrapped_span s e) ivs in
    if leb (wrapped_span s e) remaining
    then (if remaining - wrapped_span s e == 0
        then (addresses s (e + 1 - s), ivs)
        else (addresses s (e + 1 - s) ++ more.0, more.1))
    else (addresses s ((s + remaining) % 2 ^ 32 - s), ((s + remaining) % 2 ^ 32, e) ∷ ivs)

unfoldable pub take_in : ℕ → List Interval → Option (List ℕ × List Interval)
unfolding available consume
take_in n ivs = if ltb (available n 0 ivs) n then none else some (consume n ivs)

-- `none` leaves the pool unchanged.
unfoldable pub take : AddressPool → ℕ → AddressPool × Option (List ℕ)
unfolding take_in
take p n = elim (take_in n p.intervals) [
  | none ↦ (p, none)
  | some (out, ivs) ↦ (record p { intervals = ivs }, some out)
]

abbrev pub interval_or : Option Interval → Interval
interval_or none = (0, 0)
interval_or (some iv) = iv

-- The four cases of `release` at `pos = i + 1`, by whether the left and the right neighbour touch
-- the address.
merge : Bool → Bool → ℕ → ℕ → Interval → Interval → List Interval → List Interval
merge true true ip i left right ivs = remove_at (suc i) (set ivs i (left.0, right.1))
merge true false ip i left right ivs = set ivs i (left.0, ip)
merge false true ip i left right ivs = set ivs (suc i) (ip, right.1)
merge false false ip i left right ivs = insert_at (suc i) (ip, ip) ivs

-- At `pos = 0` there is no left neighbour.
merge_first : Bool → ℕ → Interval → List Interval → List Interval
merge_first true ip right ivs = set ivs 0 (ip, right.1)
merge_first false ip right ivs = insert_at 0 (ip, ip) ivs

-- `pos < len` and the interval there starts right behind the address.
abbrev right_adj : ℕ → ℕ → List Interval → Bool
right_adj pos ip ivs =
    ltb pos (length ivs) && ((interval_or (get_elem? ivs pos)).0 == (ip + 1) % 2 ^ 32)

release_at : ℕ → ℕ → List Interval → List Interval
unfolding merge merge_first
release_at zero ip ivs = merge_first (right_adj 0 ip ivs) ip (interval_or (get_elem? ivs 0)) ivs
release_at (suc i) ip ivs =
    merge (((interval_or (get_elem? ivs i)).1 + 1) % 2 ^ 32 == ip) (right_adj (suc i) ip ivs) ip i
      (interval_or (get_elem? ivs i)) (interval_or (get_elem? ivs (suc i))) ivs

pub release_in : ℕ → List Interval → List Interval
unfolding release_at
release_in ip ivs = release_at (partition_point (λ iv. ltb iv.0 ip) ivs) ip ivs

-- `none` is the panic of the assertion that the address lies in the bounds of the pool.
pub release : AddressPool → ℕ → Option AddressPool
unfolding release_in
release p ip =
    if leb p.start ip && leb ip p.end
    then some (record p { intervals = release_in ip p.intervals })
    else none
