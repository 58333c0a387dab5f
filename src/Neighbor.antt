-- ===== src/Neighbor.antt =====
-- src/router/neighbor.rs: the resolver `NeighborTable`, with its cache, the packets that wait for
-- an address and the requests. MAC and IPv4 addresses are numbers, times are milliseconds; packets
-- are of any type. A request is its addresses; the frame of 42 bytes around them is that of
-- src/net/arp.rs.
pub mod Waiting
pub mod Resolve
pub mod Sweep
mod Tests
use userspace_router.Base.{
  nat_eq, ℕ, ◌+◌, ◌-◌, Bool, true, false, Option, none, some, List, [], ◌∷◌, ◌++◌, if◌then◌else◌,
  ltb, leb, length, is_some, is_nil, map,
}
use userspace_router.Base.Map
use userspace_router.Base.Map.{Map, remove, retain}

pub record CachedEntry : Type 0 where
  pub mac : ℕ
  pub learned_at : ℕ

pub record Pending {ℓ} (P : Type ℓ) : Type ℓ where
  pub packets : List P
  pub last_request_at : ℕ
  pub attempts : ℕ

pub record NeighborTable {ℓ} (P : Type ℓ) : Type ℓ where
  pub our_mac : ℕ
  pub our_ip : ℕ
  pub resolved : Map ℕ ℕ
  pub cache : Map ℕ CachedEntry
  pub pending : Map ℕ (Pending P)

-- Who has `target_ip`?
pub record ArpRequest : Type 0 where
  pub sender_mac : ℕ
  pub sender_ip : ℕ
  pub target_ip : ℕ

-- `none` where the buffer is shorter than a frame.
pub build_request : ℕ → ℕ → ℕ → ℕ → Option ArpRequest
build_request buf_len mac ip target =
    if ltb buf_len 42
    then none
    else some (record { sender_mac = mac; sender_ip = ip; target_ip = target })

-- `queued` has the request that goes out with the packet, if one does.
pub data Action {ℓ} (P : Type ℓ) : Type ℓ where
  forward : ℕ → P → Action P
  queued : Option ArpRequest → Action P
  drop : P → Action P

module _ {ℓ} {P : Type ℓ} where
  pub new : ℕ → ℕ → NeighborTable P
  new mac ip = record { our_mac = mac; our_ip = ip; resolved = []; cache = []; pending = [] }

  pub set_our_ip : NeighborTable P → ℕ → NeighborTable P
  set_our_ip t ip = record t { our_ip = ip }

  pub known : NeighborTable P → ℕ
  known t = length t.cache

  pub pending_targets : NeighborTable P → ℕ
  pending_targets t = length t.pending

  pub lookup : NeighborTable P → ℕ → Option ℕ
  lookup t ip = elim (Map.lookup ip t.cache) [ none ↦ none | some e ↦ some e.mac ]

  pub reverse_lookup : NeighborTable P → ℕ → Option ℕ
  reverse_lookup t mac = Map.lookup mac t.resolved

  pub insert : NeighborTable P → ℕ → ℕ → ℕ → NeighborTable P
  insert t ip mac now = record t {
    cache = Map.insert ip (record { mac = mac; learned_at = now }) t.cache;
    resolved = Map.insert mac ip t.resolved;
  }

  -- `entry(..).or_insert_with(..)`
  abbrev pub entry_or_new : Option (Pending P) → ℕ → Pending P
  entry_or_new none now = record { packets = []; last_request_at = now; attempts = 0 }
  entry_or_new (some p) now = p

  -- A cache miss, with the entry of the target.
  pub enqueue : NeighborTable P → ℕ → Pending P → P → ℕ → ℕ → NeighborTable P × Action P
  enqueue t target p packet buf_len now =
      let pushed = p.packets ++ packet ∷ [] in
      if leb 4 (length p.packets)
      then (record t { pending = Map.insert target p t.pending }, drop packet)
      else (if is_nil p.packets
          then (
            record t {
              pending =
                  Map.insert target
                    (record { packets = pushed; last_request_at = now; attempts = 1 }) t.pending;
            },
            queued (build_request buf_len t.our_mac t.our_ip target),
          )
          else (
            record t { pending = Map.insert target (record p { packets = pushed }) t.pending },
            queued none,
          ))

  -- `buf_len` is the length of the buffer for the request.
  pub resolve : NeighborTable P → ℕ → P → ℕ → ℕ → NeighborTable P × Action P
  unfolding enqueue
  resolve t target packet buf_len now = elim (Map.lookup target t.cache) [
    | some e ↦ (t, forward e.mac packet)
    | none ↦ enqueue t target (entry_or_new (Map.lookup target t.pending) now) packet buf_len now
  ]

  -- What waited is handed out unless it is nothing.
  abbrev pub drained : ℕ → Option (Pending P) → Option (ℕ × List P)
  drained mac none = none
  drained mac (some p) = if is_nil p.packets then none else some (mac, p.packets)

  pub on_arp : NeighborTable P → ℕ → ℕ → ℕ → NeighborTable P × Option (ℕ × List P)
  unfolding insert
  on_arp t ip mac now = (
    record (insert t ip mac now) { pending = remove ip t.pending },
    drained mac (Map.lookup ip t.pending),
  )

  -- The closure of `sweep` on one target: what stays of it, whether it is asked for again, and the
  -- packets given up.
  pub retry : ℕ → Pending P → Option (Pending P) × Bool × List P
  retry now p =
      if ltb (now - p.last_request_at) 1000
      then (some p, false, [])
      else (if leb 3 p.attempts
          then (none, false, p.packets)
          else (some (record p { last_request_at = now; attempts = p.attempts + 1 }), true, []))

  abbrev pub keep : ℕ → Option (Pending P) → Map ℕ (Pending P) → Map ℕ (Pending P)
  keep target none m = m
  keep target (some p) m = (target, p) ∷ m

  -- `pending.retain`: what stays, the targets asked for and the packets given up.
  pub retry_all : ℕ → Map ℕ (Pending P) → Map ℕ (Pending P) × List ℕ × List P
  retry_all now [] = ([], [], [])
  retry_all now ((target, p) ∷ m) =
      let r = retry now p in
      let rest = retry_all now m in
      (keep target r.0 rest.0, (if r.1 then target ∷ rest.1 else rest.1), r.2 ++ rest.2)

  pub sweep : NeighborTable P → ℕ → NeighborTable P × List ArpRequest × List P
  sweep t now =
      let r = retry_all now t.pending in
      let cache = retain (λ _ e. ltb (now - e.learned_at) 300_000) t.cache in
      (
        record t {
          pending = r.0;
          cache = cache;
          resolved = retain (λ _ ip. is_some (Map.lookup ip cache)) t.resolved;
        },
        map (λ target. record { sender_mac = t.our_mac; sender_ip = t.our_ip; target_ip = target })
            r.1,
        r.2,
      )
