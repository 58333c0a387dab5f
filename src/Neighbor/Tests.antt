-- ===== src/Neighbor/Tests.antt =====
-- src/router/neighbor.rs: packets that are numbers.
use userspace_router.Base.Map
use userspace_router.Base.{
  nat_eq, ℕ, ◌≡◌, ◌==◌, ◌+◌, ◌≤◌, ◌<◌, none, some, [], ◌∷◌, ◌++◌, length, is_nil, if◌then◌else◌,
}
use userspace_router.Neighbor.{
  NeighborTable, Pending, CachedEntry, forward, queued, drop, resolve, on_arp, sweep, lookup,
  build_request,
}
use userspace_router.Neighbor.Waiting.{waiting, IsWell}
use userspace_router.Neighbor.Resolve.{resolve-IsWell, resolve_lem, on_arp_lem}
use userspace_router.Neighbor.Sweep.{sweep_conserves, total}

abbrev empty : NeighborTable ℕ
empty = record { our_mac = 2; our_ip = 1; resolved = []; cache = []; pending = [] }

empty-IsWell : IsWell empty
unfolding Map.lookup
empty-IsWell = record {
  cache_keys = tt;
  resolved_keys = tt;
  pending_keys = tt;
  bounded = λ ip p e. cc;
}

-- One packet waits for host 9.
abbrev asking : NeighborTable ℕ
asking = (resolve empty 9 70 60 5000).0

asking-IsWell : IsWell asking
asking-IsWell = resolve-IsWell empty 9 70 60 5000 empty-IsWell

abbrev entry : Pending ℕ
entry = record { packets = 70 ∷ []; last_request_at = 5000; attempts = 1 }

resolve_lem_example :
    ((e : CachedEntry)
      → Map.lookup 9 asking.cache ≡ some e
      → resolve asking 9 71 60 5001 ≡ (asking, forward e.mac 71))
    × (lookup asking 9 ≡ none
        → length (waiting asking 9) < 4
        → (waiting (resolve asking 9 71 60 5001).0 9
            ≡ (if 9 == 9 then waiting asking 9 ++ 71 ∷ [] else waiting asking 9))
          × ((resolve asking 9 71 60 5001).1
              ≡ queued (
                  if is_nil (waiting asking 9)
                  then build_request 60 asking.our_mac asking.our_ip 9
                  else none)))
    × (lookup asking 9 ≡ none
        → 4 ≤ length (waiting asking 9)
        → (waiting (resolve asking 9 71 60 5001).0 9 ≡ waiting asking 9)
          × ((resolve asking 9 71 60 5001).1 ≡ drop 71))
resolve_lem_example = resolve_lem asking 9 71 60 5001 9 asking-IsWell

sweep_conserves_example :
    (total (sweep asking 6500).0.pending + length (sweep asking 6500).2 ≡ total asking.pending)
    × IsWell (sweep asking 6500).0
sweep_conserves_example = sweep_conserves asking 6500 asking-IsWell

-- Host 9 has been heard at time 0.
abbrev learned : NeighborTable ℕ
learned = (on_arp empty 9 33 0).0

learned-IsWell : IsWell learned
learned-IsWell = (on_arp_lem empty 9 33 0 9 empty-IsWell).3
