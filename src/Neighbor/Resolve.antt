-- ===== src/Neighbor/Resolve.antt =====
-- src/router/neighbor.rs: what `resolve` and `on_arp` do on every branch, and the way of a packet
-- through the table.
use userspace_router.Base.Map
use userspace_router.Base.Map.{
  Map, IsMap, lookup-insert, lookup-insert_self, lookup-remove, insert-IsMap, remove-IsMap,
}
use userspace_router.Base.{
  nat_eq, ℕ, ◌≤◌, ◌<◌, ◌≡◌, ◌==◌, refl, ap, none, some, [], ◌∷◌, ◌++◌, if◌then◌else◌, length,
  is_nil, arith, inl, inr, Option-cases, ◌∙◌,
}
use userspace_router.Neighbor.{
  NeighborTable, Pending, CachedEntry, Action, forward, queued, drop, build_request, resolve,
  on_arp, insert, lookup,
}
use userspace_router.Neighbor.Waiting.{
  waiting, IsWell, insert-bounded, Enqueues, first, more, full, enqueue-Enqueues, is_nil-false,
}

module _ {ℓ} {P : Type ℓ} where
  waiting-insert :
      (t : NeighborTable P) (target ip : ℕ) (p : Pending P)
      → waiting (record t { pending = Map.insert target p t.pending }) ip
        ≡ (if target == ip then p.packets else waiting t ip)
  unfolding waiting
  waiting-insert t target ip p = ground (arith, lookup-insert target ip p t.pending)

  Enqueues-IsWell :
      (t : NeighborTable P) (target : ℕ) (packet : P) (buf_len : ℕ) (r : NeighborTable P × Action P)
      → IsWell t
      → Enqueues t target packet buf_len r
      → IsWell r.0
  Enqueues-IsWell t target packet buf_len _ w (first p q e b) = insert-bounded t target p w b
  Enqueues-IsWell t target packet buf_len _ w (more p lo hi e b) = insert-bounded t target p w b
  Enqueues-IsWell t target packet buf_len _ w (full p e n) =
      insert-bounded t target p w (w.bounded target p e)

  -- A packet keeps the table well-formed: at most four packets wait for an address.
  pub resolve-IsWell :
      (t : NeighborTable P) (target : ℕ) (packet : P) (buf_len now : ℕ)
      → IsWell t
      → IsWell (resolve t target packet buf_len now).0
  unfolding resolve
  resolve-IsWell t target packet buf_len now w = elim (Option-cases (Map.lookup target t.cache)) [
    | inl miss ↦
        rw (miss, resolve)
          (Enqueues-IsWell t target packet buf_len _ w
            (enqueue-Enqueues t target packet buf_len now w))
    | inr (e, hit) ↦ rw (hit, resolve) w
  ]

  -- What is promised for a packet whose address is unknown.
  record Waits (t : NeighborTable P) (target : ℕ) (packet : P) (buf_len ip : ℕ)
      (r : NeighborTable P × Action P) : Type ℓ where
    room :
        length (waiting t target) < 4
        → (waiting r.0 ip
            ≡ (if target == ip then waiting t target ++ packet ∷ [] else waiting t ip))
          × (r.1
              ≡ queued (
                  if is_nil (waiting t target)
                  then build_request buf_len t.our_mac t.our_ip target
                  else none))
    no_room : 4 ≤ length (waiting t target) → (waiting r.0 ip ≡ waiting t ip) × (r.1 ≡ drop packet)

  Enqueues-Waits :
      (t : NeighborTable P) (target : ℕ) (packet : P) (buf_len ip : ℕ)
      (r : NeighborTable P × Action P)
      → Enqueues t target packet buf_len r
      → Waits t target packet buf_len ip r
  unfolding waiting
  Enqueues-Waits t target packet buf_len ip _ (first p q e b) = record {
    room = λ h. (waiting-insert t target ip p ∙ rw (e, q) refl, rw q refl);
    no_room = λ h. absurd (ground (arith, ap length q));
  }
  Enqueues-Waits t target packet buf_len ip _ (more p lo hi e b) = record {
    room = λ h.
        (waiting-insert t target ip p ∙ rw e refl, rw (is_nil-false (waiting t target) lo) refl);
    no_room = λ h. absurd (omega arith);
  }
  Enqueues-Waits t target packet buf_len ip _ (full p e n) = record {
    room = λ h. absurd (ground (arith, e));
    no_room = λ h. (ground (arith, e, lookup-insert target ip p t.pending), refl);
  }

  hit_lem :
      (t : NeighborTable P) (ip : ℕ) (e : CachedEntry)
      → Map.lookup ip t.cache ≡ some e
      → lookup t ip ≡ some e.mac
  unfolding lookup
  hit_lem t ip e h = rw (h, lookup) refl

  miss_lem : (t : NeighborTable P) (ip : ℕ) → lookup t ip ≡ none → Map.lookup ip t.cache ≡ none
  miss_lem t ip h = elim (Option-cases (Map.lookup ip t.cache)) [
    | inl e ↦ e
    | inr (e, hit) ↦ let q = hit_lem t ip e hit in cc
  ]

  -- In a well-formed table a packet for a known address is forwarded, and the table stays as it is.
  -- For an unknown address with fewer than four packets waiting it waits behind them, and a request
  -- goes out if it is the first; with four it comes back to be dropped. Packets for other addresses
  -- keep waiting in order.
  pub resolve_lem :
      (t : NeighborTable P) (target : ℕ) (packet : P) (buf_len now ip : ℕ)
      → IsWell t
      → ((e : CachedEntry)
          → Map.lookup target t.cache ≡ some e
          → resolve t target packet buf_len now ≡ (t, forward e.mac packet))
        × (lookup t target ≡ none
            → length (waiting t target) < 4
            → (waiting (resolve t target packet buf_len now).0 ip
                ≡ (if target == ip then waiting t target ++ packet ∷ [] else waiting t ip))
              × ((resolve t target packet buf_len now).1
                  ≡ queued (
                      if is_nil (waiting t target)
                      then build_request buf_len t.our_mac t.our_ip target
                      else none)))
        × (lookup t target ≡ none
            → 4 ≤ length (waiting t target)
            → (waiting (resolve t target packet buf_len now).0 ip ≡ waiting t ip)
              × ((resolve t target packet buf_len now).1 ≡ drop packet))
  unfolding resolve
  resolve_lem t target packet buf_len now ip w =
      let q =
        Enqueues-Waits t target packet buf_len ip _
          (enqueue-Enqueues t target packet buf_len now w) in
      (
        (λ e hit. rw (hit, resolve) refl),
        (λ miss few. rw (miss_lem t target miss, resolve) (q.room few)),
        (λ miss many. rw (miss_lem t target miss, resolve) (q.no_room many)),
      )

  -- In a well-formed table an ARP packet of a host hands out, in the order of arrival, the packets
  -- that wait for it; none waits afterwards, the host is known, the packets for other hosts keep
  -- waiting, and the table is well-formed again.
  pub on_arp_lem :
      (t : NeighborTable P) (ip mac now j : ℕ)
      → IsWell t
      → ((on_arp t ip mac now).1
          ≡ (if is_nil (waiting t ip) then none else some (mac, waiting t ip)))
        × (waiting (on_arp t ip mac now).0 j ≡ (if ip == j then [] else waiting t j))
        × (lookup (on_arp t ip mac now).0 ip ≡ some mac)
        × IsWell (on_arp t ip mac now).0
  unfolding on_arp insert waiting
  on_arp_lem t ip mac now j w = (
    elim (Option-cases (Map.lookup ip t.pending)) [ inl e ↦ rw e refl | inr (p, e) ↦ rw e refl ],
    ground (arith, lookup-remove ip j t.pending w.pending_keys),
    hit_lem (on_arp t ip mac now).0 ip (record { mac = mac; learned_at = now })
        (lookup-insert_self ip (record { mac = mac; learned_at = now }) t.cache),
    record {
      cache_keys = insert-IsMap ip (record { mac = mac; learned_at = now }) t.cache w.cache_keys;
      resolved_keys = insert-IsMap mac ip t.resolved w.resolved_keys;
      pending_keys = remove-IsMap ip t.pending w.pending_keys;
      bounded =
          λ k p e. w.bounded k p (ground (arith, e, lookup-remove ip k t.pending w.pending_keys));
    },
  )
