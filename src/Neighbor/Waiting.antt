-- ===== src/Neighbor/Waiting.antt =====
-- src/router/neighbor.rs: the packets that wait for an address, the bounds on them, and their
-- order.
use userspace_router.Base.Map
use userspace_router.Base.Map.{
  Map, IsMap, lookup-insert, lookup-remove, insert-IsMap, remove-IsMap, retain-IsMap,
}
use userspace_router.Base.{
  nat_eq, ℕ, ◌+◌, ◌≤◌, ◌≡◌, ◌==◌, refl, false, Option, none, some, List, [], ◌∷◌, ◌++◌, leb, length,
  length-append, is_nil, arith, inl, inr, Option-cases, Bool-cases, subst,
}
use userspace_router.Neighbor.{
  NeighborTable, Pending, Action, queued, drop, build_request, enqueue, entry_or_new,
}

module _ {ℓ} {P : Type ℓ} where
  abbrev pub packets_or_nil : Option (Pending P) → List P
  packets_or_nil none = []
  packets_or_nil (some p) = p.packets

  -- The packets that wait for an address, oldest first.
  unfoldable pub waiting : NeighborTable P → ℕ → List P
  waiting t ip = packets_or_nil (Map.lookup ip t.pending)

  -- Between one and four packets wait for an address, after one to three requests.
  pub record IsBounded (p : Pending P) : Type 0 where
    pub some_packet : 1 ≤ length p.packets
    pub few_packets : length p.packets ≤ 4
    pub asked : 1 ≤ p.attempts
    pub few_attempts : p.attempts ≤ 3

  pub record IsWell (t : NeighborTable P) : Type ℓ where
    pub cache_keys : IsMap t.cache
    pub resolved_keys : IsMap t.resolved
    pub pending_keys : IsMap t.pending
    pub bounded : (ip : ℕ) (p : Pending P) → Map.lookup ip t.pending ≡ some p → IsBounded p

  length-pushed : (xs : List P) (x : P) → length (xs ++ x ∷ []) ≡ length xs + 1
  length-pushed xs x = omega (arith, length-append xs (x ∷ []))

  pub is_nil-false : (xs : List P) → 1 ≤ length xs → is_nil xs ≡ false
  is_nil-false [] h = absurd (omega arith)
  is_nil-false (x ∷ xs) h = refl

  pub insert-bounded :
      (t : NeighborTable P) (target : ℕ) (p : Pending P)
      → IsWell t
      → IsBounded p
      → IsWell (record t { pending = Map.insert target p t.pending })
  insert-bounded t target p w b = record {
    cache_keys = w.cache_keys;
    resolved_keys = w.resolved_keys;
    pending_keys = insert-IsMap target p t.pending w.pending_keys;
    bounded = λ ip q e. elim (Bool-cases (target == ip)) [
      | inl same ↦
          let h : p ≡ q = ground (arith, e, same, lookup-insert target ip p t.pending) in
          subst IsBounded h b
      | inr other ↦ w.bounded ip q (ground (arith, e, other, lookup-insert target ip p t.pending))
    ];
  }

  -- What a packet for an unknown address does.
  pub data Enqueues (t : NeighborTable P) (target : ℕ) (packet : P) (buf_len : ℕ)
      : NeighborTable P × Action P → Type ℓ where
    first :
        (p : Pending P)
        → waiting t target ≡ []
        → p.packets ≡ packet ∷ []
        → IsBounded p
        → Enqueues t target packet buf_len (
          record t { pending = Map.insert target p t.pending },
          queued (build_request buf_len t.our_mac t.our_ip target),
        )
    more :
        (p : Pending P)
        → 1 ≤ length (waiting t target)
        → length (waiting t target) ≤ 3
        → p.packets ≡ waiting t target ++ packet ∷ []
        → IsBounded p
        → Enqueues t target packet buf_len
            (record t { pending = Map.insert target p t.pending }, queued none)
    full :
        (p : Pending P)
        → Map.lookup target t.pending ≡ some p
        → length p.packets ≡ 4
        → Enqueues t target packet buf_len
            (record t { pending = Map.insert target p t.pending }, drop packet)

  pub enqueue-Enqueues :
      (t : NeighborTable P) (target : ℕ) (packet : P) (buf_len now : ℕ)
      → IsWell t
      → Enqueues t target packet buf_len
          (enqueue t target (entry_or_new (Map.lookup target t.pending) now) packet buf_len now)
  unfolding enqueue waiting
  enqueue-Enqueues t target packet buf_len now w =
      elim (Option-cases (Map.lookup target t.pending)) [
        | inl absent ↦ rw absent (
            first (record { packets = packet ∷ []; last_request_at = now; attempts = 1 })
              (rw absent refl) refl
              (record {
                some_packet = omega arith;
                few_packets = omega arith;
                asked = omega arith;
                few_attempts = omega arith;
              }))
        | inr (p, e) ↦ rw e (present p e)
      ]
    where
      present :
          (p : Pending P)
          → Map.lookup target t.pending ≡ some p
          → Enqueues t target packet buf_len (enqueue t target p packet buf_len now)
      present p e =
          let b = w.bounded target p e in
          let some_waiting : is_nil p.packets ≡ false = is_nil-false p.packets b.some_packet in
          elim (Bool-cases (leb 4 (length p.packets))) [
            | inl four ↦ rw (four, enqueue) (full p e (ground (arith, b.few_packets)))
            | inr fewer ↦
                let n : length p.packets ≤ 3 = ground arith in
                rw (fewer, enqueue, some_waiting)
                  (more (record p { packets = p.packets ++ packet ∷ [] }) (rw e b.some_packet)
                    (rw e n) (rw e refl)
                    (record {
                      some_packet = omega (arith, length-pushed p.packets packet);
                      few_packets = omega (arith, length-pushed p.packets packet);
                      asked = b.asked;
                      few_attempts = b.few_attempts;
                    }))
          ]
