-- ===== src/Neighbor/Sweep.antt =====
-- src/router/neighbor.rs: retransmission, giving up and ageing in `sweep`.
use userspace_router.Base.Map
use userspace_router.Base.Map.{Map, IsMap, retain, lookup-retain, retain-IsMap, keep_if}
use userspace_router.Base.{
  nat_eq, ℕ, ◌+◌, ◌-◌, ◌≤◌, ◌≡◌, ◌≢◌, ◌==◌, refl, ap, Bool, true, false, Option, none, some, [],
  ◌∷◌, if◌then◌else◌, ltb, length, length-append, is_some, arith, inl, inr, Option-cases,
  Bool-cases, subst, ◌∙◌, sym,
}
use userspace_router.Neighbor.{
  NeighborTable, Pending, CachedEntry, retry, retry_all, keep, sweep, lookup, reverse_lookup,
}
use userspace_router.Neighbor.Waiting.{IsBounded, IsWell}

kept_if : (f : ℕ → Bool) (o : Option ℕ) (v : ℕ) → keep_if f o ≡ some v → f v ≡ true
kept_if f none v e = cc
kept_if f (some u) v e = elim (Bool-cases (f u)) [
  | inl yes_kept ↦ let same : u ≡ v = ground arith in subst (λ x. f x ≡ true) same yes_kept
  | inr not_kept ↦ ground arith
]

module _ {ℓ} {P : Type ℓ} where
  -- How many packets wait altogether.
  pub total : Map ℕ (Pending P) → ℕ
  total [] = 0
  total ((ip, p) ∷ m) = length p.packets + total m

  -- What a sweep leaves of an entry.
  abbrev after : ℕ → Option (Pending P) → Option (Pending P)
  after now none = none
  after now (some p) = (retry now p).0

  retry_all_absent :
      (now ip : ℕ) (m : Map ℕ (Pending P))
      → Map.lookup ip m ≡ none
      → Map.lookup ip (retry_all now m).0 ≡ none
  unfolding retry_all Map.lookup
  retry_all_absent now ip [] h = refl
  retry_all_absent now ip ((j, p) ∷ m) h = elim (Option-cases (retry now p).0) [
    | inl e ↦ rw e (retry_all_absent now ip m (ground arith))
    | inr (q, e) ↦ rw e (ground (arith, retry_all_absent now ip m))
  ]

  retry_all-IsMap : (now : ℕ) (m : Map ℕ (Pending P)) → IsMap m → IsMap (retry_all now m).0
  unfolding retry_all Map.lookup
  retry_all-IsMap now [] h = tt
  retry_all-IsMap now ((j, p) ∷ m) (a, h) = elim (Option-cases (retry now p).0) [
    | inl e ↦ rw e (retry_all-IsMap now m h)
    | inr (q, e) ↦ rw e (retry_all_absent now j m a, retry_all-IsMap now m h)
  ]

  keep_same :
      (o : Option (Pending P)) (j ip : ℕ) (m : Map ℕ (Pending P))
      → (j == ip) ≡ true
      → Map.lookup j m ≡ none
      → Map.lookup ip (keep j o m) ≡ o
  unfolding Map.lookup
  keep_same none j ip m same absent =
      let q : j ≡ ip = ground arith in subst (λ i. Map.lookup i m ≡ none) q absent
  keep_same (some p) j ip m same absent = rw same refl

  keep_other :
      (o : Option (Pending P)) (j ip : ℕ) (m : Map ℕ (Pending P))
      → (j == ip) ≡ false
      → Map.lookup ip (keep j o m) ≡ Map.lookup ip m
  unfolding Map.lookup
  keep_other none j ip m other = refl
  keep_other (some p) j ip m other = rw other refl

  lookup-retry_all :
      (now ip : ℕ) (m : Map ℕ (Pending P))
      → IsMap m
      → Map.lookup ip (retry_all now m).0 ≡ after now (Map.lookup ip m)
  unfolding retry_all Map.lookup
  lookup-retry_all now ip [] h = refl
  lookup-retry_all now ip ((j, p) ∷ m) (a, h) = elim (Bool-cases (j == ip)) [
    | inl same ↦ rw same (keep_same (retry now p).0 j ip _ same (retry_all_absent now j m a))
    | inr other ↦ rw other (keep_other (retry now p).0 j ip _ other ∙ lookup-retry_all now ip m h)
  ]

  entry_length : Option (Pending P) → ℕ
  entry_length none = 0
  entry_length (some p) = length p.packets

  total-keep :
      (j : ℕ) (o : Option (Pending P)) (m : Map ℕ (Pending P))
      → total (keep j o m) ≡ entry_length o + total m
  unfolding total entry_length
  total-keep j none m = omega arith
  total-keep j (some p) m = refl

  retry-length :
      (now : ℕ) (p : Pending P)
      → entry_length (retry now p).0 + length (retry now p).2 ≡ length p.packets
  unfolding retry entry_length
  retry-length now p = ground arith

  total-retry_all :
      (now : ℕ) (m : Map ℕ (Pending P))
      → total (retry_all now m).0 + length (retry_all now m).2 ≡ total m
  unfolding total retry_all
  total-retry_all now [] = omega arith
  total-retry_all now ((j, p) ∷ m) = omega (
    arith,
    total-keep j (retry now p).0 (retry_all now m).0,
    retry-length now p,
    length-append (retry now p).2 (retry_all now m).2,
    total-retry_all now m,
  )

  -- What stays is bounded again.
  retry-IsBounded :
      (now : ℕ) (p q : Pending P) → IsBounded p → (retry now p).0 ≡ some q → IsBounded q
  unfolding retry
  retry-IsBounded now p q b e = record {
    some_packet = ground (arith, e, b);
    few_packets = ground (arith, e, b);
    asked = ground (arith, e, b);
    few_attempts = ground (arith, e, b);
  }

  after-some :
      (now : ℕ) (o : Option (Pending P)) (q : Pending P)
      → after now o ≡ some q
      → (p : Pending P) × (o ≡ some p) × ((retry now p).0 ≡ some q)
  after-some now none q e = cc
  after-some now (some p) q e = (p, refl, e)

  -- A sweep of a well-formed table loses no packet: those that still wait and those handed back are
  -- together as many as waited before, and the table is well-formed again.
  pub sweep_conserves :
      (t : NeighborTable P) (now : ℕ)
      → IsWell t
      → (total (sweep t now).0.pending + length (sweep t now).2 ≡ total t.pending)
        × IsWell (sweep t now).0
  unfolding sweep
  sweep_conserves t now w = (
    total-retry_all now t.pending,
    record {
      cache_keys = retain-IsMap _ t.cache w.cache_keys;
      resolved_keys = retain-IsMap _ t.resolved w.resolved_keys;
      pending_keys = retry_all-IsMap now t.pending w.pending_keys;
      bounded = λ ip q e.
          let (p, was, stays) =
            after-some now (Map.lookup ip t.pending) q
              (sym (lookup-retry_all now ip t.pending w.pending_keys) ∙ e) in
          retry-IsBounded now p q (w.bounded ip p was) stays;
    },
  )

  sweep-lookup :
      (t : NeighborTable P) (now ip : ℕ) (p : Pending P)
      → IsWell t
      → Map.lookup ip t.pending ≡ some p
      → Map.lookup ip (sweep t now).0.pending ≡ (retry now p).0
  unfolding sweep
  sweep-lookup t now ip p w e = lookup-retry_all now ip t.pending w.pending_keys ∙ ap (after now) e

  retry_asks :
      (now : ℕ) (p : Pending P)
      → p.last_request_at + 1000 ≤ now
      → p.attempts ≤ 2
      → (retry now p).0 ≡ some (record p { last_request_at = now; attempts = p.attempts + 1 })
  unfolding retry
  retry_asks now p h few = ground arith

  retry_stops :
      (now : ℕ) (p : Pending P)
      → p.last_request_at + 1000 ≤ now
      → 3 ≤ p.attempts
      → (retry now p).0 ≡ none
  unfolding retry
  retry_stops now p h many = ground arith

  -- In a well-formed table a host that never answers is given up: after its first request, the
  -- third of three sweeps, each a second or more after the request before, removes its packets.
  pub gives_up :
      (t : NeighborTable P) (ip : ℕ) (p : Pending P) (t1 t2 t3 : ℕ)
      → IsWell t
      → Map.lookup ip t.pending ≡ some p
      → p.attempts ≡ 1
      → p.last_request_at + 1000 ≤ t1
      → t1 + 1000 ≤ t2
      → t2 + 1000 ≤ t3
      → (Map.lookup ip (sweep t t1).0.pending
          ≡ some (record p { last_request_at = t1; attempts = 2 }))
        × (Map.lookup ip (sweep (sweep t t1).0 t2).0.pending
            ≡ some (record p { last_request_at = t2; attempts = 3 }))
        × (Map.lookup ip (sweep (sweep (sweep t t1).0 t2).0 t3).0.pending ≡ none)
  gives_up t ip p t1 t2 t3 w at0 one h1 h2 h3 =
      let first : Map.lookup ip (sweep t t1).0.pending ≡ some (asked t1 2) =
        sweep-lookup t t1 ip p w at0 ∙ retry_asks t1 p h1 (omega arith) ∙ rw one refl in
      let w1 = (sweep_conserves t t1 w).1 in
      let second : Map.lookup ip (sweep (sweep t t1).0 t2).0.pending ≡ some (asked t2 3) =
        sweep-lookup (sweep t t1).0 t2 ip (asked t1 2) w1 first
        ∙ retry_asks t2 (asked t1 2) h2 (omega arith) in
      let w2 = (sweep_conserves (sweep t t1).0 t2 w1).1 in
      (
        first,
        second,
        sweep-lookup (sweep (sweep t t1).0 t2).0 t3 ip (asked t2 3) w2 second
            ∙ retry_stops t3 (asked t2 3) h3 (omega arith),
      )
    where
      asked : ℕ → ℕ → Pending P
      asked at n = record p { last_request_at = at; attempts = n }

  hit_or_miss :
      (t : NeighborTable P) (ip : ℕ) → is_some (Map.lookup ip t.cache) ≡ true → lookup t ip ≢ none
  unfolding lookup
  hit_or_miss t ip found gone = elim (Option-cases (Map.lookup ip t.cache)) [
    | inl e ↦ ground (arith, e)
    | inr (c, e) ↦ let q : some c.mac ≡ none = rw (e, lookup) at gone in cc
  ]

  -- After a sweep of a well-formed table every address of the reverse table is in the cache, and a
  -- cache entry stays exactly if it is younger than five minutes.
  pub sweep_ages :
      (t : NeighborTable P) (now mac ip : ℕ) (e : CachedEntry)
      → IsWell t
      → (reverse_lookup (sweep t now).0 mac ≡ some ip → lookup (sweep t now).0 ip ≢ none)
        × (Map.lookup ip t.cache ≡ some e
            → Map.lookup ip (sweep t now).0.cache
              ≡ (if ltb (now - e.learned_at) 300_000 then some e else none))
  unfolding sweep reverse_lookup
  sweep_ages t now mac ip e w = (
    (λ r gone.
        let cache = retain (λ _ e. ltb (now - e.learned_at) 300_000) t.cache in
        let kept : is_some (Map.lookup ip cache) ≡ true =
          kept_if (λ ip. is_some (Map.lookup ip cache)) (Map.lookup mac t.resolved) ip
            (sym (
                lookup-retain (λ _ ip. is_some (Map.lookup ip cache)) mac t.resolved
                  w.resolved_keys)
              ∙ r) in
        hit_or_miss (sweep t now).0 ip kept gone),
    (λ q.
        lookup-retain (λ _ e. ltb (now - e.learned_at) 300_000) ip t.cache w.cache_keys
        ∙ rw q refl),
  )
