-- ===== src/Dhcp/Return.antt =====
-- src/router/dhcp.rs: a client gives its lease back.
use userspace_router.Base.Map
use userspace_router.Base.Map.{IsMap, lookup-remove, remove-IsMap}
use userspace_router.Base.{
  nat_eq, ℕ, ◌≡◌, ◌==◌, ◌||◌, none, some, arith, inl, inr, if◌then◌else◌, Option-cases, Bool-cases,
  ◌↔◌,
}
use userspace_router.Pool.{AddressPool}
use userspace_router.Pool.Cover.{covers, IsValid}
use userspace_router.Pool.First.{release_all}
use userspace_router.Leases
use userspace_router.Dhcp.{DhcpServer, give_back}
use userspace_router.Dhcp.Leased.{IsExclusive, Disposes, Keeps}

-- The server without the lease of a client, over a pool.
abbrev without : DhcpServer → ℕ → AddressPool → DhcpServer
without s mac q = record s { pool = q; leases = record { by_mac = Map.remove mac s.leases.by_mac } }

forget-Keeps :
    (s : DhcpServer) (mac : ℕ)
    → IsExclusive s
    → Map.lookup mac s.leases.by_mac ≡ none
    → Keeps s (without s mac s.pool)
unfolding Disposes
forget-Keeps s mac x unknown = record {
  exclusive = record {
    valid = x.valid;
    keys = remove-IsMap mac s.leases.by_mac x.keys;
    in_range = λ m i h. x.in_range m i (same m h);
    not_free = λ m i h. x.not_free m i (same m h);
    unique = λ m m' i h h'. x.unique m m' i (same m h) (same m' h');
  };
  all_kept = λ y. (
    elim [
      | inl free ↦ inl free
      | inr (m, e) ↦ inr (m, ground (arith, lookup-remove mac m s.leases.by_mac x.keys))
    ],
    elim [ inl free ↦ inl free | inr (m, e) ↦ inr (m, same m e) ],
  );
}
  where
    same :
        (m : ℕ) {i : ℕ}
        → Map.lookup m (Map.remove mac s.leases.by_mac) ≡ some i
        → Map.lookup m s.leases.by_mac ≡ some i
    same m h = ground (arith, lookup-remove mac m s.leases.by_mac x.keys)

module _ (s : DhcpServer) (mac ip : ℕ) (q : AddressPool) (x : IsExclusive s)
    (bound : Map.lookup mac s.leases.by_mac ≡ some ip)
    (freed : (y : ℕ) → covers y q.intervals ≡ ((y == ip) || covers y s.pool.intervals)) where
  at_old :
      (m : ℕ)
      → Map.lookup m (Map.remove mac s.leases.by_mac)
        ≡ (if mac == m then none else Map.lookup m s.leases.by_mac)
  at_old m = lookup-remove mac m s.leases.by_mac x.keys

  unlease-IsExclusive :
      IsValid q → q.start ≡ s.pool.start → q.end ≡ s.pool.end → IsExclusive (without s mac q)
  unlease-IsExclusive valid lo hi = record {
    valid = valid;
    keys = remove-IsMap mac s.leases.by_mac x.keys;
    in_range = λ m i h. ground (arith, at_old m, x.in_range m i);
    not_free = λ m i h. ground (arith, at_old m, x.not_free m i, x.unique m mac i, freed i);
    unique = λ m m' i h h'. ground (arith, at_old m, at_old m', x.unique m m' i);
  }

  unlease-Disposes : (y : ℕ) → Disposes s y ↔ Disposes (without s mac q) y
  unfolding Disposes
  unlease-Disposes y = (to, back)
    where
      to : Disposes s y → Disposes (without s mac q) y
      to (inl free) = inl (ground (arith, freed y))
      to (inr (m, e)) = elim (Bool-cases (mac == m)) [
        | inl same ↦ inl (ground (arith, freed y, bound, e))
        | inr other ↦ inr (m, ground (arith, at_old m))
      ]

      back : Disposes (without s mac q) y → Disposes s y
      back (inl free) = elim (Bool-cases (y == ip)) [
        | inl same ↦ inr (mac, ground (arith, bound))
        | inr other ↦ inl (ground (arith, freed y))
      ]
      back (inr (m, e)) = inr (m, ground (arith, at_old m))

-- A lease given back leaves the table and makes its address free again; the pool never refuses it.
pub give_back-Keeps :
    (s : DhcpServer) (mac : ℕ)
    → IsExclusive s
    → (s' : DhcpServer) × (give_back s mac ≡ some s') × Keeps s s'
unfolding give_back Leases.remove
give_back-Keeps s mac x = elim (Option-cases (Map.lookup mac s.leases.by_mac)) [
  | inl unknown ↦ (without s mac s.pool, ground (arith, unknown), forget-Keeps s mac x unknown)
  | inr (ip, bound) ↦
      let r = x.in_range mac ip bound in
      let (q, e, freed, valid, lo, hi) =
        release_all s.pool ip x.valid (x.not_free mac ip bound) r.0 r.1 in
      (
        without s mac q,
        ground (arith, bound, e),
        record {
          exclusive = unlease-IsExclusive s mac ip q x bound freed valid lo hi;
          all_kept = unlease-Disposes s mac ip q x bound freed;
        },
      )
]
