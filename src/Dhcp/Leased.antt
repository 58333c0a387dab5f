-- ===== src/Dhcp/Leased.antt =====
-- src/router/dhcp.rs: no address is leased twice, or leased and free; none is lost.

use userspace_router.Base.Map
use userspace_router.Base.Map.{IsMap, lookup-insert, insert-IsMap, lookup-remove, remove-IsMap}
use userspace_router.Base.{
  if◌then◌else◌, ◌==◌, ◌^◌, length, ◌||◌, nat_eq, ℕ, ◌≤◌, ◌≡◌, true, false, Option, none, some,
  List, arith, inl, inr, ◌⊎◌, ◌↔◌, Option-cases, Bool-cases, length,
}
use userspace_router.Pool
use userspace_router.Pool.{AddressPool, addresses}
use userspace_router.Pool.Cover.{covers, IsValid, covers-le}
use userspace_router.Pool.First.{TakesOne, first, empty, uncounted, take-TakesOne}
use userspace_router.Pool.Take.{free_list}
use userspace_router.Leases
use userspace_router.Leases.{LeaseTable}
use userspace_router.Dhcp.{DhcpServer, assign, assign_taken}

-- Over a valid pool, every lease is of an address in its range that is not free, and no address is
-- leased to two clients.
pub record IsExclusive (s : DhcpServer) : Type 0 where
  pub valid : IsValid s.pool
  pub keys : IsMap s.leases.by_mac
  pub in_range :
      (mac ip : ℕ)
      → Map.lookup mac s.leases.by_mac ≡ some ip
      → (s.pool.start ≤ ip) × (ip ≤ s.pool.end)
  pub not_free :
      (mac ip : ℕ) → Map.lookup mac s.leases.by_mac ≡ some ip → covers ip s.pool.intervals ≡ false
  pub unique :
      (mac mac' ip : ℕ)
      → Map.lookup mac s.leases.by_mac ≡ some ip
      → Map.lookup mac' s.leases.by_mac ≡ some ip
      → mac ≡ mac'

-- What one call of `assign` does.
pub data Assigns (s : DhcpServer) (mac : ℕ) : DhcpServer × Option ℕ → Type 0 where
  known : (ip : ℕ) → Map.lookup mac s.leases.by_mac ≡ some ip → Assigns s mac (s, some ip)
  taken :
      (ip : ℕ) (p : AddressPool)
      → Map.lookup mac s.leases.by_mac ≡ none
      → covers ip s.pool.intervals ≡ true
      → ((x : ℕ) → covers x s.pool.intervals ≡ ((ip == x) || covers x p.intervals))
      → covers ip p.intervals ≡ false
      → IsValid p
      → p.start ≡ s.pool.start
      → p.end ≡ s.pool.end
      → Assigns s mac (record s { pool = p; leases = Leases.insert s.leases mac ip }, some ip)
  exhausted :
      Map.lookup mac s.leases.by_mac ≡ none
      → ((x : ℕ) → covers x s.pool.intervals ≡ false)
      → Assigns s mac (s, none)
  overlooked :
      Map.lookup mac s.leases.by_mac ≡ none
      → length (free_list s.pool.intervals) ≡ 2 ^ 32
      → Assigns s mac (s, none)

-- Over a valid pool, `assign` answers a known client with its address, leases a free address to a
-- new one, or, where none is free, or all 2 ^ 32 addresses are, which `take` counts as none, leaves
-- everything as it was.
pub assign-Assigns : (s : DhcpServer) (mac : ℕ) → IsValid s.pool → Assigns s mac (assign s mac)
unfolding assign Leases.lookup
assign-Assigns s mac v = elim (Option-cases (Map.lookup mac s.leases.by_mac)) [
  | inr (ip, e) ↦ rw (e, assign) (known ip e)
  | inl e ↦ rw (e, assign) (fresh e (Pool.take s.pool 1) (take-TakesOne s.pool v))
]
  where
    fresh :
        Map.lookup mac s.leases.by_mac ≡ none
        → (r : AddressPool × Option (List ℕ)) → TakesOne s.pool r
        → Assigns s mac (assign_taken s mac r)
    fresh e _ (first a q free split gone valid lo hi) = taken a q e free split gone valid lo hi
    fresh e _ (empty nothing) = exhausted e nothing
    fresh e _ (uncounted all) = overlooked e all

-- An address that the server disposes of: free, or leased to a client.
unfoldable pub Disposes : DhcpServer → ℕ → Type 0
Disposes s x =
    (covers x s.pool.intervals ≡ true) ⊎ ((mac : ℕ) × (Map.lookup mac s.leases.by_mac ≡ some x))

-- What a step keeps: the invariant, and the addresses at the server's disposal.
pub record Keeps (s s' : DhcpServer) : Type 0 where
  pub exclusive : IsExclusive s'
  pub all_kept : (x : ℕ) → Disposes s x ↔ Disposes s' x

lease-IsExclusive :
    (s : DhcpServer) (mac ip : ℕ) (p : AddressPool)
    → IsExclusive s
    → covers ip s.pool.intervals ≡ true
    → ((x : ℕ) → covers x s.pool.intervals ≡ ((ip == x) || covers x p.intervals))
    → covers ip p.intervals ≡ false
    → IsValid p
    → p.start ≡ s.pool.start
    → p.end ≡ s.pool.end
    → IsExclusive (record s { pool = p; leases = Leases.insert s.leases mac ip })
unfolding Leases.insert
lease-IsExclusive s mac ip p x free split gone valid lo hi = record {
  valid = valid;
  keys = insert-IsMap mac ip s.leases.by_mac x.keys;
  in_range = λ m i h. ground (
    arith,
    lookup-insert mac m ip s.leases.by_mac,
    x.in_range m i,
    covers-le ip s.pool.start s.pool.end s.pool.intervals x.valid.ordered free,
  );
  not_free =
      λ m i h. ground (arith, lookup-insert mac m ip s.leases.by_mac, x.not_free m i, split i);
  unique = λ m m' i h h'. ground (
    arith,
    lookup-insert mac m ip s.leases.by_mac,
    lookup-insert mac m' ip s.leases.by_mac,
    x.unique m m' i,
    x.not_free m i,
    x.not_free m' i,
  );
}

lease-Disposes :
    (s : DhcpServer) (mac ip : ℕ) (p : AddressPool)
    → Map.lookup mac s.leases.by_mac ≡ none
    → ((x : ℕ) → covers x s.pool.intervals ≡ ((ip == x) || covers x p.intervals))
    → (x : ℕ)
    → Disposes s x ↔ Disposes (record s { pool = p; leases = Leases.insert s.leases mac ip }) x
unfolding Leases.insert Disposes
lease-Disposes s mac ip p unknown split x = (to, back)
  where
    at_new :
        (m : ℕ)
        → Map.lookup m (Map.insert mac ip s.leases.by_mac)
          ≡ (if mac == m then some ip else Map.lookup m s.leases.by_mac)
    at_new m = lookup-insert mac m ip s.leases.by_mac

    to : Disposes s x → Disposes (record s { pool = p; leases = Leases.insert s.leases mac ip }) x
    to (inl free) = elim (Bool-cases (ip == x)) [
      | inl same ↦ inr (mac, ground (arith, at_new mac))
      | inr other ↦ inl (ground (arith, split x))
    ]
    to (inr (m, e)) = inr (m, ground (arith, at_new m))

    back : Disposes (record s { pool = p; leases = Leases.insert s.leases mac ip }) x → Disposes s x
    back (inl free) = inl (ground (arith, split x))
    back (inr (m, e)) = elim (Bool-cases (mac == m)) [
      | inl same ↦ inl (ground (arith, split x, at_new m))
      | inr other ↦ inr (m, ground (arith, at_new m))
    ]

pub assign-Keeps : (s : DhcpServer) (mac : ℕ) → IsExclusive s → Keeps s (assign s mac).0
assign-Keeps s mac x = go (assign s mac) (assign-Assigns s mac x.valid)
  where
    go : (r : DhcpServer × Option ℕ) → Assigns s mac r → Keeps s r.0
    go _ (known ip e) = record { exclusive = x; all_kept = λ y. (λ d. d, λ d. d) }
    go _ (taken ip p unknown free split gone valid lo hi) = record {
      exclusive = lease-IsExclusive s mac ip p x free split gone valid lo hi;
      all_kept = lease-Disposes s mac ip p unknown split;
    }
    go _ (overlooked unknown all) = record { exclusive = x; all_kept = λ y. (λ d. d, λ d. d) }
    go _ (exhausted unknown nothing) = record { exclusive = x; all_kept = λ y. (λ d. d, λ d. d) }
