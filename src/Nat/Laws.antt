-- ===== src/Nat/Laws.antt =====
-- src/router/nat.rs: the two tables stay inverse to one another, and what `egress` promises.

use userspace_router.Base.{
  ltb, leb, ◌&&◌, [], ℕ, ◌≤◌, ◌≡◌, true, Option, none, some, arith, is_some, pair_eq, triple_eq,
  Bool-cases, inl, inr, Option-cases, subst,
}
use userspace_router.Base.Map.{lookup, IsMap, lookup-insert, insert-IsMap}
use userspace_router.Nat.{
  L4, Nat, Endpoint, Egress, new, proto, set_wan_ip, alloc_port, bind, egress_new, egress, ingress,
}
use userspace_router.Nat.Alloc.{InRange, Allocates, found, exhausted, alloc_port-Allocates}

-- The forward table and the reverse table hold the same bindings, each to a port of the range.
pub record IsConsistent (n : Nat) : Type 0 where
  pub range : n.port_lo ≤ n.port_hi
  pub next_in : InRange n n.next_port
  pub fwd_distinct : IsMap n.fwd
  pub rev_distinct : IsMap n.rev
  pub fwd_to_rev :
      (p ip port e : ℕ)
      → lookup (p, ip, port) n.fwd ≡ some e
      → lookup (p, e) n.rev ≡ some (record { ip = ip; port = port })
  pub rev_to_fwd :
      (p e : ℕ) (a : Endpoint)
      → lookup (p, e) n.rev ≡ some a
      → (lookup (p, a.ip, a.port) n.fwd ≡ some e) × InRange n e

abbrev fresh : ℕ → ℕ → ℕ → Nat
fresh ip lo hi = record {
  wan_ip = ip;
  port_lo = lo;
  port_hi = hi;
  next_port = lo;
  fwd = [];
  rev = [];
}

fresh-IsConsistent : (ip lo hi : ℕ) → lo ≤ hi → IsConsistent (fresh ip lo hi)
unfolding lookup
fresh-IsConsistent ip lo hi h = record {
  range = h;
  next_in = omega arith;
  fwd_distinct = tt;
  rev_distinct = tt;
  fwd_to_rev = λ p jp port e q. cc;
  rev_to_fwd = λ p e a q. cc;
}

-- A new table is consistent.
pub new-IsConsistent : (ip lo hi : ℕ) (n : Nat) → new ip lo hi ≡ some n → IsConsistent n
unfolding new
new-IsConsistent ip lo hi n e = elim (Bool-cases (ltb 0 lo && leb lo hi)) [
  | inl ok ↦
      let q : fresh ip lo hi ≡ n = ground arith in
      subst IsConsistent q (fresh-IsConsistent ip lo hi (ground arith))
  | inr bad ↦ ground arith
]

pub set_wan_ip-IsConsistent : (n : Nat) (ip : ℕ) → IsConsistent n → IsConsistent (set_wan_ip n ip)
unfolding set_wan_ip
set_wan_ip-IsConsistent n ip c = record {
  range = c.range;
  next_in = c.next_in;
  fwd_distinct = c.fwd_distinct;
  rev_distinct = c.rev_distinct;
  fwd_to_rev = c.fwd_to_rev;
  rev_to_fwd = c.rev_to_fwd;
}

next_port-IsConsistent :
    (n : Nat) (next : ℕ)
    → IsConsistent n
    → InRange n next
    → IsConsistent (record n { next_port = next })
next_port-IsConsistent n next c r = record {
  range = c.range;
  next_in = r;
  fwd_distinct = c.fwd_distinct;
  rev_distinct = c.rev_distinct;
  fwd_to_rev = c.fwd_to_rev;
  rev_to_fwd = c.rev_to_fwd;
}

bind-IsConsistent :
    (n : Nat) (p ip port e : ℕ)
    → IsConsistent n
    → InRange n e
    → lookup (p, ip, port) n.fwd ≡ none
    → lookup (p, e) n.rev ≡ none
    → IsConsistent (bind n p ip port e)
unfolding bind
bind-IsConsistent n p ip port e c r unbound free = record {
  range = c.range;
  next_in = c.next_in;
  fwd_distinct = insert-IsMap (p, ip, port) e n.fwd c.fwd_distinct;
  rev_distinct = insert-IsMap (p, e) a n.rev c.rev_distinct;
  fwd_to_rev = λ q jp port' f h. ground (
    arith,
    lookup-insert (p, ip, port) (q, jp, port') e n.fwd,
    lookup-insert (p, e) (q, f) a n.rev,
    c.fwd_to_rev q jp port' f,
  );
  rev_to_fwd = λ q f b h. ground (
    arith,
    lookup-insert (p, ip, port) (q, b.ip, b.port) e n.fwd,
    lookup-insert (p, e) (q, f) a n.rev,
    c.rev_to_fwd q f b,
  );
}
  where
    a : Endpoint
    a = record { ip = ip; port = port }

-- What one call of `egress` does.
pub data Egresses (n : Nat) (l4 : L4) (ip port : ℕ) : Nat × Option Egress → Type 0 where
  known :
      (e : ℕ)
      → lookup (proto l4, ip, port) n.fwd ≡ some e
      → Egresses n l4 ip port (n, some (record { new_src_ip = n.wan_ip; new_src_port = e }))
  opened :
      (e next : ℕ)
      → lookup (proto l4, ip, port) n.fwd ≡ none
      → lookup (proto l4, e) n.rev ≡ none
      → InRange n e
      → InRange n next
      → Egresses n l4 ip port (
        bind (record n { next_port = next }) (proto l4) ip port e,
        some (record { new_src_ip = n.wan_ip; new_src_port = e }),
      )
  full :
      lookup (proto l4, ip, port) n.fwd ≡ none
      → ((e : ℕ) → InRange n e → is_some (lookup (proto l4, e) n.rev) ≡ true)
      → Egresses n l4 ip port (n, none)

-- Over consistent tables, `egress` answers a known endpoint from the table; it binds an unknown one
-- to a free port of the range, or, if the range has none, drops the packet. In the first and the
-- last case the table stays as it is.
pub egress-Egresses :
    (n : Nat) (l4 : L4) (ip port : ℕ) → IsConsistent n → Egresses n l4 ip port (egress n l4 ip port)
unfolding egress
egress-Egresses n l4 ip port c = elim (Option-cases (lookup (proto l4, ip, port) n.fwd)) [
  | inl unbound ↦
      rw (unbound, egress)
        (alloc (alloc_port n (proto l4)) unbound
          (alloc_port-Allocates n (proto l4) c.range c.next_in))
  | inr (e, bound) ↦ rw (bound, egress) (known e bound)
]
  where
    alloc :
        (r : Nat × Option ℕ)
        → lookup (proto l4, ip, port) n.fwd ≡ none
        → Allocates n (proto l4) r
        → Egresses n l4 ip port (egress_new r.0 r.1 (proto l4) ip port)
    alloc _ unbound (found e next inside next_in free) = opened e next unbound free inside next_in
    alloc _ unbound (exhausted taken) = full unbound taken

Egresses-IsConsistent :
    (n : Nat) (l4 : L4) (ip port : ℕ) (r : Nat × Option Egress)
    → IsConsistent n
    → Egresses n l4 ip port r
    → IsConsistent r.0
Egresses-IsConsistent n l4 ip port _ c (known e b) = c
Egresses-IsConsistent n l4 ip port _ c (opened e next unbound free inside next_in) =
    bind-IsConsistent (record n { next_port = next }) (proto l4) ip port e
      (next_port-IsConsistent n next c next_in) inside unbound free
Egresses-IsConsistent n l4 ip port _ c (full unbound taken) = c

-- Translating a packet keeps consistent tables consistent.
pub egress-IsConsistent :
    (n : Nat) (l4 : L4) (ip port : ℕ) → IsConsistent n → IsConsistent (egress n l4 ip port).0
egress-IsConsistent n l4 ip port c =
    Egresses-IsConsistent n l4 ip port _ c (egress-Egresses n l4 ip port c)

Egresses-ingress :
    (n : Nat) (l4 : L4) (ip port : ℕ) (r : Nat × Option Egress) (x : Egress)
    → IsConsistent n
    → Egresses n l4 ip port r
    → r.1 ≡ some x
    → (ingress r.0 l4 x.new_src_port ≡ some (ip, port))
      × (x.new_src_ip ≡ n.wan_ip)
      × InRange n x.new_src_port
unfolding ingress bind
Egresses-ingress n l4 ip port _ x c (known e b) h = (
  ground (arith, c.fwd_to_rev (proto l4) ip port e b),
  ground arith,
  ground (
    arith,
    c.rev_to_fwd (proto l4) e (record { ip = ip; port = port }),
    c.fwd_to_rev (proto l4) ip port e b,
  ),
)
Egresses-ingress n l4 ip port _ x c (opened e next unbound free inside next_in) h = (
  ground (
    arith,
    lookup-insert (proto l4, e) (proto l4, x.new_src_port) (record { ip = ip; port = port }) n.rev,
  ),
  ground arith,
  ground arith,
)
Egresses-ingress n l4 ip port _ x c (full unbound taken) h = cc

-- The round trip of a translation over consistent tables: a packet to the external port that
-- `egress` chose comes back to the endpoint that sent; the source becomes the WAN address and a
-- port of the range.
pub ingress-egress :
    (n : Nat) (l4 : L4) (ip port : ℕ) (x : Egress)
    → IsConsistent n
    → (egress n l4 ip port).1 ≡ some x
    → (ingress (egress n l4 ip port).0 l4 x.new_src_port ≡ some (ip, port))
      × (x.new_src_ip ≡ n.wan_ip)
      × InRange n x.new_src_port
ingress-egress n l4 ip port x c =
    Egresses-ingress n l4 ip port _ x c (egress-Egresses n l4 ip port c)
