-- ===== src/Nat/Flows.antt =====
-- src/router/nat.rs: bindings over several packets.

use userspace_router.Base.{
  Bool-cases, pair_beq_iff, ℕ, ◌≡◌, Option, some, arith, pair_eq, triple_eq, pair_beq, inl, inr, ap,
}
use userspace_router.Base.Map.{lookup, lookup-insert, beq_refl}
use userspace_router.Nat.{L4, Nat, Egress, proto, bind, egress, ingress}
use userspace_router.Nat.Laws.{
  IsConsistent, Egresses, known, opened, full, egress-Egresses, egress-IsConsistent, ingress-egress,
}

Egresses-keeps :
    (n : Nat) (l4 : L4) (ip port : ℕ) (r : Nat × Option Egress) (l4' : L4) (e' : ℕ) (a : ℕ × ℕ)
    → Egresses n l4 ip port r
    → ingress n l4' e' ≡ some a
    → ingress r.0 l4' e' ≡ some a
unfolding ingress bind
Egresses-keeps n l4 ip port _ l4' e' a (known e b) h = h
Egresses-keeps n l4 ip port _ l4' e' a (opened e next unbound free inside next_in) h =
    elim (Bool-cases (pair_beq (proto l4, e) (proto l4', e'))) [
      | inl same ↦
          let k : (proto l4, e) ≡ (proto l4', e') =
            (pair_beq_iff (proto l4, e) (proto l4', e')).0 same in
          ground (arith, free, ap (λ (q : ℕ × ℕ). lookup q n.rev) k)
      | inr other ↦ ground (
        arith,
        lookup-insert (proto l4, e) (proto l4', e') (record { ip = ip; port = port }) n.rev,
      )
    ]
Egresses-keeps n l4 ip port _ l4' e' a (full unbound taken) h = h

-- A binding of consistent tables is kept: whatever flow is translated next, the return traffic of
-- an existing binding still reaches the same endpoint.
pub ingress_kept :
    (n : Nat) (l4 : L4) (ip port : ℕ) (l4' : L4) (e : ℕ) (a : ℕ × ℕ)
    → IsConsistent n
    → ingress n l4' e ≡ some a
    → ingress (egress n l4 ip port).0 l4' e ≡ some a
ingress_kept n l4 ip port l4' e a c h =
    Egresses-keeps n l4 ip port _ l4' e a (egress-Egresses n l4 ip port c) h

-- Over consistent tables, two endpoints translated one after the other to the same external port of
-- one protocol are the same endpoint.
pub egress_injective :
    (n : Nat) (l4 : L4) (ip port ip' port' : ℕ) (x y : Egress)
    → IsConsistent n
    → (egress n l4 ip port).1 ≡ some x
    → (egress (egress n l4 ip port).0 l4 ip' port').1 ≡ some y
    → x.new_src_port ≡ y.new_src_port
    → (ip ≡ ip') × (port ≡ port')
egress_injective n l4 ip port ip' port' x y c hx hy same =
    let m = (egress n l4 ip port).0 in
    let d = egress-IsConsistent n l4 ip port c in
    let first =
      ingress_kept m l4 ip' port' l4 x.new_src_port (ip, port) d
        (ingress-egress n l4 ip port x c hx).0 in
    let second = (ingress-egress m l4 ip' port' y d hy).0 in
    let moved = ap (λ k. ingress (egress m l4 ip' port').0 l4 k) same in
    (ground (arith, first, second, moved), ground (arith, first, second, moved))

Egresses-again :
    (n : Nat) (l4 : L4) (ip port : ℕ) (r : Nat × Option Egress) (x : Egress)
    → Egresses n l4 ip port r
    → r.1 ≡ some x
    → egress r.0 l4 ip port ≡ (r.0, some x)
unfolding egress bind
Egresses-again n l4 ip port _ x (known e b) h = rw (b, egress) (ground arith)
Egresses-again n l4 ip port _ x (opened e next unbound free inside next_in) h =
    let k : ℕ × ℕ × ℕ = (proto l4, ip, port) in
    ground (arith, beq_refl k, lookup-insert (proto l4, ip, port) (proto l4, ip, port) e n.fwd)
Egresses-again n l4 ip port _ x (full unbound taken) h = cc

-- The mapping is endpoint-independent and stable: over consistent tables, the next packet of an
-- endpoint that was translated gets the same translation, and leaves the tables as they are.
pub egress_again :
    (n : Nat) (l4 : L4) (ip port : ℕ) (x : Egress)
    → IsConsistent n
    → (egress n l4 ip port).1 ≡ some x
    → egress (egress n l4 ip port).0 l4 ip port ≡ ((egress n l4 ip port).0, some x)
egress_again n l4 ip port x c = Egresses-again n l4 ip port _ x (egress-Egresses n l4 ip port c)
