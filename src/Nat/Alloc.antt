-- ===== src/Nat/Alloc.antt =====
-- src/router/nat.rs: `alloc_port` searches the whole range, going round.
use userspace_router.Base.{
  ℕ, zero, suc, ◌+◌, ◌-◌, ◌≤◌, ◌<◌, ◌≡◌, ◌≢◌, refl, true, Option, none, some, if◌then◌else◌, leb,
  arith, is_some, pair_eq, Bool-cases, inl, inr, Option-cases, ℕ_discrete,
}
use userspace_router.Base.Map.{lookup}
use userspace_router.Nat.{Nat, next_candidate, scan, alloc_port}

-- The ports that the table may hand out.
abbrev pub InRange : Nat → ℕ → Type 0
InRange n port = (n.port_lo ≤ port) × (port ≤ n.port_hi)

-- How many steps of the search lead from a candidate to a port.
abbrev distance : Nat → ℕ → ℕ → ℕ
distance n cand port =
    if leb cand port then port - cand else n.port_hi - cand + 1 + (port - n.port_lo)

next_candidate-InRange :
    (n : Nat) (c : ℕ) → n.port_lo ≤ n.port_hi → InRange n c → InRange n (next_candidate n c)
unfolding next_candidate
next_candidate-InRange n c h r = ground arith

distance-next :
    (n : Nat) (c port : ℕ)
    → InRange n c
    → InRange n port
    → port ≢ c
    → distance n (next_candidate n c) port + 1 ≡ distance n c port
unfolding next_candidate
distance-next n c port r s ne = ground arith

scan_sound :
    (n : Nat) (p rounds cand port next : ℕ)
    → n.port_lo ≤ n.port_hi
    → InRange n cand
    → scan n p rounds cand ≡ some (port, next)
    → InRange n port × InRange n next × (lookup (p, port) n.rev ≡ none)
unfolding scan
scan_sound n p zero cand port next h r e = cc
scan_sound n p (suc rounds) cand port next h r e = elim (Option-cases (lookup (p, cand) n.rev)) [
  | inl free ↦ ground (arith, free, next_candidate-InRange n cand)
  | inr (v, used) ↦
      scan_sound n p rounds (next_candidate n cand) port next h (next_candidate-InRange n cand h r)
        (ground (arith, used))
]

scan_complete :
    (n : Nat) (p rounds cand port : ℕ)
    → n.port_lo ≤ n.port_hi
    → InRange n cand
    → InRange n port
    → distance n cand port < rounds
    → scan n p rounds cand ≡ none
    → is_some (lookup (p, port) n.rev) ≡ true
unfolding scan
scan_complete n p zero cand port h r s d e = absurd (omega arith)
scan_complete n p (suc rounds) cand port h r s d e =
    elim (Bool-cases (is_some (lookup (p, cand) n.rev))) [
      | inl used ↦ elim (ℕ_discrete port cand) [
        | yes same ↦ rw same used
        | no other ↦
            scan_complete n p rounds (next_candidate n cand) port h
              (next_candidate-InRange n cand h r) s
              (omega (arith, distance-next n cand port r s other)) (ground arith)
      ]
      | inr free ↦ ground arith
    ]

-- A port handed out lies in the range and was free, and the search goes on behind it; without one,
-- every port of the range is taken, and the table is as it was.
pub data Allocates (n : Nat) (p : ℕ) : Nat × Option ℕ → Type 0 where
  found :
      (port next : ℕ)
      → InRange n port
      → InRange n next
      → lookup (p, port) n.rev ≡ none
      → Allocates n p (record n { next_port = next }, some port)
  exhausted :
      ((port : ℕ) → InRange n port → is_some (lookup (p, port) n.rev) ≡ true)
      → Allocates n p (n, none)

-- With a nonempty range and the cursor in it, `alloc_port` returns a free port of the range, and a
-- cursor in it, or, only if every port is taken, nothing, and then leaves the table as it was.
pub alloc_port-Allocates :
    (n : Nat) (p : ℕ)
    → n.port_lo ≤ n.port_hi
    → InRange n n.next_port
    → Allocates n p (alloc_port n p)
unfolding alloc_port
alloc_port-Allocates n p h r = go (scan n p (n.port_hi - n.port_lo + 1) n.next_port) refl
  where
    go :
        (o : Option (ℕ × ℕ))
        → scan n p (n.port_hi - n.port_lo + 1) n.next_port ≡ o
        → Allocates n p (alloc_port n p)
    go none e =
        rw (e, alloc_port)
          (exhausted λ port s. scan_complete n p _ n.next_port port h r s (ground arith) e)
    go (some (port, next)) e =
        let sound = scan_sound n p _ n.next_port port next h r e in
        rw (e, alloc_port) (found port next sound.0 sound.1 sound.2)
