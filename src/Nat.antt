-- ===== src/Nat.antt =====
-- src/router/nat.rs: the NAT table. Addresses and ports are numbers; the two `HashMap`s are `Map`s.
pub mod Alloc
pub mod Laws
pub mod Flows
pub mod Translate
mod Tests
use mathlib.Core.Option
use userspace_router.Base.{
  ℕ, zero, suc, ◌+◌, ◌-◌, ◌≤◌, Bool, true, false, ◌&&◌, not, Option, none, some, [], if◌then◌else◌,
  ltb, leb, ◌==◌, length, is_some, triple_eq, pair_eq,
}
use userspace_router.Base.Map.{Map, lookup, insert}

pub data L4 : Type 0 where
  tcp udp : L4

unfoldable pub proto : L4 → ℕ
proto tcp = 6
proto udp = 17

unfoldable pub from_proto : ℕ → Option L4
from_proto p = if p == 6 then some tcp else (if p == 17 then some udp else none)

pub record Endpoint : Type 0 where
  pub ip : ℕ
  pub port : ℕ

pub record Egress : Type 0 where
  pub new_src_ip : ℕ
  pub new_src_port : ℕ

pub record Nat : Type 0 where
  pub wan_ip : ℕ
  pub port_lo : ℕ
  pub port_hi : ℕ
  pub next_port : ℕ
  pub fwd : Map (ℕ × ℕ × ℕ) ℕ
  pub rev : Map (ℕ × ℕ) Endpoint

-- `none` is the panic of the assertion on the range.
pub new : ℕ → ℕ → ℕ → Option Nat
new wan_ip lo hi =
    if ltb 0 lo && leb lo hi
    then some
        (record { wan_ip = wan_ip; port_lo = lo; port_hi = hi; next_port = lo; fwd = []; rev = [] })
    else none

pub set_wan_ip : Nat → ℕ → Nat
set_wan_ip n ip = record n { wan_ip = ip }

pub active : Nat → ℕ
active n = length n.fwd

-- The candidate behind `port`, going round at the end of the range.
pub next_candidate : Nat → ℕ → ℕ
next_candidate n port = if leb n.port_hi port then n.port_lo else port + 1

-- The loop of `alloc_port`: so many rounds, from a candidate on. The free port comes with the
-- candidate to start from next time.
pub scan : Nat → ℕ → ℕ → ℕ → Option (ℕ × ℕ)
scan n p zero cand = none
scan n p (suc rounds) cand =
    let rest = scan n p rounds (next_candidate n cand) in
    if is_some (lookup (p, cand) n.rev) then rest else some (cand, next_candidate n cand)

pub alloc_port : Nat → ℕ → Nat × Option ℕ
alloc_port n p = elim (scan n p (n.port_hi - n.port_lo + 1) n.next_port) [
  | none ↦ (n, none)
  | some (port, cand) ↦ (record n { next_port = cand }, some port)
]

-- The two insertions for a new flow.
pub bind : Nat → ℕ → ℕ → ℕ → ℕ → Nat
bind n p ip port e = record n {
  fwd = insert (p, ip, port) e n.fwd;
  rev = insert (p, e) (record { ip = ip; port = port }) n.rev;
}

egress_new : Nat → Option ℕ → ℕ → ℕ → ℕ → Nat × Option Egress
unfolding bind
egress_new n none p ip port = (n, none)
egress_new n (some e) p ip port =
    (bind n p ip port e, some (record { new_src_ip = n.wan_ip; new_src_port = e }))

pub egress : Nat → L4 → ℕ → ℕ → Nat × Option Egress
unfolding egress_new
egress n l4 src_ip src_port = elim (lookup (proto l4, src_ip, src_port) n.fwd) [
  | some e ↦ (n, some (record { new_src_ip = n.wan_ip; new_src_port = e }))
  | none ↦ let (n', port) = alloc_port n (proto l4) in egress_new n' port (proto l4) src_ip src_port
]

pub ingress : Nat → L4 → ℕ → Option (ℕ × ℕ)
ingress n l4 ext_port = Option.map (λ e. (e.ip, e.port)) (lookup (proto l4, ext_port) n.rev)
