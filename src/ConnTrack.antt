-- ===== src/ConnTrack.antt =====
-- src/router/conntrack.rs: the TCP connection tracker. `HashMap<FlowKey, Conn>` is a `Map`, and
-- `Tick` is the number of milliseconds (src/router/neighbor.rs).
mod State
pub mod Diagram
pub mod Laws
pub mod Firewall
pub mod History
pub mod Idle
mod Tests
unfoldable pub use State.*
use userspace_router.Base.{
  ℕ, ◌-◌, ◌≡◌, Bool, true, false, not, ◌&&◌, Option, none, some, if◌then◌else◌, ltb, max, List, [],
  ◌∷◌, length, arith, ◌==◌, ◌↔◌, Eq,
}
use userspace_router.Base.Map.{Map, lookup, insert, remove, retain}
use mathlib.Core.Option

-- Milliseconds since `earlier`; `saturating_sub` is the subtraction of ℕ.
abbrev pub elapsed_since : ℕ → ℕ → ℕ
elapsed_since now earlier = now - earlier

pub record FlowKey : Type 0 where
  pub int_ip : ℕ
  pub int_port : ℕ
  pub ext_ip : ℕ
  pub ext_port : ℕ

abbrev pub flow_beq : FlowKey → FlowKey → Bool
flow_beq a b =
    (a.int_ip == b.int_ip)
    && (a.int_port == b.int_port)
    && (a.ext_ip == b.ext_ip)
    && (a.ext_port == b.ext_port)

pub flow_beq_iff : (a b : FlowKey) → (flow_beq a b ≡ true) ↔ (a ≡ b)
flow_beq_iff a b = ground arith

instance abbrev pub flow_eq : Eq FlowKey
flow_eq = record { beq = flow_beq; beq_iff = flow_beq_iff }

pub record Conn : Type 0 where
  pub internal : TcpState
  pub external : TcpState
  pub last_seen : ℕ

pub fully_closed : Conn → Bool
fully_closed c = is_closed c.internal && is_closed c.external

pub conn_timeout_ms : Conn → ℕ
conn_timeout_ms c = max (idle_timeout_ms c.internal) (idle_timeout_ms c.external)

pub record ConnTrack : Type 0 where
  pub flows : Map FlowKey Conn

pub new : ConnTrack
new = record { flows = [] }

pub len : ConnTrack → ℕ
len t = length t.flows

pub is_empty : ConnTrack → Bool
is_empty t = length t.flows == 0

-- The entry that `observe_egress` starts from: the one stored, or a closed pair.
entry_or_closed : Option Conn → ℕ → Conn
entry_or_closed none now = record { internal = closed; external = closed; last_seen = now }
entry_or_closed (some c) now = c

-- An outbound packet: the internal end sends it, the external end receives it.
pub advance_egress : Conn → ℕ → ℕ → Conn
advance_egress c flags now = record {
  internal = transition_on_send c.internal flags;
  external = transition_on_recv c.external flags;
  last_seen = now;
}

pub advance_ingress : Conn → ℕ → ℕ → Conn
advance_ingress c flags now = record {
  internal = transition_on_recv c.internal flags;
  external = transition_on_send c.external flags;
  last_seen = now;
}

-- Stores the advanced entry, and removes it again if both ends are closed.
pub observe_egress : ConnTrack → FlowKey → ℕ → ℕ → ConnTrack × (TcpState × TcpState)
unfolding entry_or_closed
observe_egress t key flags now =
    let conn = advance_egress (entry_or_closed (lookup key t.flows) now) flags now in
    let stored = insert key conn t.flows in
    (
      record { flows = if fully_closed conn then remove key stored else stored },
      (conn.internal, conn.external),
    )

ingress_found : ConnTrack → FlowKey → Conn → ℕ → ℕ → ConnTrack × Bool
ingress_found t key old flags now =
    let conn = advance_ingress old flags now in
    let stored = insert key conn t.flows in
    if fully_closed old
    then (t, false)
    else (record { flows = if fully_closed conn then remove key stored else stored }, true)

pub check_ingress : ConnTrack → FlowKey → ℕ → ℕ → ConnTrack × Bool
unfolding ingress_found
check_ingress t key flags now = elim (lookup key t.flows) [
  | none ↦ (t, false)
  | some old ↦ ingress_found t key old flags now
]

-- The test by which `sweep` keeps an entry.
pub is_fresh : ℕ → Conn → Bool
is_fresh now c = ltb (elapsed_since now c.last_seen) (conn_timeout_ms c)

pub sweep : ConnTrack → ℕ → ConnTrack
sweep t now = record { flows = retain (λ _ c. is_fresh now c) t.flows }

pub states : ConnTrack → FlowKey → Option (TcpState × TcpState)
states t key = Option.map (λ c. (c.internal, c.external)) (lookup key t.flows)
