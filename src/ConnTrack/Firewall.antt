-- ===== src/ConnTrack/Firewall.antt =====
-- src/router/conntrack.rs: which packets open, keep and close a flow, over whole histories.
use userspace_router.Base.{
  ℕ, ◌≡◌, refl, Bool, true, false, not, ◌&&◌, Option, none, some, List, [], ◌∷◌, if◌then◌else◌,
  arith, Option-cases, inl, inr, is_some,
}
use userspace_router.Base.Map.{lookup, beq_refl}
use userspace_router.ConnTrack.State.{
  syn_sent, syn_received, rst, syn, ack, transition_on_send, transition_on_recv,
}
use userspace_router.ConnTrack.{
  FlowKey, flow_eq, Conn, ConnTrack, fully_closed, advance_egress, advance_ingress, observe_egress,
  check_ingress, sweep, states, new,
}
use userspace_router.ConnTrack.Laws.{
  kept, fresh_conn, egress_of, ingress_of, IsLive, IsTracked, lookup-observe_egress,
  lookup-check_ingress, observe_egress-IsTracked, check_ingress-IsTracked, sweep-IsTracked,
  new-IsTracked,
}

-- A SYN that opens a flow: neither an acknowledgement nor a reset.
abbrev pub opens : ℕ → Bool
opens flags = syn flags && not (ack flags) && not (rst flags)

pub kept-fresh_conn :
    (flags now : ℕ)
    → kept (fresh_conn flags now) ≡ (
        if opens flags
        then some (record { internal = syn_sent; external = syn_received; last_seen = now })
        else none)
unfolding advance_egress transition_on_send transition_on_recv fully_closed
kept-fresh_conn flags now = ground arith

-- In a well-formed table, an outbound packet of an unknown flow opens it exactly when it is a bare
-- SYN (no ACK, no RST); the flow then stands at (SYN-SENT, SYN-RECEIVED). Any other packet leaves
-- it unknown.
pub observe_egress_unknown :
    (t : ConnTrack) (key : FlowKey) (flags now : ℕ)
    → IsTracked t
    → states t key ≡ none
    → states (observe_egress t key flags now).0 key
      ≡ (if opens flags then some (syn_sent, syn_received) else none)
unfolding states
observe_egress_unknown t key flags now v e = elim (Option-cases (lookup key t.flows)) [
  | inl n ↦ ground (
    arith,
    lookup-observe_egress t key key flags now v.distinct,
    beq_refl key,
    kept-fresh_conn flags now,
  )
  | inr (c, s) ↦ ground (arith, e, s)
]

-- Under the invariant an inbound packet is accepted exactly when its flow is in the table.
pub check_ingress_accepts :
    (t : ConnTrack) (key : FlowKey) (flags now : ℕ)
    → IsTracked t
    → (check_ingress t key flags now).1 ≡ is_some (states t key)
unfolding check_ingress states
check_ingress_accepts t key flags now v = elim (Option-cases (lookup key t.flows)) [
  | inl e ↦ rw (e, check_ingress)
  | inr (c, e) ↦ rw (e, check_ingress) (ground (arith, (v.live key c e).is_open))
]

pub kept_egress-rst :
    (o : Option Conn) (flags now : ℕ) → rst flags ≡ true → kept (egress_of o flags now) ≡ none
unfolding advance_egress transition_on_send transition_on_recv fully_closed
kept_egress-rst none flags now h = ground arith
kept_egress-rst (some c) flags now h = ground arith

pub ingress_of-rst :
    (o : Option Conn) (flags now : ℕ)
    → ((c : Conn) → o ≡ some c → IsLive c)
    → rst flags ≡ true
    → ingress_of o flags now ≡ none
unfolding advance_ingress transition_on_send transition_on_recv fully_closed
ingress_of-rst none flags now v h = refl
ingress_of-rst (some c) flags now v h = ground (arith, (v c refl).is_open)

-- In a well-formed table a reset, in either direction, closes the flow: it is gone from the table,
-- and the next inbound packet of it is refused.
pub rst_closes :
    (t : ConnTrack) (key : FlowKey) (flags now : ℕ)
    → IsTracked t
    → rst flags ≡ true
    → (states (observe_egress t key flags now).0 key ≡ none)
      × (states (check_ingress t key flags now).0 key ≡ none)
      × ((later next : ℕ)
          → (check_ingress (observe_egress t key flags now).0 key later next).1 ≡ false)
unfolding states
rst_closes t key flags now v h = (
  ground (arith, out),
  ground (
    arith,
    lookup-check_ingress t key key flags now v.distinct,
    beq_refl key,
    ingress_of-rst (lookup key t.flows) flags now (v.live key) h,
  ),
  λ later next. ground (
    arith,
    out,
    check_ingress_accepts _ key later next (observe_egress-IsTracked t key flags now v),
  ),
)
  where
    out : lookup key (observe_egress t key flags now).0.flows ≡ none
    out = ground (
      arith,
      lookup-observe_egress t key key flags now v.distinct,
      beq_refl key,
      kept_egress-rst (lookup key t.flows) flags now h,
    )

-- What the data plane and the sweeper ask of the tracker.
pub data Event : Type 0 where
  egress ingress : FlowKey → ℕ → ℕ → Event
  sweeps : ℕ → Event

unfoldable pub step : ConnTrack → Event → ConnTrack
step t (egress key flags now) = (observe_egress t key flags now).0
step t (ingress key flags now) = (check_ingress t key flags now).0
step t (sweeps now) = sweep t now

-- The table after a history, newest event first.
unfoldable pub run : List Event → ConnTrack
run [] = new
run (e ∷ past) = step (run past) e

pub step-IsTracked : (t : ConnTrack) (e : Event) → IsTracked t → IsTracked (step t e)
unfolding step
step-IsTracked t (egress key flags now) v = observe_egress-IsTracked t key flags now v
step-IsTracked t (ingress key flags now) v = check_ingress-IsTracked t key flags now v
step-IsTracked t (sweeps now) v = sweep-IsTracked t now v

-- After any history no key stands twice, no stored flow has both ends closed, and none has an end
-- in LISTEN.
pub run-IsTracked : (history : List Event) → IsTracked (run history)
unfolding run
run-IsTracked [] = new-IsTracked
run-IsTracked (e ∷ past) = step-IsTracked (run past) e (run-IsTracked past)
