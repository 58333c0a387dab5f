-- ===== src/ConnTrack/History.antt =====
-- src/router/conntrack.rs: what a tracked flow tells of the packets seen before.
use userspace_router.Base.{
  ℕ, ◌≡◌, refl, ◌⊎◌, Bool, true, false, ◌&&◌, Option, none, some, List, [], ◌∷◌, if◌then◌else◌,
  arith, Option-cases, Bool-cases, inl, inr, subst,
}
use userspace_router.Base.Map.{lookup, lookup-retain, IsMap}
use userspace_router.ConnTrack.{
  FlowKey, flow_eq, flow_beq, Conn, ConnTrack, check_ingress, sweep, is_fresh, rst, new, states,
}
use userspace_router.ConnTrack.Laws.{
  egress_of, ingress_of, kept, lookup-observe_egress, lookup-check_ingress, IsLive,
}
use userspace_router.ConnTrack.Firewall.{
  opens, Event, egress, ingress, sweeps, step, run, run-IsTracked, check_ingress_accepts,
  kept-fresh_conn, kept_egress-rst, ingress_of-rst,
}

-- The LAN host sent a bare SYN of the flow.
abbrev pub is_open_by : FlowKey → Event → Bool
is_open_by k (egress j flags now) = flow_beq j k && opens flags
is_open_by k (ingress j flags now) = false
is_open_by k (sweeps now) = false

-- Either end reset the flow.
abbrev pub is_reset_by : FlowKey → Event → Bool
is_reset_by k (egress j flags now) = flow_beq j k && rst flags
is_reset_by k (ingress j flags now) = flow_beq j k && rst flags
is_reset_by k (sweeps now) = false

-- In the history, newest first, the LAN host opened the flow, and nobody reset it since.
abbrev pub OpenedBy : FlowKey → List Event → Type 0
OpenedBy k [] = ⊥
OpenedBy k (e ∷ past) = (is_open_by k e ≡ true) ⊎ ((is_reset_by k e ≡ false) × OpenedBy k past)

lookup-sweep :
    (t : ConnTrack) (now : ℕ) (k : FlowKey) (c : Conn)
    → IsMap t.flows
    → lookup k (sweep t now).flows ≡ some c
    → lookup k t.flows ≡ some c
unfolding sweep
lookup-sweep t now k c d e = ground (arith, lookup-retain (λ _ x. is_fresh now x) k t.flows d)

egress_case :
    (o : Option Conn) (flags now : ℕ) (c : Conn)
    → kept (egress_of o flags now) ≡ some c
    → (opens flags ≡ true) ⊎ ((rst flags ≡ false) × ((d : Conn) × (o ≡ some d)))
egress_case none flags now c e = ground (arith, kept-fresh_conn flags now)
egress_case (some d) flags now c e = elim (Bool-cases (rst flags)) [
  | inl r ↦ cc (kept_egress-rst (some d) flags now r)
  | inr q ↦ inr (q, (d, refl))
]

ingress_case :
    (o : Option Conn) (flags now : ℕ) (c : Conn)
    → ((d : Conn) → o ≡ some d → IsLive d)
    → ingress_of o flags now ≡ some c
    → (rst flags ≡ false) × ((d : Conn) × (o ≡ some d))
ingress_case none flags now c v e = cc
ingress_case (some d) flags now c v e = elim (Bool-cases (rst flags)) [
  | inl r ↦ cc (ingress_of-rst (some d) flags now v r)
  | inr q ↦ (q, (d, refl))
]

at_key : {j k : FlowKey} → flow_beq j k ≡ true → j ≡ k
at_key {j} {k} same = (flow_eq.beq_iff j k).0 same

-- A flow in the table was opened from the inside by a bare SYN, and was not reset since.
pub tracked-OpenedBy :
    (history : List Event) (k : FlowKey) (c : Conn)
    → lookup k (run history).flows ≡ some c
    → OpenedBy k history
unfolding run step
tracked-OpenedBy [] k c e = unfold new lookup in cc
tracked-OpenedBy (egress j flags now ∷ past) k c e = elim (Bool-cases (flow_beq j k)) [
  | inl same ↦ elim (egress_case (lookup j (run past).flows) flags now c (ground (arith, law))) [
    | inl opened ↦ inl (ground arith)
    | inr (q, (d, was)) ↦ inr (
      ground arith,
      tracked-OpenedBy past k d (subst (λ i. lookup i (run past).flows ≡ some d) (at_key same) was),
    )
  ]
  | inr other ↦ inr (ground arith, tracked-OpenedBy past k c (ground (arith, law)))
]
  where
    law : lookup k (run (egress j flags now ∷ past)).flows ≡ (
        if flow_beq j k
        then kept (egress_of (lookup j (run past).flows) flags now)
        else lookup k (run past).flows)
    law = lookup-observe_egress (run past) j k flags now (run-IsTracked past).distinct
tracked-OpenedBy (ingress j flags now ∷ past) k c e = elim (Bool-cases (flow_beq j k)) [
  | inl same ↦
      let (q, (d, was)) =
        ingress_case (lookup j (run past).flows) flags now c ((run-IsTracked past).live j)
          (ground (arith, law)) in
      inr (
        ground arith,
        tracked-OpenedBy past k d
            (subst (λ i. lookup i (run past).flows ≡ some d) (at_key same) was),
      )
  | inr other ↦ inr (ground arith, tracked-OpenedBy past k c (ground (arith, law)))
]
  where
    law : lookup k (run (ingress j flags now ∷ past)).flows ≡ (
        if flow_beq j k
        then ingress_of (lookup j (run past).flows) flags now
        else lookup k (run past).flows)
    law = lookup-check_ingress (run past) j k flags now (run-IsTracked past).distinct
tracked-OpenedBy (sweeps now ∷ past) k c e = inr (
  refl,
  tracked-OpenedBy past k c (lookup-sweep (run past) now k c (run-IsTracked past).distinct e),
)

-- The firewall: after any history an inbound packet is accepted only if the LAN host opened its
-- flow by a bare SYN, and neither end has reset it since.
pub check_ingress-OpenedBy :
    (history : List Event) (k : FlowKey) (flags now : ℕ)
    → (check_ingress (run history) k flags now).1 ≡ true
    → OpenedBy k history
unfolding states
check_ingress-OpenedBy history k flags now h = elim (Option-cases (lookup k (run history).flows)) [
  | inl e ↦
      ground (arith, e, check_ingress_accepts (run history) k flags now (run-IsTracked history))
  | inr (c, e) ↦ tracked-OpenedBy history k c e
]
