-- ===== src/ConnTrack/Laws.antt =====
-- src/router/conntrack.rs: what each operation of the connection tracker does to every flow.
use userspace_router.Base.{
  refl, ℕ, ◌≡◌, ◌≢◌, false, Option, none, some, if◌then◌else◌, arith, Option-cases, inl, inr,
}
use userspace_router.Base.Map.{
  Map, lookup, insert, remove, IsMap, lookup-insert, lookup-remove, insert-IsMap, remove-IsMap,
  retain-IsMap, lookup-retain,
}
use userspace_router.ConnTrack.State.{closed, listen}
use userspace_router.ConnTrack.{
  FlowKey, flow_eq, flow_beq, Conn, ConnTrack, fully_closed, advance_egress, observe_egress, new,
  transition_on_send, sweep, check_ingress, transition_on_recv, advance_ingress, is_fresh, TcpState,
}

-- What is stored after a packet moved an entry on: nothing, if both ends are closed.
abbrev pub kept : Conn → Option Conn
kept c = if fully_closed c then none else some c

-- The tables that the operations build: distinct keys, and no entry with both ends closed or with
-- an end in LISTEN.
pub record IsLive (c : Conn) : Type 0 where
  pub is_open : fully_closed c ≡ false
  pub internal_active : c.internal ≢ listen
  pub external_active : c.external ≢ listen

pub record IsTracked (t : ConnTrack) : Type 0 where
  pub distinct : IsMap t.flows
  pub live : (k : FlowKey) (c : Conn) → lookup k t.flows ≡ some c → IsLive c

-- The entry that an outbound packet of an unknown flow leads to.
abbrev pub fresh_conn : ℕ → ℕ → Conn
fresh_conn flags now =
    advance_egress (record { internal = closed; external = closed; last_seen = now }) flags now

abbrev pub egress_of : Option Conn → ℕ → ℕ → Conn
egress_of none flags now = fresh_conn flags now
egress_of (some c) flags now = advance_egress c flags now

module _ (key j : FlowKey) (c : Conn) (m : Map FlowKey Conn) (d : IsMap m) where
  store : Map FlowKey Conn
  store = if fully_closed c then remove key (insert key c m) else insert key c m

  lookup-store : lookup j store ≡ (if flow_beq key j then kept c else lookup j m)
  unfolding store
  lookup-store = ground (
    arith,
    lookup-remove key j (insert key c m) (insert-IsMap key c m d),
    lookup-insert key j c m,
  )

  store-IsMap : IsMap store
  unfolding store
  store-IsMap =
      ground
        (arith, insert-IsMap key c m d, remove-IsMap key (insert key c m) (insert-IsMap key c m d))

pub lookup-observe_egress :
    (t : ConnTrack) (key j : FlowKey) (flags now : ℕ)
    → IsMap t.flows
    → lookup j (observe_egress t key flags now).0.flows ≡ (
        if flow_beq key j
        then kept (egress_of (lookup key t.flows) flags now)
        else lookup j t.flows)
unfolding observe_egress store
lookup-observe_egress t key j flags now d = elim (Option-cases (lookup key t.flows)) [
  | inl e ↦ rw (e, observe_egress) (lookup-store key j (fresh_conn flags now) t.flows d)
  | inr (c, e) ↦ rw (e, observe_egress) (lookup-store key j (advance_egress c flags now) t.flows d)
]

observe_egress-IsMap :
    (t : ConnTrack) (key : FlowKey) (flags now : ℕ)
    → IsMap t.flows
    → IsMap (observe_egress t key flags now).0.flows
unfolding observe_egress store
observe_egress-IsMap t key flags now d = elim (Option-cases (lookup key t.flows)) [
  | inl e ↦ rw (e, observe_egress) (store-IsMap key key (fresh_conn flags now) t.flows d)
  | inr (c, e) ↦ rw (e, observe_egress) (store-IsMap key key (advance_egress c flags now) t.flows d)
]

-- What is stored for a flow after an inbound packet.
abbrev pub ingress_of : Option Conn → ℕ → ℕ → Option Conn
ingress_of none flags now = none
ingress_of (some c) flags now =
    if fully_closed c then some c else kept (advance_ingress c flags now)

pub lookup-check_ingress :
    (t : ConnTrack) (key j : FlowKey) (flags now : ℕ)
    → IsMap t.flows
    → lookup j (check_ingress t key flags now).0.flows
      ≡ (if flow_beq key j then ingress_of (lookup key t.flows) flags now else lookup j t.flows)
unfolding check_ingress store
lookup-check_ingress t key j flags now d = elim (Option-cases (lookup key t.flows)) [
  | inl e ↦ rw (e, check_ingress) (ground (arith, flow_eq.beq_iff key j))
  | inr (c, e) ↦
      rw (e, check_ingress)
        (ground (
          arith,
          flow_eq.beq_iff key j,
          lookup-store key j (advance_ingress c flags now) t.flows d,
        ))
]

check_ingress-IsMap :
    (t : ConnTrack) (key : FlowKey) (flags now : ℕ)
    → IsMap t.flows
    → IsMap (check_ingress t key flags now).0.flows
unfolding check_ingress store
check_ingress-IsMap t key flags now d = elim (Option-cases (lookup key t.flows)) [
  | inl e ↦ rw (e, check_ingress) d
  | inr (c, e) ↦
      rw (e, check_ingress)
        (ground (arith, store-IsMap key key (advance_ingress c flags now) t.flows d))
]

transition_on_send-ne-listen :
    (s : TcpState) (flags : ℕ) → s ≢ listen → transition_on_send s flags ≢ listen
unfolding transition_on_send
transition_on_send-ne-listen s flags h = ground arith

transition_on_recv-ne-listen :
    (s : TcpState) (flags : ℕ) → s ≢ listen → transition_on_recv s flags ≢ listen
unfolding transition_on_recv
transition_on_recv-ne-listen s flags h = ground arith

-- An entry that may be moved on: no end listens.
record IsActive (c : Conn) : Type 0 where
  internal_active : c.internal ≢ listen
  external_active : c.external ≢ listen

kept_egress-IsLive :
    (c : Conn) (flags now : ℕ) (d : Conn)
    → IsActive c
    → kept (advance_egress c flags now) ≡ some d
    → IsLive d
unfolding advance_egress
kept_egress-IsLive c flags now d a e = ground (
  arith,
  transition_on_send-ne-listen c.internal flags,
  transition_on_recv-ne-listen c.external flags,
)

kept_ingress-IsLive :
    (c : Conn) (flags now : ℕ) (d : Conn)
    → IsActive c
    → kept (advance_ingress c flags now) ≡ some d
    → IsLive d
unfolding advance_ingress
kept_ingress-IsLive c flags now d a e = ground (
  arith,
  transition_on_send-ne-listen c.external flags,
  transition_on_recv-ne-listen c.internal flags,
)

egress_of-IsLive :
    (o : Option Conn) (flags now : ℕ) (d : Conn)
    → ((c : Conn) → o ≡ some c → IsLive c)
    → kept (egress_of o flags now) ≡ some d
    → IsLive d
egress_of-IsLive none flags now d h e =
    kept_egress-IsLive _ flags now d
      (record { internal_active = λ p. cc; external_active = λ p. cc }) e
egress_of-IsLive (some c) flags now d h e =
    let l : IsLive c = h c refl in
    kept_egress-IsLive c flags now d
      (record { internal_active = l.internal_active; external_active = l.external_active }) e

ingress_of-IsLive :
    (o : Option Conn) (flags now : ℕ) (d : Conn)
    → ((c : Conn) → o ≡ some c → IsLive c)
    → ingress_of o flags now ≡ some d
    → IsLive d
ingress_of-IsLive none flags now d h e = cc
ingress_of-IsLive (some c) flags now d h e =
    let l : IsLive c = h c refl in
    kept_ingress-IsLive c flags now d
      (record { internal_active = l.internal_active; external_active = l.external_active })
      (ground (arith, l.is_open))

pub new-IsTracked : IsTracked new
unfolding new lookup
new-IsTracked = record { distinct = tt; live = λ k c e. cc }

-- An outbound packet keeps the table tracked.
pub observe_egress-IsTracked :
    (t : ConnTrack) (key : FlowKey) (flags now : ℕ)
    → IsTracked t
    → IsTracked (observe_egress t key flags now).0
observe_egress-IsTracked t key flags now v = record {
  distinct = observe_egress-IsMap t key flags now v.distinct;
  live = λ k c e. ground (
    arith,
    lookup-observe_egress t key k flags now v.distinct,
    egress_of-IsLive (lookup key t.flows) flags now c (v.live key),
    v.live k c,
  );
}

-- So does an inbound one.
pub check_ingress-IsTracked :
    (t : ConnTrack) (key : FlowKey) (flags now : ℕ)
    → IsTracked t
    → IsTracked (check_ingress t key flags now).0
check_ingress-IsTracked t key flags now v = record {
  distinct = check_ingress-IsMap t key flags now v.distinct;
  live = λ k c e. ground (
    arith,
    lookup-check_ingress t key k flags now v.distinct,
    ingress_of-IsLive (lookup key t.flows) flags now c (v.live key),
    v.live k c,
  );
}

-- And a sweep.
pub sweep-IsTracked : (t : ConnTrack) (now : ℕ) → IsTracked t → IsTracked (sweep t now)
unfolding sweep
sweep-IsTracked t now v = record {
  distinct = retain-IsMap (λ _ c. is_fresh now c) t.flows v.distinct;
  live = λ k c e.
      ground (arith, lookup-retain (λ _ c. is_fresh now c) k t.flows v.distinct, v.live k c);
}
