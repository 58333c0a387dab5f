-- ===== src/ConnTrack/Diagram.antt =====
-- src/router/conntrack.rs: the transition functions against the diagram of RFC 9293, and the
-- states that a handshake and a close walk through.
use userspace_router.Base.{
  if◌then◌else◌, ◌&&◌, not, Bool-cases, Option-cases, refl, ℕ, ◌≡◌, Bool, true, false, some, none,
  arith, inl, inr,
}
use userspace_router.Base.Map.{lookup, beq_refl}
use userspace_router.ConnTrack.{
  flow_eq, is_closed, TcpState, closed, listen, syn_sent, syn_received, established, fin_wait1,
  fin_wait2, close_wait, closing, last_ack, time_wait, syn, ack, fin, rst, transition_on_send,
  transition_on_recv, FlowKey, ConnTrack, advance_egress, advance_ingress, fully_closed, states,
}
use userspace_router.ConnTrack.Laws.{IsTracked, lookup-observe_egress, lookup-check_ingress}
use userspace_router.ConnTrack.Firewall.{
  egress, ingress, step, step-IsTracked, opens, observe_egress_unknown,
}

-- The arrows of RFC 9293, section 3.3.2, that a segment drives, and the passive open of a closed
-- end that the tracker adds.
pub data Arrow : TcpState → TcpState → Type 0 where
  active_open : Arrow closed syn_sent
  passive_open : Arrow closed syn_received
  listen_syn : Arrow listen syn_received
  syn_acked : Arrow syn_sent established
  simultaneous_open : Arrow syn_sent syn_received
  handshake_done : Arrow syn_received established
  close_first : Arrow established fin_wait1
  peer_closes : Arrow established close_wait
  close_second : Arrow close_wait last_ack
  fin_acked : Arrow fin_wait1 fin_wait2
  both_close : Arrow fin_wait1 closing
  fin_and_ack : Arrow fin_wait1 time_wait
  peer_closes_last : Arrow fin_wait2 time_wait
  closing_acked : Arrow closing time_wait
  last_acked : Arrow last_ack closed

-- The state stands still, a reset closes it, or it takes an arrow.
pub data Follows (flags : ℕ) (s : TcpState) : TcpState → Type 0 where
  stays : Follows flags s s
  resets : rst flags ≡ true → Follows flags s closed
  moves : {t : TcpState} → Arrow s t → Follows flags s t

pick :
    {flags : ℕ} {s x y : TcpState} (b : Bool)
    → Follows flags s x
    → Follows flags s y
    → Follows flags s (if b then x else y)
pick true p q = p
pick false p q = q

reset_or :
    {flags : ℕ} {s t : TcpState}
    → Follows flags s t
    → Follows flags s (if rst flags then closed else t)
reset_or {flags} p = elim (Bool-cases (rst flags)) [ inl r ↦ rw r (resets r) | inr q ↦ rw q p ]

send-Follows : (s : TcpState) (flags : ℕ) → Follows flags s (transition_on_send s flags)
unfolding transition_on_send
send-Follows closed flags = reset_or (pick _ (moves active_open) stays)
send-Follows listen flags = reset_or (pick _ (moves listen_syn) stays)
send-Follows syn_sent flags = reset_or stays
send-Follows syn_received flags = reset_or (pick _ stays stays)
send-Follows established flags = reset_or (pick _ (moves close_first) stays)
send-Follows fin_wait1 flags = reset_or stays
send-Follows fin_wait2 flags = reset_or stays
send-Follows close_wait flags = reset_or (pick _ (moves close_second) stays)
send-Follows closing flags = reset_or stays
send-Follows last_ack flags = reset_or stays
send-Follows time_wait flags = reset_or stays

recv-Follows : (s : TcpState) (flags : ℕ) → Follows flags s (transition_on_recv s flags)
unfolding transition_on_recv
recv-Follows closed flags = reset_or (pick _ (moves passive_open) stays)
recv-Follows listen flags = reset_or (pick _ (moves listen_syn) stays)
recv-Follows syn_sent flags =
    reset_or (pick _ (moves syn_acked) (pick _ (moves simultaneous_open) stays))
recv-Follows syn_received flags = reset_or (pick _ (moves handshake_done) stays)
recv-Follows established flags = reset_or (pick _ (moves peer_closes) stays)
recv-Follows fin_wait1 flags =
    reset_or
      (pick _ (moves fin_and_ack) (pick _ (moves both_close) (pick _ (moves fin_acked) stays)))
recv-Follows fin_wait2 flags = reset_or (pick _ (moves peer_closes_last) stays)
recv-Follows close_wait flags = reset_or stays
recv-Follows closing flags = reset_or (pick _ (moves closing_acked) stays)
recv-Follows last_ack flags = reset_or (pick _ (moves last_acked) stays)
recv-Follows time_wait flags = reset_or stays

-- Both transition functions leave the state, close it on a reset, or take an arrow of the diagram.
pub transitions-Follows :
    (s : TcpState) (flags : ℕ)
    → Follows flags s (transition_on_send s flags) × Follows flags s (transition_on_recv s flags)
transitions-Follows s flags = (send-Follows s flags, recv-Follows s flags)

-- Flags of the segments of a handshake and a close; none is a reset.
abbrev pub is_syn_ack : ℕ → Bool
is_syn_ack f = syn f && ack f && not (rst f)

abbrev pub is_ack : ℕ → Bool
is_ack f = ack f && not (syn f) && not (fin f) && not (rst f)

abbrev pub is_fin_ack : ℕ → Bool
is_fin_ack f = fin f && ack f && not (syn f) && not (rst f)

-- The flow is stored, with these states.
record At (t : ConnTrack) (k : FlowKey) (i x : TcpState) : Type 0 where
  tracked : IsTracked t
  stands : states t k ≡ some (i, x)

module _ {t : ConnTrack} {k : FlowKey} {i x : TcpState} (i' x' : TcpState) (flags now : ℕ) where
  At-egress :
      At t k i x
      → transition_on_send i flags ≡ i'
      → transition_on_recv x flags ≡ x'
      → (is_closed i' && is_closed x') ≡ false
      → At (step t (egress k flags now)) k i' x'
  unfolding step states advance_egress fully_closed
  At-egress a p q h = record {
    tracked = step-IsTracked t (egress k flags now) v;
    stands = elim (Option-cases (lookup k t.flows)) [
      | inl n ↦ ground (arith, n, e)
      | inr (c, s) ↦
          ground (arith, s, e, lookup-observe_egress t k k flags now v.distinct, beq_refl k)
    ];
  }
    where
      open a use {tracked as v, stands as e}

  At-ingress :
      At t k i x
      → transition_on_recv i flags ≡ i'
      → transition_on_send x flags ≡ x'
      → (is_closed i' && is_closed x') ≡ false
      → At (step t (ingress k flags now)) k i' x'
  unfolding step states advance_ingress fully_closed
  At-ingress a p q h = record {
    tracked = step-IsTracked t (ingress k flags now) v;
    stands = elim (Option-cases (lookup k t.flows)) [
      | inl n ↦ ground (arith, n, e)
      | inr (c, s) ↦ ground (
        arith,
        s,
        e,
        lookup-check_ingress t k k flags now v.distinct,
        beq_refl k,
        (v.live k c s).is_open,
      )
    ];
  }
    where
      open a use {tracked as v, stands as e}

-- The three segments of a handshake take a flow that a well-formed table does not hold to
-- ESTABLISHED at both ends.
pub handshake_establishes :
    (t : ConnTrack) (k : FlowKey) (f1 f2 f3 n1 n2 n3 : ℕ)
    → IsTracked t
    → states t k ≡ none
    → opens f1 ≡ true
    → is_syn_ack f2 ≡ true
    → is_ack f3 ≡ true
    → states (step (step (step t (egress k f1 n1)) (ingress k f2 n2)) (egress k f3 n3)) k
      ≡ some (established, established)
unfolding transition_on_send transition_on_recv step
handshake_establishes t k f1 f2 f3 n1 n2 n3 v e h1 h2 h3 =
    (At-egress established established f3 n3 second (ground arith) (ground arith) refl).stands
  where
    first : At (step t (egress k f1 n1)) k syn_sent syn_received
    first = record {
      tracked = step-IsTracked t (egress k f1 n1) v;
      stands = ground (arith, observe_egress_unknown t k f1 n1 v e);
    }

    second : At (step (step t (egress k f1 n1)) (ingress k f2 n2)) k established syn_received
    second = At-ingress established syn_received f2 n2 first (ground arith) (ground arith) refl

-- From (ESTABLISHED, ESTABLISHED) in a well-formed table, a close by the LAN host, its FIN, the
-- peer's ACK, the peer's FIN and the last ACK, leaves the LAN host in TIME-WAIT and the peer
-- closed; the flow stays tracked.
pub close_from_inside :
    (t : ConnTrack) (k : FlowKey) (f1 f2 f3 f4 n1 n2 n3 n4 : ℕ)
    → IsTracked t
    → states t k ≡ some (established, established)
    → is_fin_ack f1 ≡ true
    → is_ack f2 ≡ true
    → is_fin_ack f3 ≡ true
    → is_ack f4 ≡ true
    → states
        (step
          (step (step (step t (egress k f1 n1)) (ingress k f2 n2)) (ingress k f3 n3))
          (egress k f4 n4))
        k
      ≡ some (time_wait, closed)
unfolding transition_on_send transition_on_recv
close_from_inside t k f1 f2 f3 f4 n1 n2 n3 n4 v e h1 h2 h3 h4 =
    (At-egress time_wait closed f4 n4 third (ground arith) (ground arith) refl).stands
  where
    first : At (step t (egress k f1 n1)) k fin_wait1 close_wait
    first =
        At-egress fin_wait1 close_wait f1 n1 (record { tracked = v; stands = e }) (ground arith)
          (ground arith) refl

    second : At (step (step t (egress k f1 n1)) (ingress k f2 n2)) k fin_wait2 close_wait
    second = At-ingress fin_wait2 close_wait f2 n2 first (ground arith) (ground arith) refl

    third :
        At
          (step (step (step t (egress k f1 n1)) (ingress k f2 n2)) (ingress k f3 n3))
          k
          time_wait
          last_ack
    third = At-ingress time_wait last_ack f3 n3 second (ground arith) (ground arith) refl
