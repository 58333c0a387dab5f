-- ===== src/ConnTrack/Tests.antt =====
-- src/router/conntrack.rs: the tracker on the packets of one connection.
use userspace_router.Base.{◌≡◌, refl, true, false, some, List, [], ◌∷◌}
use userspace_router.Base.Map.{lookup, insert}
use userspace_router.ConnTrack.{
  flow_eq, FlowKey, Conn, observe_egress, check_ingress, states, new, established,
  transition_on_send, transition_on_recv, fully_closed, advance_egress, rst, syn, ack,
  advance_ingress, fin,
}
use userspace_router.ConnTrack.Laws.{IsTracked}
use userspace_router.ConnTrack.Firewall.{
  Event, egress, ingress, step, run, run-IsTracked, check_ingress_accepts,
}
use userspace_router.ConnTrack.History.{OpenedBy, check_ingress-OpenedBy}

-- 192.168.1.50:49152 to 203.0.113.10:443
abbrev web : FlowKey
web = record { int_ip = 0xc0a80132; int_port = 49_152; ext_ip = 0xcb00710a; ext_port = 443 }

-- SYN, SYN+ACK, ACK, newest first
abbrev handshake : List Event
handshake = egress web 0x10 2 ∷ ingress web 0x12 1 ∷ egress web 0x02 0 ∷ []

abbrev web_conn : Conn
web_conn = record { internal = established; external = established; last_seen = 2 }

lookup-handshake : lookup web (run handshake).flows ≡ some web_conn
unfolding run observe_egress check_ingress lookup insert new step fully_closed advance_egress
    transition_on_send rst syn ack advance_ingress transition_on_recv fin
lookup-handshake = refl

states-handshake : states (run handshake) web ≡ some (established, established)
unfolding run observe_egress check_ingress lookup insert new states step fully_closed advance_egress
    transition_on_send rst syn ack advance_ingress transition_on_recv fin
states-handshake = refl

-- A probe of a flow that nobody opened is refused.
unsolicited : (check_ingress new web 0x02 5).1 ≡ false
unfolding check_ingress lookup new
unsolicited = refl

-- The answer to the handshake is accepted.
solicited : (check_ingress (run handshake) web 0x18 9).1 ≡ true
unfolding run observe_egress check_ingress lookup insert new states step fully_closed advance_egress
    transition_on_send rst syn ack advance_ingress transition_on_recv fin
solicited = check_ingress_accepts (run handshake) web 0x18 9 (run-IsTracked handshake)

run-IsTracked_example : IsTracked (run handshake)
run-IsTracked_example = run-IsTracked handshake

check_ingress-OpenedBy_example : OpenedBy web handshake
check_ingress-OpenedBy_example = check_ingress-OpenedBy handshake web 0x18 9 solicited
