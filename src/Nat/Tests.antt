-- ===== src/Nat/Tests.antt =====
-- src/router/nat.rs: the table on the flows of its own tests.

use userspace_router.Base.{ℕ, ◌≡◌, refl, some, []}
use userspace_router.Base.Map.{lookup, insert}
use userspace_router.Nat
use userspace_router.Nat.{Nat, tcp, udp, egress, ingress, alloc_port, Egress, proto}
use userspace_router.Nat.Alloc.{InRange}
use userspace_router.Nat.Laws.{
  IsConsistent, Egresses, new-IsConsistent, egress-IsConsistent, egress-Egresses, ingress-egress,
}
use userspace_router.Nat.Flows.{egress_injective}

-- 203.0.113.1 with two ports
abbrev empty : Nat
empty = record {
  wan_ip = 0xcb007101;
  port_lo = 40_000;
  port_hi = 40_001;
  next_port = 40_000;
  fwd = [];
  rev = [];
}

empty-IsConsistent : IsConsistent empty
unfolding Nat.new
empty-IsConsistent = new-IsConsistent 0xcb007101 40_000 40_001 empty refl

-- 192.168.1.50:49152 has opened a connection.
abbrev one_flow : Nat
one_flow = (egress empty tcp 0xc0a80132 49_152).0

one_flow-IsConsistent : IsConsistent one_flow
one_flow-IsConsistent = egress-IsConsistent empty tcp 0xc0a80132 49_152 empty-IsConsistent

first_port :
    (egress empty tcp 0xc0a80132 49_152).1
    ≡ some (record { new_src_ip = 0xcb007101; new_src_port = 40_000 })
unfolding egress lookup alloc_port Nat.scan
first_port = refl

second_port :
    (egress one_flow tcp 0xc0a80133 49_152).1
    ≡ some (record { new_src_ip = 0xcb007101; new_src_port = 40_001 })
unfolding egress lookup alloc_port Nat.scan insert proto Nat.next_candidate
second_port = refl

egress-IsConsistent_example : IsConsistent (egress one_flow tcp 0xc0a80133 49_152).0
egress-IsConsistent_example =
    egress-IsConsistent one_flow tcp 0xc0a80133 49_152 one_flow-IsConsistent

egress-Egresses_example : Egresses one_flow udp 0xc0a80133 53 (egress one_flow udp 0xc0a80133 53)
egress-Egresses_example = egress-Egresses one_flow udp 0xc0a80133 53 one_flow-IsConsistent

ingress-egress_example :
    (ingress (egress one_flow tcp 0xc0a80133 49_152).0 tcp 40_001 ≡ some (0xc0a80133, 49_152))
    × (one_flow.wan_ip ≡ empty.wan_ip)
    × InRange one_flow 40_001
unfolding egress lookup alloc_port Nat.scan
ingress-egress_example =
    ingress-egress one_flow tcp 0xc0a80133 49_152
      (record { new_src_ip = 0xcb007101; new_src_port = 40_001 }) one_flow-IsConsistent second_port

abbrev client : ℕ
client = 0xc0a80132

abbrev client_port : ℕ
client_port = 49_152

egress_injective_example : (client ≡ 0xc0a80132) × (client_port ≡ 49_152)
unfolding egress lookup alloc_port Nat.scan insert proto
egress_injective_example =
    egress_injective empty tcp 0xc0a80132 49_152 0xc0a80132 49_152
      (record { new_src_ip = 0xcb007101; new_src_port = 40_000 })
      (record { new_src_ip = 0xcb007101; new_src_port = 40_000 }) empty-IsConsistent first_port refl
      refl
