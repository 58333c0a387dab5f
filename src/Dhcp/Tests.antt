-- ===== src/Dhcp/Tests.antt =====
-- src/router/dhcp.rs: a server with four addresses and two clients.
use userspace_router.Pool.{take, addresses, wrapped_span}
use userspace_router.Base.Map
use userspace_router.Base.{ℕ, ◌≡◌, refl, false, Option, none, some, [], ◌∷◌, arith}
use userspace_router.Leases
use userspace_router.Dhcp.{
  DhcpServerConfig, DhcpServer, Reply, handle, assign, answer_discover, is_nak,
}
use userspace_router.Dhcp.Message.{DhcpView, MessageType, discover, request, offer, ack}
use userspace_router.Dhcp.Leased.{IsExclusive, Keeps, Assigns, assign-Assigns}
use userspace_router.Dhcp.Service.{handle-Keeps}
use userspace_router.Dhcp.Payload.{reply_options, message_type, reply_read}
use userspace_router.Options.{server_id, lease_time, subnet_mask, get, octets}
use userspace_router.Base.{List, is_nil, if◌then◌else◌}
use userspace_router.Dhcp.Exchange.{at_once, after, discover_request}

abbrev config : DhcpServerConfig
config = record {
  server_ip = 1;
  server_mac = 2;
  gateway = 1;
  subnet_mask = 0xffffff00;
  dns = 8 ∷ 9 ∷ [];
  lease_secs = 3600;
}

abbrev server : DhcpServer
server = record {
  cfg = config;
  pool = record { start = 100; end = 103; intervals = (100, 103) ∷ [] };
  leases = record { by_mac = [] };
}

server-IsExclusive : IsExclusive server
unfolding Map.lookup
server-IsExclusive = record {
  valid = record { ordered = omega arith; small = omega arith };
  keys = tt;
  in_range = λ m i h. cc;
  not_free = λ m i h. cc;
  unique = λ m m' i h h'. cc;
}

abbrev message : ℕ → MessageType → Option ℕ → DhcpView
message mac kind ip = record {
  xid = 7;
  chaddr = mac;
  broadcast = false;
  ciaddr = 0;
  yiaddr = 0;
  kind = some kind;
  server_id = none;
  requested_ip = ip;
  subnet_mask = none;
  first_router = none;
  lease_time = none;
}

abbrev leased : DhcpServer
leased = record {
  cfg = config;
  pool = record { start = 100; end = 103; intervals = (101, 103) ∷ [] };
  leases = record { by_mac = (16, 100) ∷ [] };
}

abbrev both_leased : DhcpServer
both_leased = record {
  cfg = config;
  pool = record { start = 100; end = 103; intervals = (102, 103) ∷ [] };
  leases = record { by_mac = (16, 100) ∷ (17, 101) ∷ [] };
}

abbrev reply : MessageType → ℕ → ℕ → Reply
reply kind mac ip = record { kind = kind; xid = 7; yiaddr = ip; client = mac; broadcast = false }

first_offer : handle server (message 16 discover none) ≡ some (leased, some (reply offer 16 100))
unfolding handle answer_discover assign Leases.lookup Map.lookup take addresses Leases.insert
    Map.insert wrapped_span
first_offer = refl

second_offer :
    handle leased (message 17 discover none) ≡ some (both_leased, some (reply offer 17 101))
unfolding handle answer_discover assign Leases.lookup Map.lookup take addresses Leases.insert
    Map.insert wrapped_span
second_offer = refl

assign-Assigns_example : Assigns server 16 (assign server 16)
assign-Assigns_example = assign-Assigns server 16 server-IsExclusive.valid

handle-Keeps_example :
    (r : DhcpServer × Option Reply) × (handle server (message 16 discover none) ≡ some r)
    × Keeps server r.0
handle-Keeps_example = handle-Keeps server (message 16 discover none) server-IsExclusive

discover_request_example :
    ((reply offer 16 100).kind ≡ offer)
    × (handle both_leased (message 16 request (some 100))
        ≡ some (both_leased, some (reply ack 16 100)))
discover_request_example =
    discover_request server leased both_leased (message 16 discover none)
      (message 16 request (some 100)) (reply offer 16 100) server-IsExclusive refl first_offer
      (after leased (message 17 discover none) (both_leased, some (reply offer 17 101)) at_once
        (λ e. omega (arith, e)) second_offer)
      refl refl refl refl

reply_read_example :
    (bytes : List ℕ) × (reply_options config ack ≡ some bytes)
    × (message_type bytes ≡ some ack)
    × (server_id bytes ≡ some config.server_ip)
    × (is_nak ack ≡ false
        → (lease_time bytes ≡ some config.lease_secs)
          × (subnet_mask bytes ≡ some config.subnet_mask)
          × (get bytes 6 ≡ (if is_nil config.dns then none else some (octets config.dns))))
reply_read_example =
    reply_read config ack (record { server = omega arith; mask = omega arith; lease = omega arith })
      (omega arith)
