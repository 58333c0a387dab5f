-- ===== src/DhcpClient/Tests.antt =====
-- src/router/dhcp.rs: a client that is offered an address and acknowledged.
use userspace_router.Frame.{build_udp_ipv4}
use userspace_router.Options.{option, writer, end}
use userspace_router.Base.{◌≡◌, refl, false, none, some, List, [], ◌∷◌, arith, ℕ, replicate}
use userspace_router.DhcpClient.Sent.{IsSent}
use userspace_router.Dhcp.Message.{DhcpView, MessageType, offer, ack, discover, request}
use userspace_router.DhcpClient.{
  DhcpClient, DhcpLease, selecting, bound, new, poll, on_receive, bound_ip, build, client_header,
}
use userspace_router.DhcpClient.History.{
  ClientEvent, polls, receives, client_run, IsAcked, lease-IsAcked, client_step,
}
use userspace_router.DhcpClient.Exchange.{client_exchange}

abbrev answer : MessageType → DhcpView
answer kind = record {
  xid = 42;
  chaddr = 16;
  broadcast = false;
  ciaddr = 0;
  yiaddr = 100;
  kind = some kind;
  server_id = some 1;
  requested_ip = none;
  subnet_mask = none;
  first_router = some 1;
  lease_time = some 3600;
}

abbrev client : DhcpClient
client = new 16 42

abbrev buffer : List ℕ
buffer = replicate 400 0

client_exchange_example :
    IsSent client discover none none (poll client buffer).1
    × ((poll client buffer).0.state ≡ selecting)
    × IsSent client request
        (some 100)
        (some 1)
        (poll (on_receive (poll client buffer).0 (answer offer)) buffer).1
    × ((on_receive
          (poll (on_receive (poll client buffer).0 (answer offer)) buffer).0
          (answer ack)).state
        ≡ bound)
    × (bound_ip (
          on_receive
            (poll (on_receive (poll client buffer).0 (answer offer)) buffer).0
            (answer ack))
        ≡ some 100)
unfolding new
client_exchange_example =
    client_exchange client buffer buffer (answer offer) (answer ack) refl (omega arith)
      (omega arith) refl refl refl refl

abbrev history : List ClientEvent
history = receives (answer ack) ∷ polls buffer ∷ receives (answer offer) ∷ polls buffer ∷ []

abbrev lease : DhcpLease
lease = record {
  ip = 100;
  subnet_mask = none;
  gateway = some 1;
  server_id = some 1;
  lease_secs = some 3600;
}

lease-IsAcked_example : IsAcked 16 42 100 history
unfolding client_run client_step on_receive poll new build option writer end build_udp_ipv4
    client_header
lease-IsAcked_example = lease-IsAcked 16 42 history lease refl
