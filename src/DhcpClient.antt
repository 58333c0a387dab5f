-- ===== src/DhcpClient.antt =====
-- src/router/dhcp.rs: the DHCP client of the WAN, `DhcpClient`.
pub mod History
pub mod Sent
pub mod Exchange
mod Tests
use userspace_router.Base.{
  ℕ, ◌+◌, Bool, true, false, Option, none, some, List, [], ◌∷◌, ◌++◌, if◌then◌else◌, ◌==◌,
  replicate,
}
use userspace_router.Wire.{u16_bytes, u32_bytes}
use userspace_router.Arp.{mac_bytes}
use userspace_router.Frame.{UdpV4, build_udp_ipv4}
use userspace_router.Options.{OptionsWriter, writer, option, ipv4, end}
use userspace_router.Dhcp.Message.{
  MessageType, discover, offer, request, decline, ack, nak, release, inform, to_u8, DhcpView,
}
use userspace_router.Dhcp.Payload.{and_then}

pub data ClientState : Type 0 where
  init selecting requesting bound : ClientState

pub record DhcpLease : Type 0 where
  pub ip : ℕ
  pub subnet_mask : Option ℕ
  pub gateway : Option ℕ
  pub server_id : Option ℕ
  pub lease_secs : Option ℕ

pub record DhcpClient : Type 0 where
  pub mac : ℕ
  pub xid : ℕ
  pub state : ClientState
  pub offered_ip : Option ℕ
  pub server_id : Option ℕ
  pub lease : Option DhcpLease

pub new : ℕ → ℕ → DhcpClient
new mac xid = record {
  mac = mac;
  xid = xid;
  state = init;
  offered_ip = none;
  server_id = none;
  lease = none;
}

pub bound_ip : DhcpClient → Option ℕ
bound_ip c = elim c.lease [ none ↦ none | some l ↦ some l.ip ]

-- An option for an address, if there is one.
write_if : OptionsWriter → ℕ → Option ℕ → OptionsWriter × Bool
write_if w code none = (w, true)
write_if w code (some a) = ipv4 w code a

write_request : DhcpClient → MessageType → OptionsWriter → OptionsWriter × Bool
unfolding write_if
write_request c request w = and_then (write_if w 50 c.offered_ip) (λ w. write_if w 54 c.server_id)
write_request c _ w = (w, true)

-- The options of a message of the client.
client_options : DhcpClient → MessageType → OptionsWriter × Bool
unfolding write_request
client_options c kind =
    and_then (option (writer 272) 53 (to_u8 kind ∷ [])) (λ w.
      and_then (write_request c kind w) (λ w. and_then (option w 55 (1 ∷ 3 ∷ 6 ∷ 51 ∷ [])) end))

-- The header that `init_ethernet` and the setters leave in a buffer of zeros: BOOTREQUEST, Ethernet
-- and 6 bytes of address, `xid`, the broadcast flag, `chaddr` and the magic cookie.
unfoldable pub client_header : ℕ → ℕ → List ℕ
client_header mac xid =
    (1 ∷ 1 ∷ 6 ∷ 0 ∷ u32_bytes xid)
    ++ ((0 ∷ 0 ∷ u16_bytes 0x8000)
        ++ (replicate 16 0
            ++ (mac_bytes mac ++ (replicate (10 + 64 + 128) 0 ++ u32_bytes 0x63825363))))

-- From 0.0.0.0:68 to 255.255.255.255:67.
unfoldable pub client_udp : ℕ → UdpV4
client_udp mac = record {
  src_mac = mac;
  dst_mac = 0xffffffffffff;
  src_ip = 0;
  dst_ip = 0xffffffff;
  src_port = 68;
  dst_port = 67;
  ttl = 64;
}

-- The buffer afterwards and the length of the frame in it, `none` where the frame does not fit.
pub build : DhcpClient → MessageType → List ℕ → List ℕ × Option ℕ
unfolding client_options
build c kind out =
    let (w, ok) = client_options c kind in
    if ok
    then build_udp_ipv4 out (client_udp c.mac) (client_header c.mac c.xid ++ w.written)
    else (out, none)

poll_init : DhcpClient → List ℕ × Option ℕ → DhcpClient × (List ℕ × Option ℕ)
poll_init c (out, none) = (c, (out, none))
poll_init c (out, some n) = (record c { state = selecting }, (out, some n))

poll_state : ClientState → DhcpClient → List ℕ → DhcpClient × (List ℕ × Option ℕ)
unfolding poll_init
poll_state init c out = poll_init c (build c discover out)
poll_state requesting c out = (c, build c request out)
poll_state selecting c out = (c, (out, none))
poll_state bound c out = (c, (out, none))

-- The client and the buffer afterwards, and the length of the frame in it.
pub poll : DhcpClient → List ℕ → DhcpClient × (List ℕ × Option ℕ)
unfolding poll_state
poll c out = poll_state c.state c out

receive_kind : Option MessageType → ClientState → DhcpClient → DhcpView → DhcpClient
receive_kind (some offer) selecting c m = record c {
  offered_ip = some m.yiaddr;
  server_id = m.server_id;
  state = requesting;
}
receive_kind (some ack) requesting c m = record c {
  lease = some (record {
    ip = m.yiaddr;
    subnet_mask = m.subnet_mask;
    gateway = m.first_router;
    server_id = m.server_id;
    lease_secs = m.lease_time;
  });
  state = bound;
}
receive_kind (some nak) _ c m = record c { offered_ip = none; server_id = none; state = init }
receive_kind _ _ c m = c

pub on_receive : DhcpClient → DhcpView → DhcpClient
unfolding receive_kind
on_receive c m = let taken = receive_kind m.kind c.state c m in if m.xid == c.xid then taken else c
