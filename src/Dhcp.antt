-- ===== src/Dhcp.antt =====
-- src/router/dhcp.rs: the DHCP server of the LAN, `DhcpServer`. A reply is what `handle` passes to
-- `build_reply`; that the frame fits the buffer is not part of it.
pub mod Message
pub mod Leased
pub mod Return
pub mod Service
pub mod Exchange
pub mod Payload
mod Tests
use userspace_router.Base.{
  ℕ, ◌+◌, ◌^◌, Bool, true, false, ◌||◌, Option, none, some, List, [], ◌∷◌, if◌then◌else◌, ◌==◌, not,
  ◌-◌,
}
use userspace_router.Pool
use userspace_router.Pool.{AddressPool}
use userspace_router.Leases
use userspace_router.Leases.{LeaseTable}
use userspace_router.Dhcp.Message.{
  MessageType, discover, offer, request, decline, ack, nak, release, inform, DhcpView,
}

pub record DhcpServerConfig : Type 0 where
  pub server_ip : ℕ
  pub server_mac : ℕ
  pub gateway : ℕ
  pub subnet_mask : ℕ
  pub dns : List ℕ
  pub lease_secs : ℕ

pub record DhcpServer : Type 0 where
  pub cfg : DhcpServerConfig
  pub pool : AddressPool
  pub leases : LeaseTable

-- `DhcpServer::reserve`
pub reserve_ip : DhcpServer → ℕ → DhcpServer
reserve_ip s ip = record s { pool = (Pool.reserve s.pool ip).0 }

-- `DhcpServer::release`; `none` is the panic of the pool.
pub release_ip : DhcpServer → ℕ → Option DhcpServer
release_ip s ip = elim (Pool.release s.pool ip) [
  | none ↦ none
  | some p ↦ some (record s { pool = p })
]

pub lease_of : DhcpServer → ℕ → Option ℕ
lease_of s mac = Leases.lookup s.leases mac

assign_taken : DhcpServer → ℕ → AddressPool × Option (List ℕ) → DhcpServer × Option ℕ
assign_taken s mac (p, none) = (record s { pool = p }, none)
assign_taken s mac (p, some []) = (record s { pool = p }, none)
assign_taken s mac (p, some (ip ∷ _)) =
    (record s { pool = p; leases = Leases.insert s.leases mac ip }, some ip)

-- The address bound to a client, or one from the pool.
pub assign : DhcpServer → ℕ → DhcpServer × Option ℕ
unfolding assign_taken
assign s mac = elim (Leases.lookup s.leases mac) [
  | some ip ↦ (s, some ip)
  | none ↦ assign_taken s mac (Pool.take s.pool 1)
]

pub record Reply : Type 0 where
  pub kind : MessageType
  pub xid : ℕ
  pub yiaddr : ℕ
  pub client : ℕ
  pub broadcast : Bool

abbrev is_nak : MessageType → Bool
is_nak nak = true
is_nak _ = false

-- Where `build_reply` sends, as an IPv4 address and a MAC address: to everyone if the client asks
-- for it and with a NAK, else to the client.
pub destination : Reply → ℕ × ℕ
destination r =
    if r.broadcast || is_nak r.kind then (2 ^ 32 - 1, 2 ^ 48 - 1) else (r.yiaddr, r.client)

pub answer_discover : DhcpView → DhcpServer × Option ℕ → DhcpServer × Option Reply
answer_discover m (s, none) = (s, none)
answer_discover m (s, some ip) = (
  s,
  some (record {
    kind = offer;
    xid = m.xid;
    yiaddr = ip;
    client = m.chaddr;
    broadcast = m.broadcast;
  }),
)

-- The address that the client asks for: option 50, or else `ciaddr`.
abbrev pub requested : Option ℕ → ℕ → ℕ
requested none ciaddr = ciaddr
requested (some ip) ciaddr = ip

pub answer_request : DhcpView → DhcpServer × Option ℕ → DhcpServer × Option Reply
answer_request m (s, none) = (s, none)
answer_request m (s, some ip) = (
  s,
  some (
      if requested m.requested_ip m.ciaddr == ip
      then record {
        kind = ack;
        xid = m.xid;
        yiaddr = ip;
        client = m.chaddr;
        broadcast = m.broadcast;
      }
      else record { kind = nak; xid = m.xid; yiaddr = 0; client = m.chaddr; broadcast = true }),
)

-- Whether the client has chosen another server.
abbrev pub is_for_other : Option ℕ → ℕ → Bool
is_for_other none server_ip = false
is_for_other (some sid) server_ip = not (sid == server_ip)

-- The lease of the client goes back to the pool.
pub give_back : DhcpServer → ℕ → Option DhcpServer
unfolding release_ip
give_back s mac =
    let (leases, ip) = Leases.remove s.leases mac in
    let s' = record s { leases = leases } in elim ip [ none ↦ some s' | some ip ↦ release_ip s' ip ]

silent : Option DhcpServer → Option (DhcpServer × Option Reply)
silent none = none
silent (some s) = some (s, none)

handle_kind : MessageType → DhcpServer → DhcpView → Option (DhcpServer × Option Reply)
unfolding silent
handle_kind discover s m = some (answer_discover m (assign s m.chaddr))
handle_kind request s m =
    let served = some (answer_request m (assign s m.chaddr)) in
    if is_for_other m.server_id s.cfg.server_ip then some (s, none) else served
handle_kind release s m = silent (give_back s m.chaddr)
handle_kind decline s m = silent (give_back s m.chaddr)
handle_kind offer s m = some (s, none)
handle_kind ack s m = some (s, none)
handle_kind nak s m = some (s, none)
handle_kind inform s m = some (s, none)

-- `none` is a panic.
pub handle : DhcpServer → DhcpView → Option (DhcpServer × Option Reply)
unfolding handle_kind
handle s m = elim m.kind [ none ↦ some (s, none) | some k ↦ handle_kind k s m ]
