-- ===== src/Lib.antt =====
-- A verification library for the userspace router: the parts of its data plane and control plane
-- that decide what happens to a packet, modelled as functions with explicit state.
--
-- A packet from the LAN goes through `src/router/app.rs`: the connection tracker observes it, the
-- NAT table gives it an external port, the frame is rewritten and its checksums are updated. A
-- packet from the WAN is translated back by the NAT table and passes the connection tracker or is
-- dropped. Addresses for the LAN come from the address pool.
--
-- * Base and its children: Boolean tests, lists and association maps over the native numbers. A
--   Rust `HashMap` is a `Map`, which keeps its keys distinct; iteration order is not observed.
-- * ConnTrack (`src/router/conntrack.rs`): `observe_egress`, `check_ingress`, `sweep` and `states`
--   on a table of flows. ConnTrack/State has the states of one end (`TcpState`) and the functions
--   `transition_on_send` and `transition_on_recv`, ConnTrack/Laws what a call does to one flow,
--   ConnTrack/Firewall and ConnTrack/History histories of calls, ConnTrack/Idle the sweep,
--   ConnTrack/Diagram the arrows of the state machine. Times are milliseconds.
-- * Nat (`src/router/nat.rs`): the table of `Nat`, with `egress`, `ingress` and `alloc_port`. The
--   loop of `alloc_port` is the function `scan` over as many rounds as the range has ports.
--   Nat/Translate is `translate_egress` and `translate_ingress` on the bytes of a frame; its children
--   say which bytes change (Rewrite), what a changed frame is read as (Classify, Reclassify, Frames,
--   Endpoint) and what becomes of its checksums (Sums, Checks, Valid).
-- * Wire (`src/net/wire.rs`): fields in a list of bytes, and writes in place. View
--   (`src/net/view.rs`): the views of the layers of a frame, as offsets into the bytes.
-- * Netmask (`src/net/util.rs`): netmasks and prefix lengths. Fdb (`src/router/fdb.rs`): the ports
--   learned for MAC addresses.
-- * Frame (`src/router/frame.rs`): `build_udp_ipv4` on a list of bytes.
-- * Ring (`src/mem/ring.rs`): `push` and `pop`, as whole operations and as the accesses of two
--   threads that interleave; Ring/Drops and Ring/Close have the drops of the two handles.
-- * Locks (`src/core/spinlock.rs`): `SpinLock` and `RwSpinLock` with any number of threads.
-- * Bitmask (`src/core/bitmask.rs`) and ObjectPool (`src/mem/pool.rs`): the bits of 32-bit words,
--   and `alloc` and `release` on the slots and the free list, with debug assertions and without.
-- * Arp (`src/net/arp.rs`, `src/router/arp.rs`): ARP packets in the bytes of a frame, their builders
--   and the responder.
-- * Pool (`src/router/pool.rs`): `AddressPool` with `reserve`, `take` and `release`, on the list of
--   inclusive intervals. Pool/Cover says which addresses a list of intervals holds.
-- * Leases (`src/router/leases.rs`) and Dhcp (`src/router/dhcp.rs`): the lease table, and
--   `DhcpServer::handle` on the server's pool and leases; Dhcp/Message has what it reads from a
--   message. Its answer is the reply that `build_reply` is asked for; Dhcp/Payload has the options
--   that `build_payload` writes.
-- * DhcpClient (`src/router/dhcp.rs`): the state machine of the client, with `poll` and
--   `on_receive`; DhcpClient/Sent has the frames that it sends, byte by byte.
-- * Options (`src/net/dhcp.rs`): `OptionsIter`, `Options` and `OptionsWriter` on lists of bytes. The
--   list of options is bounded by the number of bytes, which Options/RoundTrip shows to be enough.
-- * Neighbor (`src/router/neighbor.rs`): `NeighborTable` with `resolve`, `on_arp` and `sweep`.
--   Neighbor/Waiting has the bounds on waiting packets.
-- * Checksum (`src/net/checksum.rs`): the Internet checksum on lists of bytes. The carry loop of
--   `fold` runs on three rounds; Checksum/Sum shows that they are enough for every `u32`.
--
-- A machine integer is a native number with its wrap-around written out; an IPv4 address is the
-- number that `u32::from` gives. A panic is the value `none`.
--
-- Not modelled: the DPDK bindings (`src/dpdk`), which are foreign calls, the I/O of `src/main.rs`,
-- the header of a DHCP reply, the paths of `src/router/app.rs` that hand packets on, and
-- the free-list allocator of `src/mem/alloc.rs`. The atomic accesses of `push` and
-- `pop` and of the locks are taken to be sequentially consistent; in the drops of the ring's handles
-- a store becomes visible in a step of its own, which may come after the load that follows it.
pub mod Base
pub mod ConnTrack
pub mod Pool
pub mod Nat
pub mod Checksum
pub mod Dhcp
pub mod Neighbor
pub mod Options
pub mod DhcpClient
pub mod Leases
pub mod Wire
pub mod View
pub mod Ring
pub mod Locks
pub mod Bitmask
pub mod ObjectPool
pub mod Arp
pub mod Frame
pub mod Netmask
pub mod Fdb
