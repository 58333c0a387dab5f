-- ===== src/Arp.antt =====
-- src/net/arp.rs and src/router/arp.rs: ARP packets in the bytes of a frame, and the responder. A
-- MAC address is a number below 2 ^ 48. The builders write in place: a buffer that has room for the
-- Ethernet header only gets that header, and none as the answer.
pub mod Image
pub mod Exchange
mod Tests
use userspace_router.Base.{
  nat_eq, ℕ, ◌+◌, ◌*◌, ◌/◌, ◌%◌, ◌^◌, Bool, true, false, ◌&&◌, ◌||◌, Option, none, some, List, [],
  ◌∷◌, if◌then◌else◌, ◌==◌, ◌>>=◌, ◌-◌,
}
use userspace_router.Base.Map
use userspace_router.Base.Map.{Map}
use userspace_router.Wire.{has_bytes, byte, get_u16, get_u32, u16_bytes, u32_bytes, splice}
use userspace_router.View.{EthernetView, parse}

abbrev pub mac_bytes : ℕ → List ℕ
mac_bytes m =
    m / 2 ^ 40 % 256
    ∷ m / 2 ^ 32 % 256
    ∷ m / 2 ^ 24 % 256
    ∷ m / 2 ^ 16 % 256
    ∷ m / 2 ^ 8 % 256
    ∷ m % 256
    ∷ []

abbrev pub get_mac : List ℕ → ℕ → ℕ
get_mac buf off = get_u16 buf off * 2 ^ 32 + get_u32 buf (off + 2)

abbrev pub broadcast : ℕ
broadcast = 2 ^ 48 - 1

abbrev pub frame_len : ℕ
frame_len = 42

-- The fields of an `ArpPacket` at an offset.
abbrev pub oper : List ℕ → ℕ → ℕ
oper buf at = get_u16 buf (at + 6)

abbrev pub sha : List ℕ → ℕ → ℕ
sha buf at = get_mac buf (at + 8)

abbrev pub sender_ip : List ℕ → ℕ → ℕ
sender_ip buf at = get_u32 buf (at + 14)

abbrev pub tha : List ℕ → ℕ → ℕ
tha buf at = get_mac buf (at + 18)

abbrev pub target_ip : List ℕ → ℕ → ℕ
target_ip buf at = get_u32 buf (at + 24)

abbrev pub is_request : List ℕ → ℕ → Bool
is_request buf at = oper buf at == 1

abbrev pub is_reply : List ℕ → ℕ → Bool
is_reply buf at = oper buf at == 2

unfoldable pub is_ethernet_ipv4 : List ℕ → ℕ → Bool
is_ethernet_ipv4 buf at =
    get_u16 buf at == 1
    && get_u16 buf (at + 2) == 0x0800
    && byte buf (at + 4) == 6
    && byte buf (at + 5) == 4

-- `EthernetView::arp`
unfoldable pub arp : List ℕ → EthernetView → Option ℕ
arp buf eth =
    if eth.ethertype == 0x0806 && has_bytes buf eth.l3_start 28 then some eth.l3_start else none

-- `EthernetView::parse(frame)?.arp()`
unfoldable pub packet_at : List ℕ → Option ℕ
packet_at frame = parse frame >>= arp frame

-- The Ethernet header in front of the packet.
unfoldable pub write_ethernet : List ℕ → ℕ → ℕ → List ℕ
write_ethernet buf dst src =
    let b1 = splice buf 0 (mac_bytes dst) in
    let b2 = splice b1 6 (mac_bytes src) in splice b2 12 (u16_bytes 0x0806)

-- `init_ethernet_ipv4` and the addresses
unfoldable pub write_arp : List ℕ → ℕ → ℕ → ℕ → ℕ → ℕ → List ℕ
write_arp buf op sender_mac sender target_mac target =
    let b1 = splice buf 14 (u16_bytes 1) in
    let b2 = splice b1 16 (u16_bytes 0x0800) in
    let b3 = splice b2 18 (6 ∷ []) in
    let b4 = splice b3 19 (4 ∷ []) in
    let b5 = splice b4 20 (u16_bytes op) in
    let b6 = splice b5 22 (mac_bytes sender_mac) in
    let b7 = splice b6 28 (u32_bytes sender) in
    let b8 = splice b7 32 (mac_bytes target_mac) in splice b8 38 (u32_bytes target)

unfoldable pub build : List ℕ → ℕ → ℕ → ℕ → ℕ → ℕ → ℕ → List ℕ × Option ℕ
build buf dst op sender_mac sender target_mac target =
    let f = write_ethernet buf dst sender_mac in
    if has_bytes buf 0 14
    then (if has_bytes f 14 28
        then (write_arp f op sender_mac sender target_mac target, some frame_len)
        else (f, none))
    else (buf, none)

abbrev pub build_request : List ℕ → ℕ → ℕ → ℕ → List ℕ × Option ℕ
build_request buf sender_mac sender target = build buf broadcast 1 sender_mac sender 0 target

abbrev pub build_reply : List ℕ → ℕ → ℕ → ℕ → ℕ → List ℕ × Option ℕ
build_reply buf sender_mac sender target_mac target =
    build buf target_mac 2 sender_mac sender target_mac target

abbrev pub contains : List ℕ → ℕ → Bool
contains [] ip = false
contains (x ∷ xs) ip = x == ip || contains xs ip

-- The answer to a packet at `at`, for one of the owned addresses.
unfoldable pub answer : ℕ → List ℕ → List ℕ → List ℕ → ℕ → List ℕ × Option ℕ
answer our_mac owned frame out at =
    if is_request frame at && contains owned (target_ip frame at)
    then build_reply out our_mac (target_ip frame at) (sha frame at) (sender_ip frame at)
    else (out, none)

-- `respond`, with the output buffer as it leaves it
unfoldable pub respond : ℕ → List ℕ → List ℕ → List ℕ → List ℕ × Option ℕ
respond our_mac owned frame out = elim (packet_at frame) [
  | none ↦ (out, none)
  | some at ↦ answer our_mac owned frame out at
]

-- `NeighborCache`
abbrev pub learn_from : Map ℕ ℕ → List ℕ → ℕ → Map ℕ ℕ
learn_from cache buf at = Map.insert (sender_ip buf at) (sha buf at) cache

pub data Action : Type 0 where
  send_reply : ℕ → Action
  nothing : Action

abbrev pub action : Option ℕ → Action
action none = nothing
action (some len) = send_reply len

-- `handle` of a packet at `at`
unfoldable pub handle : ℕ → ℕ → Map ℕ ℕ → List ℕ → ℕ → List ℕ → Map ℕ ℕ × List ℕ × Action
handle our_mac our_ip cache frame at out =
    if is_ethernet_ipv4 frame at
    then (let r = answer our_mac (our_ip ∷ []) frame out at in
        (learn_from cache frame at, r.0, action r.1))
    else (cache, out, nothing)
