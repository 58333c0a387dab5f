-- ===== src/View/Layout.antt =====
-- src/net/view.rs: where the layers of a parsed frame lie.
use userspace_router.Base.{ℕ, ◌+◌, ◌≤◌, ◌<◌, ◌≡◌, some, List, length, arith}
use userspace_router.Wire.{byte}
use userspace_router.View.{
  EthernetView, Ipv4View, L4View, parse, ethernet_at, ethernet_checked, ipv4, ipv4_at, ipv4_end,
  tcp, tcp_at, udp, udp_at, udp_end,
}

-- The Ethernet header, with or without a tag, lies in the frame.
pub parse_layout :
    (buf : List ℕ) (eth : EthernetView)
    → parse buf ≡ some eth
    → (14 ≤ eth.l3_start) × (eth.l3_start ≤ length buf)
unfolding parse ethernet_at ethernet_checked
parse_layout buf eth h = ground arith

-- The IP header stands behind it and lies in the frame, as does its declared end.
pub ipv4_layout :
    (buf : List ℕ) (eth : EthernetView) (ip : Ipv4View)
    → ipv4 buf eth ≡ some ip
    → (ip.start ≡ eth.l3_start)
      × (ip.start + 20 ≤ ip.l4_start)
      × (ip.l4_start ≤ ip.end)
      × (ip.end ≤ length buf)
unfolding ipv4 ipv4_at ipv4_end
ipv4_layout buf eth ip h = ground arith

pub tcp_layout :
    (buf : List ℕ) (ip : Ipv4View) (v : L4View)
    → tcp buf ip ≡ some v
    → (v.start ≡ ip.l4_start)
      × (v.start + 20 ≤ v.payload_start)
      × (v.payload_start ≤ v.end)
      × (v.end ≡ ip.end)
      × (v.payload_start ≤ length buf)
unfolding tcp tcp_at
tcp_layout buf ip v h = ground arith

pub udp_layout :
    (buf : List ℕ) (ip : Ipv4View) (v : L4View)
    → udp buf ip ≡ some v
    → (v.start ≡ ip.l4_start)
      × (v.payload_start ≡ v.start + 8)
      × (v.payload_start ≤ v.end)
      × (v.end ≤ ip.end)
      × (v.payload_start ≤ length buf)
unfolding udp udp_at udp_end
udp_layout buf ip v h = ground arith

-- The first byte of an IP header is not zero: its length is at least five words.
pub ipv4_first :
    (buf : List ℕ) (eth : EthernetView) (ip : Ipv4View)
    → ipv4 buf eth ≡ some ip
    → 0 < byte buf ip.start
unfolding ipv4 ipv4_at ipv4_end
ipv4_first buf eth ip h = ground arith
