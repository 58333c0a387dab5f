-- ===== src/View.antt =====
-- src/net/view.rs: the layers of a frame, as offsets into its bytes. A view of the source also
-- holds the buffer, which is an argument here. Offsets do not overflow: a buffer has fewer than 2 ^
-- 63 bytes, and a length field adds less than 2 ^ 17.
pub mod Agrees
pub mod Layout
pub mod Message
use userspace_router.Base.{
  ℕ, zero, suc, ◌+◌, ◌-◌, ◌*◌, ◌/◌, ◌%◌, ◌^◌, max, min, Bool, true, false, ◌&&◌, ◌||◌, Option, none,
  some, List, if◌then◌else◌, leb, ltb, ◌==◌, length,
}
use userspace_router.Wire.{has_bytes, byte, get_u16, get_u32, slice}

pub record EthernetView : Type 0 where
  pub start : ℕ
  pub ethertype : ℕ
  pub l3_start : ℕ

unfoldable pub ethernet_checked : List ℕ → ℕ → ℕ → ℕ → Option EthernetView
ethernet_checked buf start ethertype l3_start =
    if ltb (length buf) l3_start
    then none
    else some (record { start = start; ethertype = ethertype; l3_start = l3_start })

unfoldable pub ethernet_at : List ℕ → ℕ → Option EthernetView
unfolding ethernet_checked
ethernet_at buf start =
    let l3_start = start + 14 in
    if has_bytes buf start 14
    then (if get_u16 buf (start + 12) == 0x8100
        then (if has_bytes buf l3_start 4
            then ethernet_checked buf start (get_u16 buf (l3_start + 2)) (l3_start + 4)
            else none)
        else ethernet_checked buf start (get_u16 buf (start + 12)) l3_start)
    else none

-- `view::parse`
unfoldable pub parse : List ℕ → Option EthernetView
parse buf = ethernet_at buf 0

pub record Ipv4View : Type 0 where
  pub start : ℕ
  pub l4_start : ℕ
  pub end : ℕ

-- `Ipv4Header::header_len`: the low nibble of the first byte, in words of four bytes.
abbrev pub ipv4_header_len : List ℕ → ℕ → ℕ
ipv4_header_len buf start = byte buf start % 16 * 4

abbrev pub total_len : List ℕ → ℕ → ℕ
total_len buf start = get_u16 buf (start + 2)

abbrev pub protocol : List ℕ → Ipv4View → ℕ
protocol buf ip = byte buf (ip.start + 9)

abbrev pub src : List ℕ → Ipv4View → ℕ
src buf ip = get_u32 buf (ip.start + 12)

abbrev pub dst : List ℕ → Ipv4View → ℕ
dst buf ip = get_u32 buf (ip.start + 16)

-- The end that the header declares, if it is plausible, else the end of the buffer.
unfoldable pub ipv4_end : List ℕ → ℕ → ℕ
ipv4_end buf start =
    if leb (ipv4_header_len buf start) (total_len buf start)
      && leb (start + total_len buf start) (length buf)
    then start + total_len buf start
    else length buf

unfoldable pub ipv4_at : List ℕ → ℕ → Option Ipv4View
unfolding ipv4_end
ipv4_at buf start =
    let l4_start = start + ipv4_header_len buf start in
    if has_bytes buf start 20
    then (if ltb (ipv4_header_len buf start) 20 || ltb (length buf) l4_start
        then none
        else some (record {
          start = start;
          l4_start = l4_start;
          end = max (ipv4_end buf start) l4_start;
        }))
    else none

-- `EthernetView::ipv4`
unfoldable pub ipv4 : List ℕ → EthernetView → Option Ipv4View
ipv4 buf eth = if eth.ethertype == 0x0800 then ipv4_at buf eth.l3_start else none

-- A TCP or UDP header, with its payload.
pub record L4View : Type 0 where
  pub start : ℕ
  pub payload_start : ℕ
  pub end : ℕ

abbrev pub src_port : List ℕ → L4View → ℕ
src_port buf v = get_u16 buf v.start

abbrev pub dst_port : List ℕ → L4View → ℕ
dst_port buf v = get_u16 buf (v.start + 2)

-- `TcpHeader::header_len`: the high nibble of byte 12, in words of four bytes.
abbrev pub tcp_header_len : List ℕ → ℕ → ℕ
tcp_header_len buf start = byte buf (start + 12) / 16 * 4

unfoldable pub tcp_at : List ℕ → ℕ → ℕ → Option L4View
tcp_at buf start end =
    let payload_start = start + tcp_header_len buf start in
    if has_bytes buf start 20
    then (if ltb (tcp_header_len buf start) 20
          || ltb end payload_start
          || ltb (length buf) payload_start
        then none
        else some (record { start = start; payload_start = payload_start; end = end }))
    else none

-- `Ipv4View::tcp`
unfoldable pub tcp : List ℕ → Ipv4View → Option L4View
tcp buf ip = if protocol buf ip == 6 then tcp_at buf ip.l4_start ip.end else none

-- The end that the UDP length declares, if it is plausible, else that of the IP packet.
unfoldable pub udp_end : List ℕ → ℕ → ℕ → ℕ
udp_end buf start end =
    let declared = get_u16 buf (start + 4) in
    if leb 8 declared && leb (start + declared) end then start + declared else end

unfoldable pub udp_at : List ℕ → ℕ → ℕ → Option L4View
unfolding udp_end
udp_at buf start end =
    let payload_start = start + 8 in
    if has_bytes buf start 8
    then (if ltb end payload_start || ltb (length buf) payload_start
        then none
        else some (record {
          start = start;
          payload_start = payload_start;
          end = max (udp_end buf start end) payload_start;
        }))
    else none

-- `Ipv4View::udp`
unfoldable pub udp : List ℕ → Ipv4View → Option L4View
udp buf ip = if protocol buf ip == 17 then udp_at buf ip.l4_start ip.end else none

-- `UdpView::payload` and `TcpView::payload`
unfoldable pub payload : List ℕ → L4View → List ℕ
payload buf v = slice buf v.payload_start v.end
