-- ===== src/Frame.antt =====
-- src/router/frame.rs: an Ethernet, IPv4 and UDP frame around a payload, with its checksums.
pub mod Image
pub mod Built
pub mod Dhcp
mod Tests
use userspace_router.Base.{
  ℕ, ◌+◌, ◌-◌, ◌*◌, ◌/◌, ◌%◌, ◌^◌, Option, none, some, List, [], ◌∷◌, if◌then◌else◌, ltb, length,
  replicate,
}
use userspace_router.Wire.{u16_bytes, u32_bytes, splice, slice}
use userspace_router.Arp.{mac_bytes}
use userspace_router.Checksum.{ipv4_header, udp_ipv4}

pub record UdpV4 : Type 0 where
  pub src_mac : ℕ
  pub dst_mac : ℕ
  pub src_ip : ℕ
  pub dst_ip : ℕ
  pub src_port : ℕ
  pub dst_port : ℕ
  pub ttl : ℕ

abbrev pub frame_len : ℕ → ℕ
frame_len payload_len = 14 + 20 + 8 + payload_len

-- The three headers, in a buffer with zeros where they stand; the lengths are cut to 16 bits.
unfoldable pub write_headers : List ℕ → UdpV4 → ℕ → List ℕ
write_headers buf p payload_len =
    let udp_len = 8 + payload_len in
    let b1 = splice buf 0 (mac_bytes p.dst_mac) in
    let b2 = splice b1 6 (mac_bytes p.src_mac) in
    let b3 = splice b2 12 (u16_bytes 0x0800) in
    let b4 = splice b3 14 (0x45 ∷ []) in
    let b5 = splice b4 16 (u16_bytes (20 + udp_len)) in
    let b6 = splice b5 22 (p.ttl ∷ []) in
    let b7 = splice b6 23 (17 ∷ []) in
    let b8 = splice b7 26 (u32_bytes p.src_ip) in
    let b9 = splice b8 30 (u32_bytes p.dst_ip) in
    let b10 = splice b9 34 (u16_bytes p.src_port) in
    let b11 = splice b10 36 (u16_bytes p.dst_port) in splice b11 38 (u16_bytes udp_len)

-- The checksums, over headers whose checksum fields are zero.
unfoldable pub write_checksums : List ℕ → UdpV4 → ℕ → List ℕ
write_checksums buf p payload_len =
    let b1 = splice buf 24 (u16_bytes (ipv4_header (slice buf 14 34))) in
    let udp = slice b1 34 (34 + (8 + payload_len)) in
    splice b1 40 (u16_bytes (udp_ipv4 (u32_bytes p.src_ip) (u32_bytes p.dst_ip) udp))

-- The buffer as the builder leaves it, and the length of the frame.
unfoldable pub build_udp_ipv4 : List ℕ → UdpV4 → List ℕ → List ℕ × Option ℕ
build_udp_ipv4 buf p payload =
    let total = frame_len (length payload) in
    let zeroed = splice buf 0 (replicate 42 0) in
    let headed = write_headers zeroed p (length payload) in
    let filled = splice headed 42 payload in
    if ltb (length buf) total
    then (buf, none)
    else (write_checksums filled p (length payload), some total)
