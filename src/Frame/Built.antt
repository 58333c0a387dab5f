-- ===== src/Frame/Built.antt =====
-- src/router/frame.rs: a built frame, as the views and the checksums read it.
use userspace_router.Base.{
  ℕ, ◌+◌, ◌-◌, ◌%◌, ◌^◌, ◌≤◌, ◌<◌, ◌≡◌, refl, ap, ◌∙◌, none, some, List, ◌∷◌, ◌++◌, length,
  length-append, drop, arith,
}
use userspace_router.Wire.{byte, get_u16, u16_bytes, u32_bytes, slice}
use userspace_router.Checksum.{ipv4_header, checksum}
use userspace_router.Checksum.Sum.{AreBytes}
use userspace_router.Checksum.Verify.{
  udp_check, checksum_verifies, udp_ipv4_verifies, put16, checksum-lt, udp_ipv4-lt,
}
use userspace_router.View
use userspace_router.View.{
  EthernetView, Ipv4View, L4View, parse, ethernet_at, ethernet_checked, ipv4, ipv4_at, ipv4_end,
  udp, udp_at, udp_end, payload,
}
use userspace_router.Arp.{get_mac}
use userspace_router.Frame.{UdpV4, frame_len, build_udp_ipv4}
use userspace_router.Frame.Image.{
  headers, ip_header, ip_front, ip_back, udp_front, datagram, ip_sum_of, udp_sum_of, build-headers,
  build_short, take-append,
}

-- Addresses, ports and the TTL fit their fields, the lengths fit 16 bits, and the payload is bytes.
pub record Fits (p : UdpV4) (body : List ℕ) : Type 0 where
  pub src_ip_fits : p.src_ip < 2 ^ 32
  pub dst_ip_fits : p.dst_ip < 2 ^ 32
  pub src_port_fits : p.src_port < 2 ^ 16
  pub dst_port_fits : p.dst_port < 2 ^ 16
  pub ttl_fits : p.ttl < 256
  pub total_fits : 28 + length body < 2 ^ 16
  pub body_fits : AreBytes body

abbrev pub eth_view : EthernetView
eth_view = record { start = 0; ethertype = 0x0800; l3_start = 14 }

abbrev pub ip_view : ℕ → Ipv4View
ip_view n = record { start = 14; l4_start = 34; end = 42 + n }

abbrev pub udp_view : ℕ → L4View
udp_view n = record { start = 34; payload_start = 42; end = 42 + n }

-- On any frame with the fields that the views read.
parse_built :
    (buf : List ℕ) (n : ℕ)
    → 42 + n ≤ length buf
    → get_u16 buf 12 ≡ 0x0800
    → byte buf 14 ≡ 0x45
    → get_u16 buf 16 ≡ 28 + n
    → byte buf 23 ≡ 17
    → get_u16 buf 38 ≡ 8 + n
    → (parse buf ≡ some eth_view)
      × (ipv4 buf eth_view ≡ some (ip_view n))
      × (udp buf (ip_view n) ≡ some (udp_view n))
unfolding parse ethernet_at ethernet_checked ipv4 ipv4_at ipv4_end udp udp_at udp_end
parse_built buf n room ty vihl total proto len = (ground arith, ground arith, ground arith)

u16_bytes-put16 : (v : ℕ) (post : List ℕ) → v < 2 ^ 16 → u16_bytes v ++ post ≡ put16 v post
u16_bytes-put16 v post h = ap (λ b. b ∷ v % 256 ∷ post) (omega arith)

bytes_of_u32 : (v : ℕ) → AreBytes (u32_bytes v)
bytes_of_u32 v = (omega arith, (omega arith, (omega arith, (omega arith, tt))))

-- The checksums of the image.
ip_sum_right : (p : UdpV4) (n : ℕ) → p.ttl < 256 → ipv4_header (ip_header p n (ip_sum_of p n)) ≡ 0
unfolding ipv4_header
ip_sum_right p n h =
    ap (λ b. checksum (ip_front p n ++ b))
      (u16_bytes-put16 (ip_sum_of p n) (ip_back p) (checksum-lt (ip_header p n 0)))
    ∙ checksum_verifies (ip_front p n) (ip_back p) header_bytes tt (omega arith)
  where
    header_bytes : AreBytes (ip_front p n ++ 0 ∷ 0 ∷ ip_back p)
    header_bytes = (
      omega arith,
      (
        omega arith,
        (
          omega arith,
          (
            omega arith,
            (
              omega arith,
              (
                omega arith,
                (
                  omega arith,
                  (
                    omega arith,
                    (
                      h,
                      (
                        omega arith,
                        (
                          omega arith,
                          (
                            omega arith,
                            (
                              omega arith,
                              (omega arith, (omega arith, (omega arith, bytes_of_u32 p.dst_ip))),
                            ),
                          ),
                        ),
                      ),
                    ),
                  ),
                ),
              ),
            ),
          ),
        ),
      ),
    )

udp_sum_right :
    (p : UdpV4) (body : List ℕ)
    → AreBytes body
    → 28 + length body < 2 ^ 16
    → udp_check (u32_bytes p.src_ip) (u32_bytes p.dst_ip) (datagram p body (udp_sum_of p body)) ≡ 0
udp_sum_right p body w small =
    ap (λ b. udp_check (u32_bytes p.src_ip) (u32_bytes p.dst_ip) (udp_front p (length body) ++ b))
      (u16_bytes-put16 (udp_sum_of p body) body
        (udp_ipv4-lt (u32_bytes p.src_ip) (u32_bytes p.dst_ip) (datagram p body 0)))
    ∙ (udp_ipv4_verifies (u32_bytes p.src_ip) (u32_bytes p.dst_ip) (udp_front p (length body)) body
        (bytes_of_u32 p.src_ip) (bytes_of_u32 p.dst_ip)
        (
          omega arith,
          (
            omega arith,
            (
              omega arith,
              (omega arith, (omega arith, (omega arith, (omega arith, (omega arith, w))))),
            ),
          ),
        )
        refl refl tt (omega arith)).0

-- What a receiver finds in a frame.
pub record IsBuilt (p : UdpV4) (body out : List ℕ) : Type 0 where
  pub parsed : parse out ≡ some eth_view
  pub has_ip : ipv4 out eth_view ≡ some (ip_view (length body))
  pub has_udp : udp out (ip_view (length body)) ≡ some (udp_view (length body))
  pub dst_mac_read : get_mac out 0 ≡ p.dst_mac % 2 ^ 48
  pub src_mac_read : get_mac out 6 ≡ p.src_mac % 2 ^ 48
  pub src_read : View.src out (ip_view (length body)) ≡ p.src_ip
  pub dst_read : View.dst out (ip_view (length body)) ≡ p.dst_ip
  pub src_port_read : View.src_port out (udp_view (length body)) ≡ p.src_port
  pub dst_port_read : View.dst_port out (udp_view (length body)) ≡ p.dst_port
  pub body_read : payload out (udp_view (length body)) ≡ body
  pub ip_checks : ipv4_header (slice out 14 34) ≡ 0
  pub udp_checks :
      udp_check (u32_bytes p.src_ip) (u32_bytes p.dst_ip) (slice out 34 (42 + length body)) ≡ 0

pub headers-IsBuilt :
    (p : UdpV4) (body tail : List ℕ)
    → Fits p body
    → IsBuilt p body
        (headers p (length body) (ip_sum_of p (length body)) (udp_sum_of p body) (body ++ tail))
unfolding byte payload
headers-IsBuilt p body tail f =
    let n : ℕ = length body in
    let out : List ℕ = headers p n (ip_sum_of p n) (udp_sum_of p body) (body ++ tail) in
    let room : 42 + n ≤ length out = omega (arith, length-append body tail) in
    let total : get_u16 out 16 ≡ 28 + n = omega (arith, f.total_fits) in
    let udp_len : get_u16 out 38 ≡ 8 + n = omega (arith, f.total_fits) in
    let v = parse_built out n room refl refl total refl udp_len in
    let whole : 42 + n - 34 ≡ length (datagram p body 0) = omega arith in
    let only : 42 + n - 42 ≡ length body = omega arith in
    record {
      parsed = v.0;
      has_ip = v.1;
      has_udp = v.2;
      dst_mac_read = omega arith;
      src_mac_read = omega arith;
      src_read = omega (arith, f.src_ip_fits);
      dst_read = omega (arith, f.dst_ip_fits);
      src_port_read = omega (arith, f.src_port_fits);
      dst_port_read = omega (arith, f.dst_port_fits);
      body_read = rw (only, take-append body tail) refl;
      ip_checks = ip_sum_right p n f.ttl_fits;
      udp_checks =
          rw (whole, take-append body tail) (udp_sum_right p body f.body_fits f.total_fits);
    }

-- `build_udp_ipv4` in a buffer with room for the frame, with values that fit their fields: the
-- answer is the length of the frame, and its views have the MAC addresses, the addresses, the ports
-- and the payload that it was built from, the checksum of the IP header is right, and so is that of
-- the datagram, for which the receiver takes the length in the header. In a smaller buffer nothing
-- is written and the answer is none.
pub build_udp_ipv4-IsBuilt :
    (buf : List ℕ) (p : UdpV4) (body : List ℕ)
    → Fits p body
    → (frame_len (length body) ≤ length buf
        → ((build_udp_ipv4 buf p body).1 ≡ some (frame_len (length body)))
          × IsBuilt p body (build_udp_ipv4 buf p body).0)
      × (length buf < frame_len (length body) → build_udp_ipv4 buf p body ≡ (buf, none))
build_udp_ipv4-IsBuilt buf p body f = (
  (λ room.
      let e = build-headers buf p body room in
      (ap (λ r. r.1) e, rw e (headers-IsBuilt p body (drop (length body) (drop 42 buf)) f))),
  build_short buf p body,
)
