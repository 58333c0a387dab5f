-- ===== src/Frame/Tests.antt =====
-- src/router/frame.rs: a DHCP-sized port pair around two bytes.
use userspace_router.Base.{zero, suc, refl, ◌≡◌, ◌≤◌, ◌<◌, none, some, [], ◌∷◌, arith, replicate, ℕ}
use userspace_router.Frame.{UdpV4, frame_len, build_udp_ipv4}
use userspace_router.Checksum.Sum.{AreBytes}
use userspace_router.View.Message.{dhcp, body}
use userspace_router.Frame.Dhcp.{dhcp-build_udp_ipv4}
use userspace_router.Frame.Built.{udp_view, Fits, IsBuilt, build_udp_ipv4-IsBuilt}

-- 192.168.1.1:67 to 192.168.1.50:68
abbrev answer : UdpV4
answer = record {
  src_mac = 0x20000000001;
  dst_mac = 0x20000000002;
  src_ip = 0xc0a80101;
  dst_ip = 0xc0a80132;
  src_port = 67;
  dst_port = 68;
  ttl = 64;
}

answer-Fits : Fits answer (0x68 ∷ 0x69 ∷ [])
answer-Fits = record {
  src_ip_fits = omega arith;
  dst_ip_fits = omega arith;
  src_port_fits = omega arith;
  dst_port_fits = omega arith;
  ttl_fits = omega arith;
  total_fits = omega arith;
  body_fits = (omega arith, (omega arith, tt));
}

build_udp_ipv4-IsBuilt_example :
    (frame_len 2 ≤ 64
      → ((build_udp_ipv4 (replicate 64 0) answer (0x68 ∷ 0x69 ∷ [])).1 ≡ some (frame_len 2))
        × IsBuilt answer
            (0x68 ∷ 0x69 ∷ [])
            (build_udp_ipv4 (replicate 64 0) answer (0x68 ∷ 0x69 ∷ [])).0)
    × (64 < frame_len 2
        → build_udp_ipv4 (replicate 64 0) answer (0x68 ∷ 0x69 ∷ []) ≡ (replicate 64 0, none))
build_udp_ipv4-IsBuilt_example =
    build_udp_ipv4-IsBuilt (replicate 64 0) answer (0x68 ∷ 0x69 ∷ []) answer-Fits

zeros-AreBytes : (n : ℕ) → AreBytes (replicate n 0)
zeros-AreBytes zero = tt
zeros-AreBytes (suc n) = (omega arith, zeros-AreBytes n)

zeros-Fits : Fits answer (replicate 240 0)
zeros-Fits = record {
  src_ip_fits = omega arith;
  dst_ip_fits = omega arith;
  src_port_fits = omega arith;
  dst_port_fits = omega arith;
  ttl_fits = omega arith;
  total_fits = omega arith;
  body_fits = zeros-AreBytes 240;
}

dhcp-build_udp_ipv4_example :
    (dhcp (build_udp_ipv4 (replicate 300 0) answer (replicate 240 0)).0 (udp_view 240)
      ≡ some (record { start = 42; body_start = 282; end = 282 }))
    × (body
          (build_udp_ipv4 (replicate 300 0) answer (replicate 240 0)).0
          (record { start = 42; body_start = 282; end = 282 })
        ≡ [])
dhcp-build_udp_ipv4_example =
    dhcp-build_udp_ipv4 (replicate 300 0) answer (replicate 240 0) zeros-Fits (omega arith)
      (omega arith) refl
