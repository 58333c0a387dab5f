-- ===== src/Nat/Translate.antt =====
-- src/router/nat.rs: `translate_egress` and `translate_ingress` on the bytes of a frame. A frame
-- that is too short for a write makes the source panic; Rewrite shows that this does not happen.
pub mod Rewrite
pub mod Classify
pub mod Reclassify
pub mod Frames
pub mod Endpoint
pub mod Sums
pub mod Checks
pub mod Valid
mod Tests
use userspace_router.Base.{
  ℕ, ◌+◌, ◌-◌, ◌*◌, Bool, true, false, ◌&&◌, Option, none, some, List, if◌then◌else◌, ◌==◌, ◌>>=◌,
}
use userspace_router.Wire.{get_u16, u16_bytes, u32_bytes, splice}
use userspace_router.View
use userspace_router.View.{Ipv4View, L4View, parse, ipv4, protocol, src_port, dst_port}
use userspace_router.Checksum.{update}
use userspace_router.Nat.{L4, tcp, udp, Nat, Egress, from_proto, egress, ingress}

-- What phase 1 captures: the offsets of both headers, and an endpoint.
pub record Classified : Type 0 where
  pub ip_off : ℕ
  pub l4_off : ℕ
  pub l4 : L4
  pub addr : ℕ
  pub port : ℕ

-- `ip.tcp()` or `ip.udp()`
pub l4_view : L4 → List ℕ → Ipv4View → Option L4View
l4_view tcp buf ip = View.tcp buf ip
l4_view udp buf ip = View.udp buf ip

-- Phase 1, with the reader of the endpoint: the source's for egress, the destination's for ingress.
pub classify : (List ℕ → Ipv4View → ℕ) → (List ℕ → L4View → ℕ) → List ℕ → Option Classified
classify addr port buf = do
  eth ← parse buf
  ip ← ipv4 buf eth
  l4 ← from_proto (protocol buf ip)
  v ← l4_view l4 buf ip
  some (record {
    ip_off = ip.start;
    l4_off = v.start;
    l4 = l4;
    addr = addr buf ip;
    port = port buf v;
  })

abbrev pub classify_src : List ℕ → Option Classified
classify_src = classify View.src src_port

abbrev pub classify_dst : List ℕ → Option Classified
classify_dst = classify View.dst dst_port

-- The offset of the L4 checksum, and whether this is UDP.
pub l4_checksum_field : L4 → ℕ → ℕ × Bool
l4_checksum_field tcp l4_off = (l4_off + 16, false)
l4_checksum_field udp l4_off = (l4_off + 6, true)

-- The L4 checksum that `apply_rewrite` stores.
pub l4_updated : Bool → ℕ → List ℕ → List ℕ → List ℕ → List ℕ → ℕ
l4_updated is_udp l4c old_ip new_ip old_port new_port =
    let updated = update (update l4c old_ip new_ip) old_port new_port in
    if is_udp && updated == 0 then 0xffff else updated

pub apply_rewrite : List ℕ → ℕ → ℕ → ℕ → ℕ → Bool → List ℕ → List ℕ → List ℕ → List ℕ → List ℕ
apply_rewrite frame ip_field ipc_off l4_port l4c_off is_udp old_ip new_ip old_port new_port =
    let f1 = splice frame ip_field new_ip in
    let f2 = splice f1 ipc_off (u16_bytes (update (get_u16 f1 ipc_off) old_ip new_ip)) in
    let f3 = splice f2 l4_port new_port in
    let l4c = get_u16 f3 l4c_off in
    if is_udp && l4c == 0
    then f3
    else splice f3 l4c_off (u16_bytes (l4_updated is_udp l4c old_ip new_ip old_port new_port))

-- Phase 3, for an address field at `ip_at` of the IP header and a port at `port_at` of the L4
-- header.
pub rewrite_endpoint : List ℕ → Classified → ℕ → ℕ → ℕ → ℕ → List ℕ
rewrite_endpoint frame c ip_at port_at new_ip new_port =
    let (l4c_off, is_udp) = l4_checksum_field c.l4 c.l4_off in
    apply_rewrite frame (c.ip_off + ip_at) (c.ip_off + 10) (c.l4_off + port_at) l4c_off is_udp
      (u32_bytes c.addr) (u32_bytes new_ip) (u16_bytes c.port) (u16_bytes new_port)

pub egress_rewrite : List ℕ → Classified → Nat × Option Egress → List ℕ × Nat × Option Egress
egress_rewrite frame c (nat, none) = (frame, nat, none)
egress_rewrite frame c (nat, some x) =
    (rewrite_endpoint frame c 12 0 x.new_src_ip x.new_src_port, nat, some x)

pub translate_egress : List ℕ → Nat → List ℕ × Nat × Option Egress
unfolding egress_rewrite
translate_egress frame nat = elim (classify_src frame) [
  | none ↦ (frame, nat, none)
  | some c ↦ egress_rewrite frame c (egress nat c.l4 c.addr c.port)
]

pub record Ingress : Type 0 where
  pub dst_ip : ℕ
  pub dst_port : ℕ

pub ingress_rewrite : List ℕ → Classified → Option (ℕ × ℕ) → List ℕ × Option Ingress
ingress_rewrite frame c none = (frame, none)
ingress_rewrite frame c (some (ip, port)) =
    (rewrite_endpoint frame c 16 2 ip port, some (record { dst_ip = ip; dst_port = port }))

pub translate_ingress : List ℕ → Nat → List ℕ × Option Ingress
unfolding ingress_rewrite
translate_ingress frame nat = elim (classify_dst frame) [
  | none ↦ (frame, none)
  | some c ↦ ingress_rewrite frame c (ingress nat c.l4 c.port)
]
