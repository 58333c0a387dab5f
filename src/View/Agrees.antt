-- ===== src/View/Agrees.antt =====
-- src/net/view.rs: two buffers of one length that agree on the bytes a layer reads have that layer
-- in common.
use userspace_router.Base.{ℕ, ◌+◌, ◌≤◌, ◌<◌, ◌≡◌, refl, List, length, arith}
use userspace_router.Wire.{byte}
use userspace_router.View.{
  EthernetView, Ipv4View, parse, ethernet_at, ethernet_checked, ipv4, ipv4_at, ipv4_end, protocol,
  tcp, tcp_at, udp, udp_at, udp_end,
}

module _ (a b : List ℕ) (len : length b ≡ length a) where
  pub parse_agrees : ((i : ℕ) → i < 18 → byte b i ≡ byte a i) → parse b ≡ parse a
  unfolding parse ethernet_at ethernet_checked
  parse_agrees same =
      rw
        (
          len,
          same 12 (omega arith),
          same 13 (omega arith),
          same 16 (omega arith),
          same 17 (omega arith),
        )
        refl

  pub ipv4_agrees :
      (eth : EthernetView)
      → ((i : ℕ) → eth.l3_start ≤ i → i < eth.l3_start + 4 → byte b i ≡ byte a i)
      → ipv4 b eth ≡ ipv4 a eth
  unfolding ipv4 ipv4_at ipv4_end
  ipv4_agrees eth same =
      let at : ℕ = eth.l3_start in
      rw
        (
          len,
          same at (omega arith) (omega arith),
          same (at + 2) (omega arith) (omega arith),
          same (at + 2 + 1) (omega arith) (omega arith),
        )
        refl

  pub tcp_agrees :
      (ip : Ipv4View)
      → protocol b ip ≡ protocol a ip
      → byte b (ip.l4_start + 12) ≡ byte a (ip.l4_start + 12)
      → tcp b ip ≡ tcp a ip
  unfolding tcp tcp_at
  tcp_agrees ip proto off = rw (len, proto, off) refl

  pub udp_agrees :
      (ip : Ipv4View)
      → protocol b ip ≡ protocol a ip
      → ((i : ℕ) → ip.l4_start + 4 ≤ i → i < ip.l4_start + 6 → byte b i ≡ byte a i)
      → udp b ip ≡ udp a ip
  unfolding udp udp_at udp_end
  udp_agrees ip proto same =
      let at : ℕ = ip.l4_start + 4 in
      rw
        (len, proto, same at (omega arith) (omega arith), same (at + 1) (omega arith) (omega arith))
        refl
