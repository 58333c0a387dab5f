-- ===== src/Nat/Translate/Reclassify.antt =====
-- src/router/nat.rs: a rewritten frame is classified as before, but for the new endpoint.
use userspace_router.Base.{ℕ, ◌+◌, ◌≤◌, ◌<◌, ◌≡◌, refl, ap, ◌∙◌, false, some, List, length, arith}
use userspace_router.Wire.{byte}
use userspace_router.View.{Ipv4View, L4View, parse, ipv4, protocol}
use userspace_router.View.Agrees.{parse_agrees, ipv4_agrees, tcp_agrees, udp_agrees}
use userspace_router.View.Layout.{parse_layout, ipv4_layout}
use userspace_router.Nat.{L4, tcp, udp, from_proto}
use userspace_router.Nat.Translate.{
  Classified, classify, l4_view, l4_checksum_field, rewrite_endpoint,
}
use userspace_router.Nat.Translate.Rewrite.{
  IsLaidOut, IsField, touched, length-rewrite_endpoint, byte-rewrite_endpoint,
}
use userspace_router.Nat.Translate.Classify.{Steps, Steps-classify, Steps-IsLaidOut, l4_view_layout}

-- What the two headers' parsers read is not written: the bytes in front of the IP checksum, and
-- behind the ports all that is not the L4 checksum.
pub head_untouched :
    (buf : List ℕ) (c : Classified) (ip_at port_at i : ℕ)
    → IsLaidOut buf c
    → IsField ip_at port_at
    → i < c.ip_off + 10
    → touched c ip_at port_at i ≡ false
unfolding l4_checksum_field
head_untouched buf c ip_at port_at i laid field h = elim c.l4 [
  | tcp ↦ ground (arith, laid, field)
  | udp ↦ ground (arith, laid, field)
]

tcp_untouched :
    (buf : List ℕ) (c : Classified) (ip_at port_at i : ℕ)
    → IsLaidOut buf c
    → IsField ip_at port_at
    → c.l4 ≡ tcp
    → c.l4_off + 4 ≤ i
    → i < c.l4_off + 16
    → touched c ip_at port_at i ≡ false
unfolding l4_checksum_field
tcp_untouched buf c ip_at port_at i laid field e g h = rw e (ground (arith, laid, field))

udp_untouched :
    (buf : List ℕ) (c : Classified) (ip_at port_at i : ℕ)
    → IsLaidOut buf c
    → IsField ip_at port_at
    → c.l4 ≡ udp
    → c.l4_off + 4 ≤ i
    → i < c.l4_off + 6
    → touched c ip_at port_at i ≡ false
unfolding l4_checksum_field
udp_untouched buf c ip_at port_at i laid field e g h = rw e (ground (arith, laid, field))

module _ (buf : List ℕ) (c : Classified) (ip_at port_at new_ip new_port : ℕ)
    (field : IsField ip_at port_at) (addr : List ℕ → Ipv4View → ℕ) (port : List ℕ → L4View → ℕ)
    (s : Steps buf c addr port) where
  abbrev rewritten : List ℕ
  rewritten = rewrite_endpoint buf c ip_at port_at new_ip new_port

  laid : IsLaidOut buf c
  laid = Steps-IsLaidOut addr port buf c s

  same_length : length rewritten ≡ length buf
  same_length = length-rewrite_endpoint buf c ip_at port_at new_ip new_port laid field

  head_same : (i : ℕ) → i < c.ip_off + 10 → byte rewritten i ≡ byte buf i
  head_same i h =
      byte-rewrite_endpoint buf c ip_at port_at new_ip new_port laid field i
        (head_untouched buf c ip_at port_at i laid field h)

  head_room : (14 ≤ c.ip_off) × (c.ip_off ≡ s.eth.l3_start)
  head_room =
      let p = parse_layout buf s.eth s.parsed in
      let q = ipv4_layout buf s.eth s.ip s.has_ip in omega (arith, p, q, s.ip_off_eq)

  parse_same : parse rewritten ≡ some s.eth
  parse_same =
      parse_agrees buf rewritten same_length (λ i h. head_same i (omega (arith, head_room)))
      ∙ s.parsed

  ipv4_same : ipv4 rewritten s.eth ≡ some s.ip
  ipv4_same =
      ipv4_agrees buf rewritten same_length s.eth (λ i g h. head_same i (omega (arith, head_room)))
      ∙ s.has_ip

  protocol_same : protocol rewritten s.ip ≡ protocol buf s.ip
  protocol_same = head_same (s.ip.start + 9) (omega (arith, s.ip_off_eq))

  l4_start_same : c.l4_off ≡ s.ip.l4_start
  l4_start_same =
      let q = l4_view_layout c.l4 buf s.ip s.v s.has_view in omega (arith, q, s.l4_off_eq)

  l4_view_same : (l4 : L4) → c.l4 ≡ l4 → l4_view l4 rewritten s.ip ≡ l4_view l4 buf s.ip
  unfolding l4_view
  l4_view_same tcp e = tcp_agrees buf rewritten same_length s.ip protocol_same (
      byte-rewrite_endpoint buf c ip_at port_at new_ip new_port laid field (s.ip.l4_start + 12) (
        tcp_untouched buf c ip_at port_at (s.ip.l4_start + 12) laid field e
          (omega (arith, l4_start_same)) (omega (arith, l4_start_same))))
  l4_view_same udp e = udp_agrees buf rewritten same_length s.ip protocol_same (λ i g h.
      byte-rewrite_endpoint buf c ip_at port_at new_ip new_port laid field i (
        udp_untouched buf c ip_at port_at i laid field e (omega (arith, l4_start_same))
          (omega (arith, l4_start_same))))

  -- The rewritten frame has the same headers, whatever is then read of them.
  pub reclassify :
      (addr' : List ℕ → Ipv4View → ℕ) (port' : List ℕ → L4View → ℕ)
      → classify addr' port' rewritten
        ≡ some (record {
          ip_off = c.ip_off;
          l4_off = c.l4_off;
          l4 = c.l4;
          addr = addr' rewritten s.ip;
          port = port' rewritten s.v;
        })
  reclassify addr' port' = Steps-classify addr' port' rewritten _ (record {
    eth = s.eth;
    ip = s.ip;
    v = s.v;
    parsed = parse_same;
    has_ip = ipv4_same;
    has_l4 = ap from_proto protocol_same ∙ s.has_l4;
    has_view = l4_view_same c.l4 refl ∙ s.has_view;
    ip_off_eq = s.ip_off_eq;
    l4_off_eq = s.l4_off_eq;
    addr_eq = refl;
    port_eq = refl;
  })
