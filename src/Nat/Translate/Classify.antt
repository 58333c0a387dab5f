-- ===== src/Nat/Translate/Classify.antt =====
-- src/router/nat.rs: a rewritten frame is classified as before, but for the new endpoint.
use userspace_router.Base.{
  ℕ, ◌+◌, ◌≤◌, ◌≡◌, refl, sym, some, List, length, arith, >>=-eq-some, subst, some-eq-some,
}
use userspace_router.View.Layout.{ipv4_layout, tcp_layout, udp_layout}
use userspace_router.View.{EthernetView, Ipv4View, L4View, parse, ipv4, protocol}
use userspace_router.Nat.{L4, tcp, udp, from_proto}
use userspace_router.Nat.Translate.{Classified, classify, l4_view}
use userspace_router.Nat.Translate.Rewrite.{IsLaidOut, min_len}

-- The steps of a classification.
pub record Steps (buf : List ℕ) (c : Classified) (addr : List ℕ → Ipv4View → ℕ)
    (port : List ℕ → L4View → ℕ) : Type 0 where
  pub eth : EthernetView
  pub ip : Ipv4View
  pub v : L4View
  pub parsed : parse buf ≡ some eth
  pub has_ip : ipv4 buf eth ≡ some ip
  pub has_l4 : from_proto (protocol buf ip) ≡ some c.l4
  pub has_view : l4_view c.l4 buf ip ≡ some v
  pub ip_off_eq : c.ip_off ≡ ip.start
  pub l4_off_eq : c.l4_off ≡ v.start
  pub addr_eq : c.addr ≡ addr buf ip
  pub port_eq : c.port ≡ port buf v

pub classify-Steps :
    (addr : List ℕ → Ipv4View → ℕ) (port : List ℕ → L4View → ℕ) (buf : List ℕ) (c : Classified)
    → classify addr port buf ≡ some c
    → Steps buf c addr port
unfolding classify
classify-Steps addr port buf c h =
    let (eth, p, h1) = >>=-eq-some (parse buf) _ h in
    let (ip, q, h2) = >>=-eq-some (ipv4 buf eth) _ h1 in
    let (l4, r, h3) = >>=-eq-some (from_proto (protocol buf ip)) _ h2 in
    let (v, w, h4) = >>=-eq-some (l4_view l4 buf ip) _ h3 in
    subst (λ d. Steps buf d addr port) (some-eq-some _ c h4)
      (record {
        eth = eth;
        ip = ip;
        v = v;
        parsed = p;
        has_ip = q;
        has_l4 = r;
        has_view = w;
        ip_off_eq = refl;
        l4_off_eq = refl;
        addr_eq = refl;
        port_eq = refl;
      })

Classified_eq :
    (c : Classified) (ip_off l4_off addr port : ℕ)
    → c.ip_off ≡ ip_off
    → c.l4_off ≡ l4_off
    → c.addr ≡ addr
    → c.port ≡ port
    → some (record { ip_off = ip_off; l4_off = l4_off; l4 = c.l4; addr = addr; port = port })
      ≡ some c
Classified_eq c ip_off l4_off addr port e f g h = rw (sym e, sym f, sym g, sym h) refl

-- A frame with these steps is classified.
pub Steps-classify :
    (addr : List ℕ → Ipv4View → ℕ) (port : List ℕ → L4View → ℕ) (buf : List ℕ) (c : Classified)
    → Steps buf c addr port
    → classify addr port buf ≡ some c
unfolding classify
Steps-classify addr port buf c s =
    rw (s.parsed, s.has_ip, s.has_l4, s.has_view)
      (Classified_eq c s.ip.start s.v.start (addr buf s.ip) (port buf s.v) s.ip_off_eq s.l4_off_eq
        s.addr_eq s.port_eq)

pub l4_view_layout :
    (l4 : L4) (buf : List ℕ) (ip : Ipv4View) (v : L4View)
    → l4_view l4 buf ip ≡ some v
    → (v.start ≡ ip.l4_start) × (v.start + min_len l4 ≤ length buf) × (v.start + min_len l4 ≤ v.end)
unfolding l4_view
l4_view_layout tcp buf ip v h = let r = tcp_layout buf ip v h in omega (arith, r)
l4_view_layout udp buf ip v h = let r = udp_layout buf ip v h in omega (arith, r)

-- A classified frame is laid out as the rewrite needs it.
pub Steps-IsLaidOut :
    (addr : List ℕ → Ipv4View → ℕ) (port : List ℕ → L4View → ℕ) (buf : List ℕ) (c : Classified)
    → Steps buf c addr port
    → IsLaidOut buf c
Steps-IsLaidOut addr port buf c s =
    let p = ipv4_layout buf s.eth s.ip s.has_ip in
    let q = l4_view_layout c.l4 buf s.ip s.v s.has_view in
    record {
      ip_room = omega (arith, p, q, s.ip_off_eq, s.l4_off_eq);
      l4_room = omega (arith, q, s.l4_off_eq);
    }

-- The same headers, read differently.
pub Steps-other :
    (addr : List ℕ → Ipv4View → ℕ) (port : List ℕ → L4View → ℕ) (addr' : List ℕ → Ipv4View → ℕ)
    (port' : List ℕ → L4View → ℕ) (buf : List ℕ) (c : Classified) (s : Steps buf c addr port)
    → classify addr' port' buf ≡ some (record c { addr = addr' buf s.ip; port = port' buf s.v })
Steps-other addr port addr' port' buf c s = Steps-classify addr' port' buf _ (record {
  eth = s.eth;
  ip = s.ip;
  v = s.v;
  parsed = s.parsed;
  has_ip = s.has_ip;
  has_l4 = s.has_l4;
  has_view = s.has_view;
  ip_off_eq = s.ip_off_eq;
  l4_off_eq = s.l4_off_eq;
  addr_eq = refl;
  port_eq = refl;
})
