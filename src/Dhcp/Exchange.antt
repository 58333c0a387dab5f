-- ===== src/Dhcp/Exchange.antt =====
-- src/router/dhcp.rs: DISCOVER, OFFER, REQUEST, ACK, while other clients are served in between.
use userspace_router.Base.Map
use userspace_router.Base.Map.{lookup-insert, lookup-remove}
use userspace_router.Base.{
  nat_eq, ℕ, ◌≡◌, ◌≢◌, refl, false, Option, none, some, arith, inl, inr, Option-cases, Bool-cases,
  ◌∙◌, subst, sym,
}
use userspace_router.Pool.Cover.{IsValid}
use userspace_router.Leases
use userspace_router.Dhcp.{
  DhcpServer, Reply, assign, answer_discover, answer_request, is_for_other, give_back, handle,
  handle_kind, silent, release_ip,
}
use userspace_router.Dhcp.Message.{
  MessageType, discover, offer, request, decline, ack, nak, release, inform, DhcpView,
}
use userspace_router.Dhcp.Leased.{
  IsExclusive, Assigns, known, taken, exhausted, overlooked, assign-Assigns, assign-Keeps,
}
use userspace_router.Dhcp.Service.{handle-Keeps}

-- What `assign` promises: the address it returns is leased to the client; other clients keep their
-- leases.
record Assigned (s : DhcpServer) (mac : ℕ) (r : DhcpServer × Option ℕ) : Type 0 where
  bound : (ip : ℕ) → r.1 ≡ some ip → Map.lookup mac r.0.leases.by_mac ≡ some ip
  others : (m : ℕ) → mac ≢ m → Map.lookup m r.0.leases.by_mac ≡ Map.lookup m s.leases.by_mac
  identity : r.0.cfg.server_ip ≡ s.cfg.server_ip

assign-Assigned : (s : DhcpServer) (mac : ℕ) → IsValid s.pool → Assigned s mac (assign s mac)
unfolding Leases.insert
assign-Assigned s mac v = go (assign s mac) (assign-Assigns s mac v)
  where
    go : (r : DhcpServer × Option ℕ) → Assigns s mac r → Assigned s mac r
    go _ (known ip e) = record {
      bound = λ i h. ground (arith, e);
      others = λ m d. refl;
      identity = refl;
    }
    go _ (taken ip p unknown free split gone valid lo hi) = record {
      bound = λ i h. ground (arith, lookup-insert mac mac ip s.leases.by_mac);
      others = λ m d. ground (arith, lookup-insert mac m ip s.leases.by_mac);
      identity = refl;
    }
    go _ (overlooked unknown all) = record {
      bound = λ i h. cc;
      others = λ m d. refl;
      identity = refl;
    }
    go _ (exhausted unknown nothing) = record {
      bound = λ i h. cc;
      others = λ m d. refl;
      identity = refl;
    }

-- The server after messages of other clients.
pub data ServesOthers (mac : ℕ) (s : DhcpServer) : DhcpServer → Type 0 where
  at_once : ServesOthers mac s s
  after :
      (s' : DhcpServer) (m : DhcpView) (r : DhcpServer × Option Reply)
      → ServesOthers mac s s'
      → m.chaddr ≢ mac
      → handle s' m ≡ some r
      → ServesOthers mac s r.0

-- What a message leaves of the leases of other clients, and of the server's identity.
record Spares (s : DhcpServer) (mac : ℕ) (s' : DhcpServer) : Type 0 where
  lease : Map.lookup mac s'.leases.by_mac ≡ Map.lookup mac s.leases.by_mac
  identity : s'.cfg.server_ip ≡ s.cfg.server_ip

same-Spares :
    (s : DhcpServer) (mac : ℕ) (r : DhcpServer × Option Reply)
    → some (s, none) ≡ some r
    → Spares s mac r.0
same-Spares s mac r e =
    let same : s ≡ r.0 = cc in subst (Spares s mac) same (record { lease = refl; identity = refl })

assign-Spares :
    (s : DhcpServer) (m : DhcpView) (mac : ℕ)
    → IsExclusive s
    → m.chaddr ≢ mac
    → Spares s mac (assign s m.chaddr).0
assign-Spares s m mac x d =
    let a = assign-Assigned s m.chaddr x.valid in
    record { lease = a.others mac d; identity = a.identity }

answer_discover_fst : (m : DhcpView) (a : DhcpServer × Option ℕ) → (answer_discover m a).0 ≡ a.0
unfolding answer_discover
answer_discover_fst m (s, none) = refl
answer_discover_fst m (s, some ip) = refl

answer_request_fst : (m : DhcpView) (a : DhcpServer × Option ℕ) → (answer_request m a).0 ≡ a.0
unfolding answer_request
answer_request_fst m (s, none) = refl
answer_request_fst m (s, some ip) = refl

give_back-Spares :
    (s : DhcpServer) (from mac : ℕ) (r : DhcpServer × Option Reply)
    → IsExclusive s
    → from ≢ mac
    → silent (give_back s from) ≡ some r
    → Spares s mac r.0
unfolding silent give_back release_ip Leases.remove
give_back-Spares s from mac r x d e = elim (Option-cases (Map.lookup from s.leases.by_mac)) [
  | inl unknown ↦ record {
    lease = ground (arith, unknown, lookup-remove from mac s.leases.by_mac x.keys);
    identity = ground (arith, unknown);
  }
  | inr (ip, bound) ↦ record {
    lease = ground (arith, bound, lookup-remove from mac s.leases.by_mac x.keys);
    identity = ground (arith, bound);
  }
]

handle_kind-Spares :
    (k : MessageType) (s : DhcpServer) (m : DhcpView) (mac : ℕ) (r : DhcpServer × Option Reply)
    → IsExclusive s
    → m.chaddr ≢ mac
    → handle_kind k s m ≡ some r
    → Spares s mac r.0
unfolding handle_kind
handle_kind-Spares discover s m mac r x d e =
    let same : (answer_discover m (assign s m.chaddr)).0 ≡ r.0 = cc in
    subst (Spares s mac) (sym (answer_discover_fst m (assign s m.chaddr)) ∙ same)
      (assign-Spares s m mac x d)
handle_kind-Spares request s m mac r x d e =
    elim (Bool-cases (is_for_other m.server_id s.cfg.server_ip)) [
      | inl other ↦ same-Spares s mac r (rw other at e)
      | inr ours ↦
          let same : (answer_request m (assign s m.chaddr)).0 ≡ r.0 = ground (arith, ours, e) in
          subst (Spares s mac) (sym (answer_request_fst m (assign s m.chaddr)) ∙ same)
            (assign-Spares s m mac x d)
    ]
handle_kind-Spares release s m mac r x d e = give_back-Spares s m.chaddr mac r x d e
handle_kind-Spares decline s m mac r x d e = give_back-Spares s m.chaddr mac r x d e
handle_kind-Spares offer s m mac r x d e = same-Spares s mac r e
handle_kind-Spares ack s m mac r x d e = same-Spares s mac r e
handle_kind-Spares nak s m mac r x d e = same-Spares s mac r e
handle_kind-Spares inform s m mac r x d e = same-Spares s mac r e

handle-Spares :
    (s : DhcpServer) (m : DhcpView) (mac : ℕ) (r : DhcpServer × Option Reply)
    → IsExclusive s
    → m.chaddr ≢ mac
    → handle s m ≡ some r
    → Spares s mac r.0
unfolding handle
handle-Spares s m mac r x d e = elim (Option-cases m.kind) [
  | inl none_given ↦ same-Spares s mac r (rw (none_given, handle) at e)
  | inr (k, given) ↦ handle_kind-Spares k s m mac r x d (rw (given, handle) at e)
]

-- The lease of a client is spared, and the invariant holds again.
record Leaves (s : DhcpServer) (mac : ℕ) (s' : DhcpServer) : Type 0 where
  spares : Spares s mac s'
  exclusive : IsExclusive s'

Leaves-after :
    (s : DhcpServer) (mac : ℕ) (s' : DhcpServer) (m : DhcpView) (r : DhcpServer × Option Reply)
    → Leaves s mac s'
    → m.chaddr ≢ mac
    → handle s' m ≡ some r
    → Leaves s mac r.0
Leaves-after s mac s' m r p d e =
    let now = handle-Spares s' m mac r p.exclusive d e in
    let (r', e', k) = handle-Keeps s' m p.exclusive in
    let same : r' ≡ r = option_same (sym e' ∙ e) in
    record {
      spares = record {
        lease = now.lease ∙ p.spares.lease;
        identity = now.identity ∙ p.spares.identity;
      };
      exclusive = subst (λ t. IsExclusive t.0) same k.exclusive;
    }
  where
    option_same : {q q' : DhcpServer × Option Reply} → some q ≡ some q' → q ≡ q'
    option_same e = cc

others-Leaves :
    (s : DhcpServer) (mac : ℕ) (s' : DhcpServer)
    → IsExclusive s
    → ServesOthers mac s s'
    → Leaves s mac s'
others-Leaves s mac _ x at_once = record {
  spares = record { lease = refl; identity = refl };
  exclusive = x;
}
others-Leaves s mac _ x (after s' m r before d e) =
    Leaves-after s mac s' m r (others-Leaves s mac s' x before) d e

offer_lem :
    (m : DhcpView) (a : DhcpServer × Option ℕ) (s1 : DhcpServer) (o : Reply)
    → answer_discover m a ≡ (s1, some o)
    → (a.0 ≡ s1) × (a.1 ≡ some o.yiaddr) × (o.kind ≡ offer)
unfolding answer_discover
offer_lem m (s, none) s1 o e = cc
offer_lem m (s, some ip) s1 o e = (cc, cc, cc)

assign_known :
    (s : DhcpServer) (mac ip : ℕ)
    → Map.lookup mac s.leases.by_mac ≡ some ip
    → assign s mac ≡ (s, some ip)
unfolding assign Leases.lookup
assign_known s mac ip e = rw (e, assign) refl

-- A client that gets a reply to its DISCOVER gets an OFFER, and if it then REQUESTs the offered
-- address, of this server or of none by name, it gets an ACK for it, whatever messages of other
-- clients come in between. At the start the pool is valid, every leased address lies in its range
-- and is not free, and no address is leased twice.
pub discover_request :
    (s s1 s2 : DhcpServer) (d rq : DhcpView) (o : Reply)
    → IsExclusive s
    → d.kind ≡ some discover
    → handle s d ≡ some (s1, some o)
    → ServesOthers d.chaddr s1 s2
    → rq.kind ≡ some request
    → rq.chaddr ≡ d.chaddr
    → rq.requested_ip ≡ some o.yiaddr
    → is_for_other rq.server_id s.cfg.server_ip ≡ false
    → (o.kind ≡ offer)
      × (handle s2 rq
          ≡ some (
            s2,
            some (record {
              kind = ack;
              xid = rq.xid;
              yiaddr = o.yiaddr;
              client = rq.chaddr;
              broadcast = rq.broadcast;
            }),
          ))
unfolding handle handle_kind answer_request
discover_request s s1 s2 d rq o x kd hd between kr same req ours =
    let answered : answer_discover d (assign s d.chaddr) ≡ (s1, some o) = ground (arith, kd, hd) in
    let q = offer_lem d (assign s d.chaddr) s1 o answered in
    let a = assign-Assigned s d.chaddr x.valid in
    let x1 : IsExclusive s1 = subst IsExclusive q.0 (assign-Keeps s d.chaddr x).exclusive in
    let bound : Map.lookup d.chaddr s1.leases.by_mac ≡ some o.yiaddr =
      subst (λ t. Map.lookup d.chaddr t.leases.by_mac ≡ some o.yiaddr) q.0 (a.bound o.yiaddr q.1) in
    let later = (others-Leaves s1 d.chaddr s2 x1 between).spares in
    let still : assign s2 rq.chaddr ≡ (s2, some o.yiaddr) =
      assign_known s2 rq.chaddr o.yiaddr (rw same (later.lease ∙ bound)) in
    let id : s1.cfg.server_ip ≡ s.cfg.server_ip =
      subst (λ t. t.cfg.server_ip ≡ s.cfg.server_ip) q.0 a.identity in
    let mine : is_for_other rq.server_id s2.cfg.server_ip ≡ false = rw (later.identity, id) ours in
    (q.2, rw (kr, handle, mine, still, req) (ground arith))
