-- ===== src/DhcpClient/Exchange.antt =====
-- src/router/dhcp.rs: the client's side of DISCOVER, OFFER, REQUEST, ACK.
use userspace_router.Base.{
  ℕ, ◌≤◌, ◌≡◌, ◌==◌, refl, true, Option, none, some, arith, List, length, ap, ◌∙◌,
}
use userspace_router.DhcpClient.Sent.{IsSent, build-discover, build-request}
use userspace_router.Dhcp.Message.{offer, ack, MessageType, discover, request, DhcpView}
use userspace_router.DhcpClient.{
  init, selecting, requesting, bound, DhcpClient, bound_ip, build, poll, poll_state, poll_init,
  on_receive, receive_kind,
}

receive_offer :
    (c : DhcpClient) (m : DhcpView)
    → c.state ≡ selecting
    → m.xid ≡ c.xid
    → m.kind ≡ some offer
    → on_receive c m
      ≡ record c { offered_ip = some m.yiaddr; server_id = m.server_id; state = requesting }
unfolding on_receive receive_kind
receive_offer c m s x k =
    let ours : (m.xid == c.xid) ≡ true = ground arith in rw (ours, k, s, on_receive) refl

receive_ack :
    (c : DhcpClient) (m : DhcpView)
    → c.state ≡ requesting
    → m.xid ≡ c.xid
    → m.kind ≡ some ack
    → ((on_receive c m).state ≡ bound) × (bound_ip (on_receive c m) ≡ some m.yiaddr)
unfolding on_receive receive_kind bound_ip
receive_ack c m s x k =
    let ours : (m.xid == c.xid) ≡ true = ground arith in rw (ours, k, s, on_receive) (refl, refl)

poll_init-some :
    (c : DhcpClient) (r : List ℕ × Option ℕ) (n : ℕ)
    → r.1 ≡ some n
    → poll_init c r ≡ (record c { state = selecting }, r)
unfolding poll_init
poll_init-some c (b, none) n e = absurd cc
poll_init-some c (b, some m) n e = refl

poll-init :
    (c : DhcpClient) (out : List ℕ)
    → c.state ≡ init
    → 292 ≤ length out
    → poll c out ≡ (record c { state = selecting }, build c discover out)
unfolding poll poll_state
poll-init c out s h =
    ap (λ st. poll_state st c out) s
    ∙ poll_init-some c (build c discover out) _ (build-discover c out h).size

poll-requesting :
    (c : DhcpClient) (out : List ℕ) → c.state ≡ requesting → poll c out ≡ (c, build c request out)
unfolding poll poll_state
poll-requesting c out s = rw (s, poll) refl

-- Only the identity of the client shows.
IsSent-mac :
    (c d : DhcpClient) {kind : MessageType} {address server : Option ℕ} {r : List ℕ × Option ℕ}
    → c.mac ≡ d.mac
    → c.xid ≡ d.xid
    → IsSent d kind address server r
    → IsSent c kind address server r
IsSent-mac c d e x sent = record {
  options = sent.options;
  size = rw (e, x) sent.size;
  built = rw (e, x) sent.built;
  is_dhcp = rw (e, x) sent.is_dhcp;
  kind_read = sent.kind_read;
  address_read = sent.address_read;
  server_read = sent.server_read;
}

-- From `Init`, with room for 304 bytes in each buffer, an OFFER and then an ACK of its transaction
-- bind the client to the address of the ACK. The first poll sends a DISCOVER and leaves it in
-- `Selecting`; the poll after the OFFER sends a REQUEST for the offered address to the server that
-- the OFFER names; after the ACK the client is `Bound`. Both messages are whole broadcast frames,
-- in which the views find the client's header and these options.
pub client_exchange :
    (c : DhcpClient) (out out' : List ℕ) (o a : DhcpView)
    → c.state ≡ init
    → 304 ≤ length out
    → 304 ≤ length out'
    → o.xid ≡ c.xid
    → o.kind ≡ some offer
    → a.xid ≡ c.xid
    → a.kind ≡ some ack
    → IsSent c discover none none (poll c out).1
      × ((poll c out).0.state ≡ selecting)
      × IsSent c request (some o.yiaddr) o.server_id (poll (on_receive (poll c out).0 o) out').1
      × ((on_receive (poll (on_receive (poll c out).0 o) out').0 a).state ≡ bound)
      × (bound_ip (on_receive (poll (on_receive (poll c out).0 o) out').0 a) ≡ some a.yiaddr)
client_exchange c out out' o a s h h' xo ko xa ka =
    let c1 : DhcpClient = record c { state = selecting } in
    let c2 : DhcpClient = record c {
      offered_ip = some o.yiaddr;
      server_id = o.server_id;
      state = requesting;
    } in
    let asked = build-request c2 out' (some o.yiaddr) o.server_id refl refl h' in
    let last = receive_ack c2 a refl xa ka in
    rw
      (
        poll-init c out s (omega (arith, h)),
        receive_offer c1 o refl xo ko,
        poll-requesting c2 out' refl,
      )
      (
        build-discover c out (omega (arith, h)),
        refl,
        IsSent-mac c c2 refl refl asked,
        last.0,
        last.1,
      )
