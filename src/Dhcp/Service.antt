-- ===== src/Dhcp/Service.antt =====
-- src/router/dhcp.rs: what a sequence of messages does to the server, and the exchange of a client
-- with it while other clients are served.

use userspace_router.Base.{nat_eq, ℕ, ◌≡◌, refl, Option, none, some, inl, inr, Bool-cases}
use userspace_router.Dhcp.{
  DhcpServer, Reply, assign, answer_discover, answer_request, is_for_other, give_back, handle,
  handle_kind, silent,
}
use userspace_router.Dhcp.Message.{
  MessageType, discover, offer, request, decline, ack, nak, release, inform, DhcpView,
}
use userspace_router.Dhcp.Leased.{IsExclusive, Keeps, assign-Keeps}
use userspace_router.Dhcp.Return.{give_back-Keeps}

-- A step that succeeds and keeps the invariant.
abbrev Runs : DhcpServer → Option (DhcpServer × Option Reply) → Type 0
Runs s o = (r : DhcpServer × Option Reply) × (o ≡ some r) × Keeps s r.0

same-Runs : (s : DhcpServer) → IsExclusive s → Runs s (some (s, none))
same-Runs s x = ((s, none), refl, record { exclusive = x; all_kept = λ y. (λ d. d, λ d. d) })

give_back-Runs : (s : DhcpServer) (mac : ℕ) → IsExclusive s → Runs s (silent (give_back s mac))
unfolding silent
give_back-Runs s mac x = let (s', e, k) = give_back-Keeps s mac x in ((s', none), rw e refl, k)

handle_kind-Runs :
    (k : MessageType) (s : DhcpServer) (m : DhcpView) → IsExclusive s → Runs s (handle_kind k s m)
unfolding handle_kind answer_discover answer_request
handle_kind-Runs discover s m x = go (assign s m.chaddr) (assign-Keeps s m.chaddr x)
  where
    go : (r : DhcpServer × Option ℕ) → Keeps s r.0 → Runs s (some (answer_discover m r))
    go (s', none) k = ((s', none), refl, k)
    go (s', some ip) k = (answer_discover m (s', some ip), refl, k)
handle_kind-Runs request s m x = elim (Bool-cases (is_for_other m.server_id s.cfg.server_ip)) [
  | inl other ↦ rw other (same-Runs s x)
  | inr ours ↦ rw ours (go (assign s m.chaddr) (assign-Keeps s m.chaddr x))
]
  where
    go : (r : DhcpServer × Option ℕ) → Keeps s r.0 → Runs s (some (answer_request m r))
    go (s', none) k = ((s', none), refl, k)
    go (s', some ip) k = (answer_request m (s', some ip), refl, k)
handle_kind-Runs release s m x = give_back-Runs s m.chaddr x
handle_kind-Runs decline s m x = give_back-Runs s m.chaddr x
handle_kind-Runs offer s m x = same-Runs s x
handle_kind-Runs ack s m x = same-Runs s x
handle_kind-Runs nak s m x = same-Runs s x
handle_kind-Runs inform s m x = same-Runs s x

-- If the pool is valid, every leased address lies in its range and is not free, and no address is
-- leased to two clients, then whatever message arrives, the server does not panic; afterwards the
-- same holds, and the addresses at its disposal, free or leased, are the same.
pub handle-Keeps :
    (s : DhcpServer) (m : DhcpView)
    → IsExclusive s
    → (r : DhcpServer × Option Reply) × (handle s m ≡ some r) × Keeps s r.0
unfolding handle
handle-Keeps s m x = go m.kind refl
  where
    go : (k : Option MessageType) → m.kind ≡ k → Runs s (handle s m)
    go none e = rw (e, handle) (same-Runs s x)
    go (some k) e = rw (e, handle) (handle_kind-Runs k s m x)
