-- ===== src/DhcpClient/History.antt =====
-- src/router/dhcp.rs: the client over a history of polls and messages.
use userspace_router.Base.{
  ℕ, ◌≡◌, ◌⊎◌, ◌==◌, refl, ap, Option, none, some, List, [], ◌∷◌, arith, inl, inr, Bool-cases, sym,
  ◌∙◌,
}
use userspace_router.Dhcp.Message.{
  MessageType, discover, offer, request, decline, ack, nak, release, inform, DhcpView,
}
use userspace_router.DhcpClient.{
  ClientState, init, selecting, requesting, bound, DhcpLease, DhcpClient, new, build, poll,
  poll_state, poll_init, on_receive, receive_kind,
}

pub data ClientEvent : Type 0 where
  polls : List ℕ → ClientEvent
  receives : DhcpView → ClientEvent

unfoldable pub client_step : DhcpClient → ClientEvent → DhcpClient
client_step c (polls out) = (poll c out).0
client_step c (receives m) = on_receive c m

-- A new client after a history, newest event first.
unfoldable pub client_run : ℕ → ℕ → List ClientEvent → DhcpClient
client_run mac xid [] = new mac xid
client_run mac xid (e ∷ h) = client_step (client_run mac xid h) e

-- An ACK of the client's transaction with this address came while the client was requesting.
abbrev IsAckFor : ℕ → ℕ → ℕ → List ClientEvent → ClientEvent → Type 0
IsAckFor mac xid ip h (polls out) = ⊥
IsAckFor mac xid ip h (receives m) =
    (m.xid ≡ xid)
    × (m.kind ≡ some ack)
    × (m.yiaddr ≡ ip)
    × ((client_run mac xid h).state ≡ requesting)

abbrev pub IsAcked : ℕ → ℕ → ℕ → List ClientEvent → Type 0
IsAcked mac xid ip [] = ⊥
IsAcked mac xid ip (e ∷ h) = IsAckFor mac xid ip h e ⊎ IsAcked mac xid ip h

-- What an event leaves alone.
record Keeps (c c' : DhcpClient) : Type 0 where
  lease : c'.lease ≡ c.lease
  xid : c'.xid ≡ c.xid

poll_init-Keeps : (c : DhcpClient) (o : List ℕ × Option ℕ) → Keeps c (poll_init c o).0
unfolding poll_init
poll_init-Keeps c (out, none) = record { lease = refl; xid = refl }
poll_init-Keeps c (out, some n) = record { lease = refl; xid = refl }

poll-Keeps : (c : DhcpClient) (n : List ℕ) → Keeps c (poll c n).0
unfolding poll poll_state
poll-Keeps c n = go c.state
  where
    go : (s : ClientState) → Keeps c (poll_state s c n).0
    go init = poll_init-Keeps c (build c discover n)
    go selecting = record { lease = refl; xid = refl }
    go requesting = record { lease = refl; xid = refl }
    go bound = record { lease = refl; xid = refl }

-- What a message does to the lease.
data Receives (k : Option MessageType) (s : ClientState) (c : DhcpClient) (m : DhcpView)
    : DhcpClient → Type 0 where
  leaves : (c' : DhcpClient) → Keeps c c' → Receives k s c m c'
  acked :
      (c' : DhcpClient) (l : DhcpLease)
      → k ≡ some ack
      → s ≡ requesting
      → c'.lease ≡ some l
      → l.ip ≡ m.yiaddr
      → c'.xid ≡ c.xid
      → Receives k s c m c'

receive_kind-Receives :
    (k : Option MessageType) (s : ClientState) (c : DhcpClient) (m : DhcpView)
    → Receives k s c m (receive_kind k s c m)
unfolding receive_kind
receive_kind-Receives none s c m = leaves _ (record { lease = refl; xid = refl })
receive_kind-Receives (some offer) init c m = leaves _ (record { lease = refl; xid = refl })
receive_kind-Receives (some offer) selecting c m = leaves _ (record { lease = refl; xid = refl })
receive_kind-Receives (some offer) requesting c m = leaves _ (record { lease = refl; xid = refl })
receive_kind-Receives (some offer) bound c m = leaves _ (record { lease = refl; xid = refl })
receive_kind-Receives (some ack) init c m = leaves _ (record { lease = refl; xid = refl })
receive_kind-Receives (some ack) selecting c m = leaves _ (record { lease = refl; xid = refl })
receive_kind-Receives (some ack) requesting c m = acked _ _ refl refl refl refl refl
receive_kind-Receives (some ack) bound c m = leaves _ (record { lease = refl; xid = refl })
receive_kind-Receives (some nak) s c m = leaves _ (record { lease = refl; xid = refl })
receive_kind-Receives (some discover) s c m = leaves _ (record { lease = refl; xid = refl })
receive_kind-Receives (some request) s c m = leaves _ (record { lease = refl; xid = refl })
receive_kind-Receives (some decline) s c m = leaves _ (record { lease = refl; xid = refl })
receive_kind-Receives (some release) s c m = leaves _ (record { lease = refl; xid = refl })
receive_kind-Receives (some inform) s c m = leaves _ (record { lease = refl; xid = refl })

-- One event after a history: the lease is an old one, or the event is the ACK for it.
record Follows (mac xid : ℕ) (h : List ClientEvent) (e : ClientEvent) (c' : DhcpClient)
    : Type 0 where
  from :
      (l : DhcpLease)
      → c'.lease ≡ some l
      → IsAckFor mac xid l.ip h e ⊎ ((client_run mac xid h).lease ≡ some l)
  same_xid : c'.xid ≡ (client_run mac xid h).xid

Keeps-Follows :
    (mac xid : ℕ) (h : List ClientEvent) (e : ClientEvent) (c' : DhcpClient)
    → Keeps (client_run mac xid h) c'
    → Follows mac xid h e c'
Keeps-Follows mac xid h e c' k = record { from = λ l q. inr (sym k.lease ∙ q); same_xid = k.xid }

step-Follows :
    (mac xid : ℕ) (h : List ClientEvent) (e : ClientEvent)
    → (client_run mac xid h).xid ≡ xid
    → Follows mac xid h e (client_step (client_run mac xid h) e)
unfolding client_step on_receive
step-Follows mac xid h (polls n) x =
    Keeps-Follows mac xid h (polls n) _ (poll-Keeps (client_run mac xid h) n)
step-Follows mac xid h (receives m) x = elim (Bool-cases (m.xid == (client_run mac xid h).xid)) [
  | inl ours ↦ rw ours (go _ (receive_kind-Receives m.kind c.state c m) (ground (arith, ours, x)))
  | inr other ↦
      rw other (Keeps-Follows mac xid h (receives m) c (record { lease = refl; xid = refl }))
]
  where
    c : DhcpClient
    c = client_run mac xid h

    go :
        (c' : DhcpClient)
        → Receives m.kind c.state c m c'
        → m.xid ≡ xid
        → Follows mac xid h (receives m) c'
    go _ (leaves c' k) same = Keeps-Follows mac xid h (receives m) c' k
    go _ (acked c' l k s q ip x') same = record {
      from =
          λ l' q'. let e : l ≡ l' = cc in inl (same, k, sym ip ∙ ap (λ (r : DhcpLease). r.ip) e, s);
      same_xid = x';
    }

client_run-xid : (mac xid : ℕ) (h : List ClientEvent) → (client_run mac xid h).xid ≡ xid
unfolding client_run new
client_run-xid mac xid [] = refl
client_run-xid mac xid (e ∷ h) =
    (step-Follows mac xid h e (client_run-xid mac xid h)).same_xid ∙ client_run-xid mac xid h

-- A lease that the client holds comes from an ACK of its own transaction, received while it was
-- requesting, and has the address of that ACK.
pub lease-IsAcked :
    (mac xid : ℕ) (h : List ClientEvent) (l : DhcpLease)
    → (client_run mac xid h).lease ≡ some l
    → IsAcked mac xid l.ip h
unfolding client_run new
lease-IsAcked mac xid [] l q = cc
lease-IsAcked mac xid (e ∷ h) l q =
    elim ((step-Follows mac xid h e (client_run-xid mac xid h)).from l q) [
      | inl now ↦ inl now
      | inr before ↦ inr (lease-IsAcked mac xid h l before)
    ]
