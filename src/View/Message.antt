-- ===== src/View/Message.antt =====
-- src/net/view.rs: the DHCP and DNS views of a payload.
use userspace_router.Base.{
  ℕ, ◌+◌, ◌≤◌, ◌≡◌, min, Bool, ◌||◌, Option, none, some, List, if◌then◌else◌, ◌==◌, length, arith,
}
use userspace_router.Wire.{has_bytes, slice}
use userspace_router.View.{L4View, src_port, dst_port}

-- A fixed header, and what follows it: the options of DHCP, the records of DNS.
pub record MessageView : Type 0 where
  pub start : ℕ
  pub body_start : ℕ
  pub end : ℕ

unfoldable pub message_at : ℕ → List ℕ → ℕ → ℕ → Option MessageView
message_at header_len buf start end =
    if has_bytes buf start header_len
    then some (record { start = start; body_start = min (start + header_len) end; end = end })
    else none

abbrev is_bootp : ℕ → Bool
is_bootp p = p == 67 || p == 68

abbrev pub is_dhcp : List ℕ → L4View → Bool
is_dhcp buf v = is_bootp (src_port buf v) || is_bootp (dst_port buf v)

abbrev pub is_dns : List ℕ → L4View → Bool
is_dns buf v = src_port buf v == 53 || dst_port buf v == 53

-- `UdpView::dhcp`, and `dns` of both views
unfoldable pub dhcp : List ℕ → L4View → Option MessageView
dhcp buf v = if is_dhcp buf v then message_at 240 buf v.payload_start v.end else none

unfoldable pub dns : List ℕ → L4View → Option MessageView
dns buf v = if is_dns buf v then message_at 12 buf v.payload_start v.end else none

-- `DhcpView::options` and `DnsView::body`
abbrev pub body : List ℕ → MessageView → List ℕ
body buf m = slice buf m.body_start m.end

-- The body starts in front of its end, so that the slice does not panic, and the header lies in the
-- buffer.
pub message_layout :
    (header_len : ℕ) (buf : List ℕ) (start end : ℕ) (m : MessageView)
    → message_at header_len buf start end ≡ some m
    → (m.start ≡ start) × (start + header_len ≤ length buf) × (m.body_start ≤ m.end) × (m.end ≡ end)
unfolding message_at
message_layout header_len buf start end m h = ground arith
