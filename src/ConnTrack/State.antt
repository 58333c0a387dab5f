-- ===== src/ConnTrack/State.antt =====
-- src/router/conntrack.rs: the eleven states of RFC 9293, their timeouts, and the two transition
-- functions. The flag bits are those of src/net/tcp.rs.
use userspace_router.Base.{ℕ, ◌*◌, Bool, true, false, not, ◌&&◌, if◌then◌else◌, bit_and, ◌==◌}

pub data TcpState : Type 0 where
  closed listen syn_sent syn_received established fin_wait1 fin_wait2 : TcpState
  close_wait closing last_ack time_wait : TcpState

-- `state == TcpState::Closed`
abbrev pub is_closed : TcpState → Bool
is_closed closed = true
is_closed _ = false

unfoldable pub idle_timeout_ms : TcpState → ℕ
idle_timeout_ms closed = 10_000
idle_timeout_ms listen = 60_000
idle_timeout_ms syn_sent = 60_000
idle_timeout_ms syn_received = 60_000
idle_timeout_ms established = 24 * 60 * 60_000
idle_timeout_ms fin_wait1 = 60_000
idle_timeout_ms fin_wait2 = 60_000
idle_timeout_ms close_wait = 60_000
idle_timeout_ms closing = 60_000
idle_timeout_ms last_ack = 30_000
idle_timeout_ms time_wait = 120_000

-- `flags & BIT != 0` for FIN, SYN, RST and ACK.
unfoldable pub fin : ℕ → Bool
fin flags = not (bit_and flags 0x01 == 0)

unfoldable pub syn : ℕ → Bool
syn flags = not (bit_and flags 0x02 == 0)

unfoldable pub rst : ℕ → Bool
rst flags = not (bit_and flags 0x04 == 0)

unfoldable pub ack : ℕ → Bool
ack flags = not (bit_and flags 0x10 == 0)

on_send : TcpState → ℕ → TcpState
on_send closed flags = if syn flags && not (ack flags) then syn_sent else closed
on_send listen flags = if syn flags && ack flags then syn_received else listen
on_send syn_received flags = if syn flags && ack flags then syn_received else syn_received
on_send established flags = if fin flags then fin_wait1 else established
on_send close_wait flags = if fin flags then last_ack else close_wait
on_send syn_sent flags = syn_sent
on_send fin_wait1 flags = fin_wait1
on_send fin_wait2 flags = fin_wait2
on_send closing flags = closing
on_send last_ack flags = last_ack
on_send time_wait flags = time_wait

unfoldable pub transition_on_send : TcpState → ℕ → TcpState
unfolding on_send
transition_on_send state flags = if rst flags then closed else on_send state flags

on_recv : TcpState → ℕ → TcpState
on_recv closed flags = if syn flags && not (ack flags) then syn_received else closed
on_recv listen flags = if syn flags && not (ack flags) then syn_received else listen
on_recv syn_sent flags =
    if syn flags && ack flags then established else if syn flags then syn_received else syn_sent
on_recv syn_received flags = if ack flags && not (fin flags) then established else syn_received
on_recv established flags = if fin flags then close_wait else established
on_recv fin_wait1 flags =
    if fin flags && ack flags
    then time_wait
    else if fin flags
    then closing
    else if ack flags
    then fin_wait2
    else fin_wait1
on_recv fin_wait2 flags = if fin flags then time_wait else fin_wait2
on_recv closing flags = if ack flags then time_wait else closing
on_recv last_ack flags = if ack flags then closed else last_ack
on_recv close_wait flags = close_wait
on_recv time_wait flags = time_wait

unfoldable pub transition_on_recv : TcpState → ℕ → TcpState
unfolding on_recv
transition_on_recv state flags = if rst flags then closed else on_recv state flags
