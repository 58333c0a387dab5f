-- ===== src/ConnTrack/Idle.antt =====
-- src/router/conntrack.rs: `sweep` and the idle timeouts.
use userspace_router.Base.{ℕ, ◌-◌, ◌≤◌, ◌<◌, ◌*◌, ◌≡◌, false, none, some, if◌then◌else◌, arith}
use userspace_router.Base.Map.{lookup, lookup-retain}
use userspace_router.ConnTrack.{
  flow_eq, FlowKey, Conn, ConnTrack, fully_closed, sweep, is_fresh, conn_timeout_ms,
  idle_timeout_ms,
}
use userspace_router.ConnTrack.Laws.{IsTracked}

-- A flow that is not fully closed has between half a minute and a day.
conn_timeout_bounds :
    (c : Conn)
    → fully_closed c ≡ false
    → (30_000 ≤ conn_timeout_ms c) × (conn_timeout_ms c ≤ 24 * 60 * 60_000)
unfolding fully_closed conn_timeout_ms idle_timeout_ms
conn_timeout_bounds c h = ground arith

-- A sweep of a well-formed table leaves a stored flow as it is, or drops it: it is there afterwards
-- exactly when it has been silent for less than its timeout. In particular a flow survives half a
-- minute of silence in every state, and none survives a day of it.
pub sweep_lem :
    (t : ConnTrack) (now : ℕ) (k : FlowKey) (c : Conn)
    → IsTracked t
    → lookup k t.flows ≡ some c
    → (lookup k (sweep t now).flows ≡ (if is_fresh now c then some c else none))
      × (now - c.last_seen < 30_000 → lookup k (sweep t now).flows ≡ some c)
      × (24 * 60 * 60_000 ≤ now - c.last_seen → lookup k (sweep t now).flows ≡ none)
unfolding sweep is_fresh
sweep_lem t now k c v e = (
  ground (arith, law),
  (λ h. ground (arith, law, conn_timeout_bounds c (v.live k c e).is_open)),
  (λ h. ground (arith, law, conn_timeout_bounds c (v.live k c e).is_open)),
)
  where
    law : lookup k (sweep t now).flows ≡ (if is_fresh now c then some c else none)
    law = ground (arith, lookup-retain (λ _ x. is_fresh now x) k t.flows v.distinct)
