-- ===== src/Fdb/Learned.antt =====
-- src/router/fdb.rs: the database after a history of frames.
use userspace_router.Base.{
  nat_eq, ℕ, Option, List, [], ◌∷◌, ◌≡◌, refl, none, some, if◌then◌else◌, ◌==◌, arith,
}
use userspace_router.Base.Map
use userspace_router.Base.Map.{lookup-insert}
use userspace_router.Fdb.{insert, lookup, learn}

-- The port of the latest frame from an address.
abbrev pub latest : List (ℕ × ℕ) → ℕ → Option ℕ
latest [] dst = none
latest ((src, port) ∷ frames) dst = if dst == src then some port else latest frames dst

-- After any history of frames, a lookup finds the port of the latest frame that came from the
-- address, and none for an address that has sent no frame, which is then flooded.
pub lookup-learn : (frames : List (ℕ × ℕ)) (dst : ℕ) → lookup (learn frames) dst ≡ latest frames dst
unfolding learn lookup insert Map.lookup
lookup-learn [] dst = refl
lookup-learn ((src, port) ∷ frames) dst =
    ground (arith, lookup-insert src dst port (learn frames).table, lookup-learn frames dst)
