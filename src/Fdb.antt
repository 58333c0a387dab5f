-- ===== src/Fdb.antt =====
-- src/router/fdb.rs: the forwarding database, a map from MAC addresses to ports.
pub mod Learned
mod Tests
use userspace_router.Base.{
  nat_eq, ℕ, Option, List, [], ◌∷◌, length, is_nil, Bool, none, some, if◌then◌else◌, ◌==◌, is_some,
}
use userspace_router.Base.Map
use userspace_router.Base.Map.{Map}

pub record Fdb : Type 0 where
  pub table : Map ℕ ℕ

abbrev pub new : Fdb
new = record { table = [] }

unfoldable pub insert : Fdb → ℕ → ℕ → Fdb
insert fdb src port = record { table = Map.insert src port fdb.table }

unfoldable pub lookup : Fdb → ℕ → Option ℕ
lookup fdb dst = Map.lookup dst fdb.table

abbrev pub len : Fdb → ℕ
len fdb = length fdb.table

abbrev pub is_empty : Fdb → Bool
is_empty fdb = is_nil fdb.table

-- The frames seen, as their source and port, the latest first; each is learned (the LAN side of src/router/app.rs).
unfoldable pub learn : List (ℕ × ℕ) → Fdb
learn [] = new
learn ((src, port) ∷ frames) = insert (learn frames) src port
