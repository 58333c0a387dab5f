-- ===== src/Leases.antt =====
-- src/router/leases.rs: the table of DHCP leases. A MAC address and an IPv4 address are numbers.
-- The handle `SharedLeases` runs each operation under its lock, one at a time.
use userspace_router.Base.{nat_eq, ℕ, Bool, Option, [], length, ◌==◌}
use userspace_router.Base.Map
use userspace_router.Base.Map.{Map}

pub record LeaseTable : Type 0 where
  pub by_mac : Map ℕ ℕ

unfoldable pub empty : LeaseTable
empty = record { by_mac = [] }

unfoldable pub lookup : LeaseTable → ℕ → Option ℕ
lookup t mac = Map.lookup mac t.by_mac

unfoldable pub insert : LeaseTable → ℕ → ℕ → LeaseTable
insert t mac ip = record { by_mac = Map.insert mac ip t.by_mac }

unfoldable pub remove : LeaseTable → ℕ → LeaseTable × Option ℕ
remove t mac = (record { by_mac = Map.remove mac t.by_mac }, Map.lookup mac t.by_mac)

unfoldable pub len : LeaseTable → ℕ
len t = length t.by_mac

unfoldable pub is_empty : LeaseTable → Bool
is_empty t = length t.by_mac == 0
