-- ===== src/Netmask/Tests.antt =====
-- src/net/util.rs: 255.255.255.0 and 255.0.255.0.
use userspace_router.Base.{ℕ, ◌≡◌, ◌≤◌, ◌<◌, refl, none, some, arith}
use userspace_router.Netmask.{prefix_to_netmask, netmask_to_prefix, count_ones, trailing_zeros}
use userspace_router.Netmask.Prefix.{netmask_to_prefix-prefix_to_netmask}

with_hole : netmask_to_prefix 0xff00ff00 ≡ none
unfolding netmask_to_prefix count_ones trailing_zeros
with_hole = refl

netmask_to_prefix-prefix_to_netmask_example :
    (24 ≤ 32 → (m : ℕ) × (prefix_to_netmask 24 ≡ some m) × (netmask_to_prefix m ≡ some 24))
    × (32 < 24 → prefix_to_netmask 24 ≡ none)
    × (netmask_to_prefix 0xffffff00 ≡ some 24 → prefix_to_netmask 24 ≡ some 0xffffff00)
netmask_to_prefix-prefix_to_netmask_example =
    netmask_to_prefix-prefix_to_netmask 24 0xffffff00 (omega arith)
