-- ===== src/Fdb/Tests.antt =====
-- src/router/fdb.rs: a host that moves from port 1 to port 2.
use userspace_router.Base.{nat_eq, ◌≡◌, refl, some, [], ◌∷◌}
use userspace_router.Base.Map
use userspace_router.Fdb.{lookup, learn, insert}

moved :
    lookup (learn ((0x20000000001, 2) ∷ (0x20000000002, 3) ∷ (0x20000000001, 1) ∷ [])) 0x20000000001
    ≡ some 2
unfolding lookup learn insert Map.lookup Map.insert
moved = refl
