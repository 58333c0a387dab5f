-- ===== src/Arp/Tests.antt =====
-- src/router/arp.rs: 192.168.1.50 asks for 192.168.1.1.
use userspace_router.Base.{◌≡◌, none, some, [], ◌∷◌, arith, true, false, replicate}
use userspace_router.Arp.{respond, build_request, build_reply, contains}
use userspace_router.Arp.Exchange.{Reads, respond-build_request}

respond-build_request_example :
    (contains (0xc0a80101 ∷ []) 0xc0a80101 ≡ true
      → ((respond 0x20000000001
            (0xc0a80101 ∷ [])
            (build_request (replicate 42 0) 0x20000000002 0xc0a80132 0xc0a80101).0
            (replicate 60 0)).1
          ≡ some 42)
        × Reads
            (respond 0x20000000001
              (0xc0a80101 ∷ [])
              (build_request (replicate 42 0) 0x20000000002 0xc0a80132 0xc0a80101).0
              (replicate 60 0)).0
            2
            0x20000000001
            0xc0a80101
            0x20000000002
            0xc0a80132)
    × (contains (0xc0a80101 ∷ []) 0xc0a80101 ≡ false
        → respond 0x20000000001
            (0xc0a80101 ∷ [])
            (build_request (replicate 42 0) 0x20000000002 0xc0a80132 0xc0a80101).0
            (replicate 60 0)
          ≡ (replicate 60 0, none))
    × (respond 0x20000000001
          (0xc0a80101 ∷ [])
          (build_reply (replicate 42 0) 0x20000000002 0xc0a80132 0x20000000001 0xc0a80101).0
          (replicate 60 0)
        ≡ (replicate 60 0, none))
respond-build_request_example =
    respond-build_request (replicate 42 0) (replicate 60 0) (0xc0a80101 ∷ []) 0x20000000001
      0x20000000002 0xc0a80132 0xc0a80101 (omega arith) (omega arith) (omega arith) (omega arith)
      (omega arith) (omega arith)
