-- ===== src/Arp/Image.antt =====
-- src/net/arp.rs: the bytes that the builders write.
use userspace_router.Base.{ℕ, ◌≤◌, ◌≡◌, ap, ◌∙◌, some, List, [], ◌∷◌, ◌++◌, length, drop, arith}
use userspace_router.Wire.{u16_bytes, u32_bytes, splice, has_bytes}
use userspace_router.Wire.Writes.{splice-append, writes, concat, writes-concat}
use userspace_router.Wire.Splice.{length-splice}
use userspace_router.Arp.{mac_bytes, build, write_ethernet, write_arp, true}

-- A whole frame.
unfoldable pub image : ℕ → ℕ → ℕ → ℕ → ℕ → ℕ → List ℕ
image dst op sender_mac sender target_mac target =
    mac_bytes dst
    ++ (mac_bytes sender_mac
        ++ (u16_bytes 0x0806
            ++ (u16_bytes 1
                ++ (u16_bytes 0x0800
                    ++ (6
                        ∷ 4
                        ∷ (u16_bytes op
                            ++ (mac_bytes sender_mac
                                ++ (u32_bytes sender
                                    ++ (mac_bytes target_mac ++ u32_bytes target)))))))))

pub build-image :
    (buf : List ℕ) (dst op sender_mac sender target_mac target : ℕ)
    → 42 ≤ length buf
    → build buf dst op sender_mac sender target_mac target
      ≡ (image dst op sender_mac sender target_mac target ++ drop 42 buf, some 42)
unfolding build write_ethernet write_arp image writes concat
build-image buf dst op sm s tm t room =
    let f : List ℕ = write_ethernet buf dst sm in
    let len : length f ≡ length buf =
      length-splice (splice (splice buf 0 (mac_bytes dst)) 6 (mac_bytes sm)) 12 (u16_bytes 0x0806)
      ∙ length-splice (splice buf 0 (mac_bytes dst)) 6 (mac_bytes sm)
      ∙ length-splice buf 0 (mac_bytes dst) in
    let fits : has_bytes buf 0 14 ≡ true = ground arith in
    let fits' : has_bytes f 14 28 ≡ true = ground (arith, len) in
    let whole = writes-concat buf 0 (
      mac_bytes dst
      ∷ mac_bytes sm
      ∷ u16_bytes 0x0806
      ∷ u16_bytes 1
      ∷ u16_bytes 0x0800
      ∷ (6 ∷ [])
      ∷ (4 ∷ [])
      ∷ u16_bytes op
      ∷ mac_bytes sm
      ∷ u32_bytes s
      ∷ mac_bytes tm
      ∷ u32_bytes t
      ∷ []) in
    rw (fits, fits')
      (ap (λ b. (b, some 42)) (whole ∙ splice-append buf (image dst op sm s tm t) room))
