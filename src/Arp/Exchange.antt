-- ===== src/Arp/Exchange.antt =====
-- src/net/arp.rs and src/router/arp.rs: a request, the answer of the responder, and what the asker
-- reads of it.
use userspace_router.Base.{
  ℕ, ◌^◌, ◌≤◌, ◌<◌, ◌≡◌, refl, ap, ◌∙◌, none, some, List, ◌++◌, length, drop, arith, if◌then◌else◌,
  ltb, true, false, ◌&&◌, ◌==◌,
}
use userspace_router.Wire.{byte, get_u16, has_bytes}
use userspace_router.View.{EthernetView, parse, ethernet_at, ethernet_checked}
use userspace_router.Arp.{
  oper, sha, sender_ip, tha, target_ip, is_ethernet_ipv4, arp, packet_at, build, build_request,
  build_reply, contains, answer, respond, broadcast,
}
use userspace_router.Arp.Image.{image, build-image}

-- What a receiver reads of a frame that the builders wrote.
pub record Reads (buf : List ℕ) (op sender_mac sender target_mac target : ℕ) : Type 0 where
  pub found : packet_at buf ≡ some 14
  pub well_formed : is_ethernet_ipv4 buf 14 ≡ true
  pub op_read : oper buf 14 ≡ op
  pub sha_read : sha buf 14 ≡ sender_mac
  pub sender_read : sender_ip buf 14 ≡ sender
  pub tha_read : tha buf 14 ≡ target_mac
  pub target_read : target_ip buf 14 ≡ target

abbrev eth_view : EthernetView
eth_view = record { start = 0; ethertype = 0x0806; l3_start = 14 }

parse_arp : (buf : List ℕ) → 42 ≤ length buf → get_u16 buf 12 ≡ 0x0806 → parse buf ≡ some eth_view
unfolding parse ethernet_at ethernet_checked
parse_arp buf room ty =
    let fits : has_bytes buf 0 14 ≡ true = ground arith in
    let enough : ltb (length buf) 14 ≡ false = ground arith in rw (fits, ty, enough) refl

arp_found : (buf : List ℕ) → 42 ≤ length buf → get_u16 buf 12 ≡ 0x0806 → packet_at buf ≡ some 14
unfolding arp packet_at
arp_found buf room ty =
    let fits : has_bytes buf 14 28 ≡ true = ground arith in rw (parse_arp buf room ty, fits) refl

pub image-Reads :
    (rest : List ℕ) (dst op sender_mac sender target_mac target : ℕ)
    → op < 2 ^ 16
    → sender_mac < 2 ^ 48
    → sender < 2 ^ 32
    → target_mac < 2 ^ 48
    → target < 2 ^ 32
    → Reads
        (image dst op sender_mac sender target_mac target ++ rest)
        op
        sender_mac
        sender
        target_mac
        target
unfolding image parse ethernet_at ethernet_checked arp byte is_ethernet_ipv4
image-Reads rest dst op sm s tm t hop hsm hs htm ht = record {
  found = arp_found (image dst op sm s tm t ++ rest) (omega arith) refl;
  well_formed = refl;
  op_read = omega arith;
  sha_read = omega arith;
  sender_read = omega arith;
  tha_read = omega arith;
  target_read = omega arith;
}

-- A frame that a builder has written into a buffer with room for it.
build-Reads :
    (buf : List ℕ) (dst op sender_mac sender target_mac target : ℕ)
    → 42 ≤ length buf
    → op < 2 ^ 16
    → sender_mac < 2 ^ 48
    → sender < 2 ^ 32
    → target_mac < 2 ^ 48
    → target < 2 ^ 32
    → Reads
        (build buf dst op sender_mac sender target_mac target).0
        op
        sender_mac
        sender
        target_mac
        target
build-Reads buf dst op sm s tm t room hop hsm hs htm ht =
    rw (build-image buf dst op sm s tm t room)
      (image-Reads (drop 42 buf) dst op sm s tm t hop hsm hs htm ht)

-- A packet that asks for an owned address.
respond-Reads :
    (our_mac : ℕ) (owned frame out : List ℕ) (op sender_mac sender target_mac target : ℕ)
    → Reads frame op sender_mac sender target_mac target
    → respond our_mac owned frame out ≡ (
        if op == 1 && contains owned target
        then build_reply out our_mac target sender_mac sender
        else (out, none))
unfolding respond answer
respond-Reads our_mac owned frame out op sm s tm t r =
    rw (r.found, respond, r.op_read, r.target_read, r.sha_read, r.sender_read) refl

-- The responder answers a request that `build_request` wrote into a buffer with room for it, if it
-- asks for an owned address: the answer, in an output buffer with room, is read as a well-formed
-- reply with the responder's MAC address for the address asked for, to the asker. A request for
-- another address leaves the output buffer as it is, and so does a reply.
pub respond-build_request :
    (buf out owned : List ℕ) (our_mac peer_mac peer_ip target : ℕ)
    → 42 ≤ length buf
    → 42 ≤ length out
    → our_mac < 2 ^ 48
    → peer_mac < 2 ^ 48
    → peer_ip < 2 ^ 32
    → target < 2 ^ 32
    → (contains owned target ≡ true
        → ((respond our_mac owned (build_request buf peer_mac peer_ip target).0 out).1 ≡ some 42)
          × Reads
              (respond our_mac owned (build_request buf peer_mac peer_ip target).0 out).0
              2
              our_mac
              target
              peer_mac
              peer_ip)
      × (contains owned target ≡ false
          → respond our_mac owned (build_request buf peer_mac peer_ip target).0 out ≡ (out, none))
      × (respond our_mac owned (build_reply buf peer_mac peer_ip our_mac target).0 out
          ≡ (out, none))
respond-build_request buf out owned our_mac peer_mac peer_ip target room room' ho hp hi ht =
    let asked =
      build-Reads buf broadcast 1 peer_mac peer_ip 0 target room (omega arith) hp hi (omega arith)
        ht in
    let told =
      build-Reads buf our_mac 2 peer_mac peer_ip our_mac target room (omega arith) hp hi ho ht in
    let r =
      respond-Reads our_mac owned (build_request buf peer_mac peer_ip target).0 out 1 peer_mac
        peer_ip 0 target asked in
    (
      (λ owns.
          let e = r ∙ rw owns refl in
          let answer_read =
            build-Reads out peer_mac 2 our_mac target peer_mac peer_ip room' (omega arith) ho ht hp
              hi in
          (
            ap (λ z. z.1) e
                ∙ ap (λ z. z.1) (build-image out peer_mac 2 our_mac target peer_mac peer_ip room'),
            rw e answer_read,
          )),
      (λ other. r ∙ rw other refl),
      respond-Reads our_mac owned (build_reply buf peer_mac peer_ip our_mac target).0 out 2 peer_mac
          peer_ip our_mac target told,
    )
