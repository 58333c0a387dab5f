-- ===== src/DhcpClient/Sent.antt =====
-- src/router/dhcp.rs: the frames that the client sends.
use mathlib.Core.Option
use userspace_router.Base.{
  ℕ, zero, suc, ◌∙◌, ◌+◌, ◌≤◌, ◌<◌, ◌≡◌, refl, true, Option, none, some, List, [], ◌∷◌, ◌++◌,
  length, length-append, replicate, arith,
}
use userspace_router.Wire.{u16_bytes, u32_bytes}
use userspace_router.Arp.{mac_bytes}
use userspace_router.Checksum.Sum.{AreBytes}
use userspace_router.Options.{be_bytes, get, find, writer, option, ipv4, end}
use userspace_router.Options.RoundTrip.{AreOptions, encode, get-encode}
use userspace_router.View.Message.{dhcp}
use userspace_router.Frame.{frame_len}
use userspace_router.Frame.Built.{Fits, IsBuilt, udp_view, build_udp_ipv4-IsBuilt}
use userspace_router.Frame.Dhcp.{message, dhcp-build_udp_ipv4}
use userspace_router.Dhcp.Message.{
  MessageType, discover, offer, request, decline, ack, nak, release, inform, to_u8,
}
use userspace_router.Dhcp.Payload.{message_type, message_type_lem, from_u8-to_u8, is_option}
use userspace_router.DhcpClient.{
  DhcpClient, client_header, client_udp, client_options, write_request, write_if, build,
}

-- The result `r` of a poll, the buffer and the length of the frame in it, is a frame from the client
-- to the broadcast addresses that holds a DHCP message of type `kind`, with the client's header, and
-- with these values as its options 50, the requested address, and 54, the server.
pub record IsSent (c : DhcpClient) (kind : MessageType) (address server : Option ℕ)
    (r : List ℕ × Option ℕ) : Type 0 where
  pub options : List ℕ
  pub size : r.1 ≡ some (frame_len (length (client_header c.mac c.xid ++ options)))
  pub built : IsBuilt (client_udp c.mac) (client_header c.mac c.xid ++ options) r.0
  pub is_dhcp :
      dhcp r.0 (udp_view (length (client_header c.mac c.xid ++ options)))
      ≡ some (message (length (client_header c.mac c.xid ++ options)))
  pub kind_read : message_type options ≡ some kind
  pub address_read : get options 50 ≡ Option.map be_bytes address
  pub server_read : get options 54 ≡ Option.map be_bytes server

if_some : ℕ → Option ℕ → List (ℕ × List ℕ)
if_some code none = []
if_some code (some a) = (code, be_bytes a) ∷ []

-- The options of a message of the client, in order.
options_of : MessageType → Option ℕ → Option ℕ → List (ℕ × List ℕ)
unfolding if_some
options_of kind address server =
    (53, to_u8 kind ∷ [])
    ∷ (if_some 50 address ++ (if_some 54 server ++ (55, 1 ∷ 3 ∷ 6 ∷ 51 ∷ []) ∷ []))

abbrev bytes_of : MessageType → Option ℕ → Option ℕ → List ℕ
bytes_of kind address server = encode (options_of kind address server) ++ 255 ∷ []

AreBytes-both : (xs ys : List ℕ) → AreBytes xs → AreBytes ys → AreBytes (xs ++ ys)
AreBytes-both [] ys a b = b
AreBytes-both (x ∷ xs) ys (p, a) b = (p, AreBytes-both xs ys a b)

AreBytes-zeros : (n : ℕ) (ys : List ℕ) → AreBytes ys → AreBytes (replicate n 0 ++ ys)
AreBytes-zeros zero ys b = b
AreBytes-zeros (suc n) ys b = (omega arith, AreBytes-zeros n ys b)

-- Four bytes below 256, whatever the number.
AreBytes-be_bytes : (a : ℕ) (ys : List ℕ) → AreBytes ys → AreBytes (be_bytes a ++ ys)
AreBytes-be_bytes a ys b = (omega arith, (omega arith, (omega arith, (omega arith, b))))

client_header-AreBytes : (mac xid : ℕ) → AreBytes (client_header mac xid)
unfolding client_header
client_header-AreBytes mac xid =
    let last : List ℕ = replicate (10 + 64 + 128) 0 ++ u32_bytes 0x63825363 in
    let address : List ℕ = replicate 16 0 ++ (mac_bytes mac ++ last) in
    let flags : List ℕ = 0 ∷ 0 ∷ u16_bytes 0x8000 in
    AreBytes-both (1 ∷ 1 ∷ 6 ∷ 0 ∷ u32_bytes xid) (flags ++ address) (omega arith) (
      AreBytes-both flags address (omega arith) (
        AreBytes-zeros 16 (mac_bytes mac ++ last) (
          AreBytes-both (mac_bytes mac) last (omega arith)
            (AreBytes-zeros (10 + 64 + 128) (u32_bytes 0x63825363) (omega arith)))))

length-client_header : (mac xid : ℕ) → length (client_header mac xid) ≡ 240
unfolding client_header
length-client_header mac xid = refl

if_some-AreBytes :
    (code : ℕ) (o : Option ℕ) (os : List (ℕ × List ℕ))
    → code < 256
    → AreBytes (encode os)
    → AreBytes (encode (if_some code o ++ os))
unfolding if_some encode
if_some-AreBytes code none os h b = b
if_some-AreBytes code (some a) os h b = (h, (omega arith, AreBytes-be_bytes a _ b))

if_some-AreOptions :
    (code : ℕ) (o : Option ℕ) (os : List (ℕ × List ℕ))
    → 1 ≤ code
    → code ≤ 254
    → AreOptions os
    → AreOptions (if_some code o ++ os)
unfolding if_some
if_some-AreOptions code none os lo hi b = b
if_some-AreOptions code (some a) os lo hi b = (is_option code (be_bytes a) lo hi (omega arith), b)

to_u8-le : (k : MessageType) → to_u8 k ≤ 8
unfolding to_u8
to_u8-le discover = omega arith
to_u8-le offer = omega arith
to_u8-le request = omega arith
to_u8-le decline = omega arith
to_u8-le ack = omega arith
to_u8-le nak = omega arith
to_u8-le release = omega arith
to_u8-le inform = omega arith

module _ (kind : MessageType) (address server : Option ℕ) where
  bytes_of-AreBytes : AreBytes (bytes_of kind address server)
  unfolding options_of encode
  bytes_of-AreBytes =
      AreBytes-both (encode (options_of kind address server)) (255 ∷ [])
        (
          omega arith,
          (
            omega arith,
            (
              omega (arith, to_u8-le kind),
              if_some-AreBytes 50 address _ (omega arith)
                  (if_some-AreBytes 54 server _ (omega arith) (omega arith)),
            ),
          ),
        )
        (omega arith, tt)

  options_of-AreOptions : AreOptions (options_of kind address server)
  unfolding options_of
  options_of-AreOptions = (
    is_option 53 (to_u8 kind ∷ []) (omega arith) (omega arith) (omega arith),
    if_some-AreOptions 50 address _ (omega arith) (omega arith) (
        if_some-AreOptions 54 server _ (omega arith) (omega arith)
          (is_option 55 (1 ∷ 3 ∷ 6 ∷ 51 ∷ []) (omega arith) (omega arith) (omega arith), tt)),
  )

  bytes_of-le : length (bytes_of kind address server) ≤ 22
  unfolding options_of encode if_some
  bytes_of-le = go address server
    where
      go : (a s : Option ℕ) → length (bytes_of kind a s) ≤ 22
      go none none = omega arith
      go none (some s) = omega arith
      go (some a) none = omega arith
      go (some a) (some s) = omega arith

  find-options_of :
      (find 53 (options_of kind address server) ≡ some (to_u8 kind ∷ []))
      × (find 50 (options_of kind address server) ≡ Option.map be_bytes address)
      × (find 54 (options_of kind address server) ≡ Option.map be_bytes server)
  unfolding options_of if_some find
  find-options_of = go address server
    where
      go :
          (a s : Option ℕ)
          → (find 53 (options_of kind a s) ≡ some (to_u8 kind ∷ []))
            × (find 50 (options_of kind a s) ≡ Option.map be_bytes a)
            × (find 54 (options_of kind a s) ≡ Option.map be_bytes s)
      go none none = (refl, refl, refl)
      go none (some s) = (refl, refl, refl)
      go (some a) none = (refl, refl, refl)
      go (some a) (some s) = (refl, refl, refl)

-- A client that writes these options, to a buffer with room for them, sends the message.
build-IsSent :
    (c : DhcpClient) (kind : MessageType) (address server : Option ℕ) (out : List ℕ)
    → client_options c kind
      ≡ (record { capacity = 272; written = bytes_of kind address server }, true)
    → frame_len (240 + length (bytes_of kind address server)) ≤ length out
    → IsSent c kind address server (build c kind out)
unfolding build client_udp
build-IsSent c kind address server out written room =
    let bytes : List ℕ = bytes_of kind address server in
    let header : List ℕ = client_header c.mac c.xid in
    let len : length (header ++ bytes) ≡ 240 + length bytes =
      omega (arith, length-append header bytes, length-client_header c.mac c.xid) in
    let fits : Fits (client_udp c.mac) (header ++ bytes) = record {
      src_ip_fits = omega arith;
      dst_ip_fits = omega arith;
      src_port_fits = omega arith;
      dst_port_fits = omega arith;
      ttl_fits = omega arith;
      total_fits = omega (arith, len, bytes_of-le kind address server);
      body_fits =
          AreBytes-both header bytes (client_header-AreBytes c.mac c.xid)
            (bytes_of-AreBytes kind address server);
    } in
    let space : frame_len (length (header ++ bytes)) ≤ length out = omega (arith, len) in
    let sent = (build_udp_ipv4-IsBuilt out (client_udp c.mac) (header ++ bytes) fits).0 space in
    let seen =
      dhcp-build_udp_ipv4 out (client_udp c.mac) (header ++ bytes) fits space (omega (arith, len))
        refl in
    let found : (code : ℕ) → get bytes code ≡ find code (options_of kind address server) = λ code.
      get-encode (options_of kind address server) [] code
        (options_of-AreOptions kind address server) in
    let (typed, asked, server_found) = find-options_of kind address server in
    rw written (record {
      options = bytes;
      size = sent.0;
      built = sent.1;
      is_dhcp = seen.0;
      kind_read = message_type_lem bytes (to_u8 kind) (found 53 ∙ typed) ∙ from_u8-to_u8 kind;
      address_read = found 50 ∙ asked;
      server_read = found 54 ∙ server_found;
    })

-- A DISCOVER names no address and no server.
pub build-discover :
    (c : DhcpClient) (out : List ℕ)
    → 292 ≤ length out
    → IsSent c discover none none (build c discover out)
unfolding client_options option writer end write_request encode options_of if_some to_u8
build-discover c out h = build-IsSent c discover none none out refl (omega (arith, h))

-- A REQUEST names the address and the server that the client keeps.
pub build-request :
    (c : DhcpClient) (out : List ℕ) (address server : Option ℕ)
    → c.offered_ip ≡ address
    → c.server_id ≡ server
    → 304 ≤ length out
    → IsSent c request address server (build c request out)
unfolding client_options option writer end write_request write_if ipv4 encode options_of if_some
    to_u8
build-request c out address server e q h =
    build-IsSent c request address server out (go address server e q)
      (omega (arith, h, bytes_of-le request address server))
  where
    go :
        (a s : Option ℕ)
        → c.offered_ip ≡ a
        → c.server_id ≡ s
        → client_options c request
          ≡ (record { capacity = 272; written = bytes_of request a s }, true)
    go none none e q = rw (e, q) refl
    go none (some s) e q = rw (e, q) refl
    go (some a) none e q = rw (e, q) refl
    go (some a) (some s) e q = rw (e, q) refl
