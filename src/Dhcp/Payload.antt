-- ===== src/Dhcp/Payload.antt =====
-- src/router/dhcp.rs: the options of a reply, as `DhcpServer::build_payload` writes them behind the
-- 240 bytes of the header in its buffer of 512 bytes.
use mathlib.Core.Option
use userspace_router.Base.{
  ℕ, ◌+◌, ◌*◌, ◌^◌, ◌≤◌, ◌<◌, ◌≡◌, refl, ◌∙◌, Bool, true, false, Option, none, some, List, [], ◌∷◌,
  ◌++◌, if◌then◌else◌, ltb, length, length-append, is_nil, arith,
}
use userspace_router.Options.{
  OptionsWriter, writer, option, ipv4, seconds, ipv4_list, octets, end, get, server_id, subnet_mask,
  lease_time, be_bytes, from_be_bytes, find,
}
use userspace_router.Options.RoundTrip.{
  IsOption, append_nil, encode, AreOptions, get-encode, from_be_bytes-be_bytes,
}
use userspace_router.Dhcp.{DhcpServerConfig, is_nak}
use userspace_router.Dhcp.Message.{
  MessageType, discover, offer, request, decline, ack, nak, release, inform, to_u8, from_u8,
}

-- `&&` on writer calls: the next one runs if the option before it fits.
abbrev pub and_then :
    OptionsWriter × Bool → (OptionsWriter → OptionsWriter × Bool) → OptionsWriter × Bool
and_then (w, true) f = f w
and_then (w, false) f = (w, false)

write_dns : DhcpServerConfig → OptionsWriter → OptionsWriter × Bool
write_dns cfg w = if is_nil cfg.dns then (w, true) else ipv4_list w 6 cfg.dns

-- What every reply but a NAK has.
write_parameters : DhcpServerConfig → OptionsWriter → OptionsWriter × Bool
unfolding write_dns
write_parameters cfg w = and_then (seconds w 51 cfg.lease_secs) (λ w.
    and_then (ipv4 w 1 cfg.subnet_mask) (λ w. and_then (ipv4 w 3 cfg.gateway) (write_dns cfg)))

write_options : DhcpServerConfig → MessageType → OptionsWriter → OptionsWriter × Bool
unfolding write_parameters
write_options cfg kind w = and_then (option w 53 (to_u8 kind ∷ [])) (λ w.
    and_then (ipv4 w 54 cfg.server_ip)
      (λ w. and_then (if is_nak kind then (w, true) else write_parameters cfg w) end))

-- The options region of a reply; `none` where an option does not fit.
pub reply_options : DhcpServerConfig → MessageType → Option (List ℕ)
unfolding write_options
reply_options cfg kind =
    let (w, ok) = write_options cfg kind (writer 272) in if ok then some w.written else none

-- `Options::message_type`
pub message_type : List ℕ → Option MessageType
message_type bytes = elim (get bytes 53) [ none ↦ none | some [] ↦ none | some (v ∷ _) ↦ from_u8 v ]

dns_options : List ℕ → List (ℕ × List ℕ)
dns_options [] = []
dns_options (a ∷ as') = (6, octets (a ∷ as')) ∷ []

-- The options that a reply has, in order.
options_of : DhcpServerConfig → Bool → MessageType → List (ℕ × List ℕ)
options_of cfg true kind = (53, to_u8 kind ∷ []) ∷ (54, be_bytes cfg.server_ip) ∷ []
options_of cfg false kind =
    (53, to_u8 kind ∷ [])
    ∷ (54, be_bytes cfg.server_ip)
    ∷ (51, be_bytes cfg.lease_secs)
    ∷ (1, be_bytes cfg.subnet_mask)
    ∷ (3, be_bytes cfg.gateway)
    ∷ dns_options cfg.dns

length-octets : (as' : List ℕ) → length (octets as') ≡ length as' * 4
unfolding octets
length-octets [] = refl
length-octets (a ∷ as') = omega (arith, length-append (be_bytes a) (octets as'), length-octets as')

end_fits :
    (bytes : List ℕ)
    → length bytes + 1 ≤ 272
    → end (record { capacity = 272; written = bytes })
      ≡ (record { capacity = 272; written = bytes ++ 255 ∷ [] }, true)
unfolding end
end_fits bytes h = ground arith

-- The bytes in front of the DNS option.
abbrev fixed : DhcpServerConfig → MessageType → List ℕ
fixed cfg kind =
    53
    ∷ 1
    ∷ to_u8 kind
    ∷ 54
    ∷ 4
    ∷ (be_bytes cfg.server_ip
        ++ 51
          ∷ 4
          ∷ (be_bytes cfg.lease_secs
              ++ 1 ∷ 4 ∷ (be_bytes cfg.subnet_mask ++ 3 ∷ 4 ∷ be_bytes cfg.gateway)))

parameters-encode :
    (cfg : DhcpServerConfig) (kind : MessageType) (dns : List ℕ)
    → is_nak kind ≡ false
    → cfg.dns ≡ dns
    → length dns ≤ 60
    → reply_options cfg kind ≡ some (encode (options_of cfg false kind) ++ 255 ∷ [])
unfolding reply_options write_options write_parameters write_dns writer option ipv4 seconds
    ipv4_list encode options_of dns_options end
parameters-encode cfg kind [] isnt e h = rw (isnt, e) refl
parameters-encode cfg kind (a ∷ as') isnt e h =
    let short : ltb 255 (length (a ∷ as') * 4) ≡ false = ground arith in
    let room : ltb 272 (29 + length (a ∷ as') * 4) ≡ false = ground arith in
    let bytes : List ℕ = fixed cfg kind ++ 6 ∷ length (a ∷ as') * 4 ∷ octets (a ∷ as') in
    let fits : length bytes + 1 ≤ 272 = omega (arith, length-octets (a ∷ as')) in
    rw (isnt, e, short, room, end_fits bytes fits)
      (rw (length-octets (a ∷ as'), append_nil (octets (a ∷ as'))) refl)

nak-encode :
    (cfg : DhcpServerConfig) (kind : MessageType)
    → is_nak kind ≡ true
    → reply_options cfg kind ≡ some (encode (options_of cfg true kind) ++ 255 ∷ [])
unfolding reply_options write_options writer option ipv4 end encode options_of
nak-encode cfg kind is = rw is refl

-- The numbers of the configuration are 32 bits wide.
pub record IsSmall (cfg : DhcpServerConfig) : Type 0 where
  pub server : cfg.server_ip < 2 ^ 32
  pub mask : cfg.subnet_mask < 2 ^ 32
  pub lease : cfg.lease_secs < 2 ^ 32

dns_options-AreOptions : (dns : List ℕ) → length dns ≤ 60 → AreOptions (dns_options dns)
unfolding dns_options
dns_options-AreOptions [] h = tt
dns_options-AreOptions (a ∷ as') h =
    (((λ e. omega (arith, e)), (λ e. omega (arith, e)), omega (arith, length-octets (a ∷ as'))), tt)

pub is_option :
    (code : ℕ) (value : List ℕ)
    → 1 ≤ code
    → code ≤ 254
    → length value ≤ 255
    → IsOption (code, value)
is_option code value lo hi h = ((λ e. omega arith), (λ e. omega arith), h)

options_of-AreOptions :
    (cfg : DhcpServerConfig) (b : Bool) (kind : MessageType)
    → length cfg.dns ≤ 60
    → AreOptions (options_of cfg b kind)
unfolding options_of
options_of-AreOptions cfg true kind h = (
  is_option 53 (to_u8 kind ∷ []) (omega arith) (omega arith) (omega arith),
  (is_option 54 (be_bytes cfg.server_ip) (omega arith) (omega arith) (omega arith), tt),
)
options_of-AreOptions cfg false kind h = (
  is_option 53 (to_u8 kind ∷ []) (omega arith) (omega arith) (omega arith),
  (
    is_option 54 (be_bytes cfg.server_ip) (omega arith) (omega arith) (omega arith),
    (
      is_option 51 (be_bytes cfg.lease_secs) (omega arith) (omega arith) (omega arith),
      (
        is_option 1 (be_bytes cfg.subnet_mask) (omega arith) (omega arith) (omega arith),
        (
          is_option 3 (be_bytes cfg.gateway) (omega arith) (omega arith) (omega arith),
          dns_options-AreOptions cfg.dns h,
        ),
      ),
    ),
  ),
)

pub from_u8-to_u8 : (k : MessageType) → from_u8 (to_u8 k) ≡ some k
unfolding from_u8 to_u8
from_u8-to_u8 discover = refl
from_u8-to_u8 offer = refl
from_u8-to_u8 request = refl
from_u8-to_u8 decline = refl
from_u8-to_u8 ack = refl
from_u8-to_u8 nak = refl
from_u8-to_u8 release = refl
from_u8-to_u8 inform = refl

pub message_type_lem :
    (bytes : List ℕ) (v : ℕ) → get bytes 53 ≡ some (v ∷ []) → message_type bytes ≡ from_u8 v
unfolding message_type
message_type_lem bytes v e = rw (e, message_type) refl

-- What the readers get from the lookups.
value_lem :
    (bytes : List ℕ) (code a : ℕ)
    → get bytes code ≡ some (be_bytes a)
    → a < 2 ^ 32
    → Option.bind (get bytes code) from_be_bytes ≡ some a
unfolding Option.bind
value_lem bytes code a e h = rw e (from_be_bytes-be_bytes a h)

find-dns_options :
    (dns : List ℕ) → find 6 (dns_options dns) ≡ (if is_nil dns then none else some (octets dns))
unfolding find dns_options
find-dns_options [] = refl
find-dns_options (a ∷ as') = refl

-- In the options of a reply the readers find what the server's configuration says: the type, the
-- server and, but for a NAK, lease time and mask, and the bytes of the DNS servers. The
-- configuration has 32-bit numbers and at most 60 DNS servers; then every reply fits.
pub reply_read :
    (cfg : DhcpServerConfig) (kind : MessageType)
    → IsSmall cfg
    → length cfg.dns ≤ 60
    → (bytes : List ℕ) × (reply_options cfg kind ≡ some bytes)
      × (message_type bytes ≡ some kind)
      × (server_id bytes ≡ some cfg.server_ip)
      × (is_nak kind ≡ false
          → (lease_time bytes ≡ some cfg.lease_secs)
            × (subnet_mask bytes ≡ some cfg.subnet_mask)
            × (get bytes 6 ≡ (if is_nil cfg.dns then none else some (octets cfg.dns))))
unfolding server_id lease_time subnet_mask find options_of
reply_read cfg kind small h = go (is_nak kind) refl
  where
    found :
        (b : Bool) (code : ℕ)
        → get (encode (options_of cfg b kind) ++ 255 ∷ []) code ≡ find code (options_of cfg b kind)
    found b code = get-encode (options_of cfg b kind) [] code (options_of-AreOptions cfg b kind h)

    go :
        (b : Bool)
        → is_nak kind ≡ b
        → (bytes : List ℕ) × (reply_options cfg kind ≡ some bytes)
          × (message_type bytes ≡ some kind)
          × (server_id bytes ≡ some cfg.server_ip)
          × (is_nak kind ≡ false
              → (lease_time bytes ≡ some cfg.lease_secs)
                × (subnet_mask bytes ≡ some cfg.subnet_mask)
                × (get bytes 6 ≡ (if is_nil cfg.dns then none else some (octets cfg.dns))))
    go true e = (
      encode (options_of cfg true kind) ++ 255 ∷ [],
      nak-encode cfg kind e,
      message_type_lem _ (to_u8 kind) (found true 53) ∙ from_u8-to_u8 kind,
      value_lem _ 54 cfg.server_ip (found true 54) small.server,
      (λ isnt. ground (arith, e, isnt)),
    )
    go false e = (
      encode (options_of cfg false kind) ++ 255 ∷ [],
      parameters-encode cfg kind cfg.dns e refl h,
      message_type_lem _ (to_u8 kind) (found false 53) ∙ from_u8-to_u8 kind,
      value_lem _ 54 cfg.server_ip (found false 54) small.server,
      (λ isnt. (
        value_lem _ 51 cfg.lease_secs (found false 51) small.lease,
        value_lem _ 1 cfg.subnet_mask (found false 1) small.mask,
        found false 6 ∙ find-dns_options cfg.dns,
      )),
    )
