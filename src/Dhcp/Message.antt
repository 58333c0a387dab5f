-- ===== src/Dhcp/Message.antt =====
-- src/net/dhcp.rs: what the server and the client read from a DHCP message.
use userspace_router.Base.{ℕ, Bool, Option, none, some, if◌then◌else◌, ◌==◌}

pub data MessageType : Type 0 where
  discover offer request decline ack nak release inform : MessageType

-- A byte without a type is `none`.
unfoldable pub from_u8 : ℕ → Option MessageType
from_u8 v =
    if v == 1
    then some discover
    else (if v == 2
        then some offer
        else (if v == 3
            then some request
            else (if v == 4
                then some decline
                else (if v == 5
                    then some ack
                    else (if v == 6
                        then some nak
                        else (if v == 7
                            then some release
                            else (if v == 8 then some inform else none)))))))

unfoldable pub to_u8 : MessageType → ℕ
to_u8 discover = 1
to_u8 offer = 2
to_u8 request = 3
to_u8 decline = 4
to_u8 ack = 5
to_u8 nak = 6
to_u8 release = 7
to_u8 inform = 8

-- The fields of a message that the handlers look at, as the accessors of `DhcpView` give them.
pub record DhcpView : Type 0 where
  pub xid : ℕ
  pub chaddr : ℕ
  pub broadcast : Bool
  pub ciaddr : ℕ
  pub yiaddr : ℕ
  pub kind : Option MessageType
  pub server_id : Option ℕ
  pub requested_ip : Option ℕ
  pub subnet_mask : Option ℕ
  pub first_router : Option ℕ
  pub lease_time : Option ℕ
