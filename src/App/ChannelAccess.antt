-- ===== src/App/ChannelAccess.antt =====
-- ipmi-rs-core/src/app/get_channel_access.rs: reading and setting the access to a channel.
pub mod Stored
use ipmi_rs.Base.{
  ℕ, ◌*◌, Bool, true, false, ◌&&◌, not, List, [], ◌∷◌, Option, none, some, Result, ok, err, ◌==◌,
  ltb, if◌then◌else◌, bit_and, bit_or, length, get_or,
}
use ipmi_rs.Connection.Channel.{Channel, channel_value}
use ipmi_rs.App.User.{UserPrivilege, privilege_value}

pub data ChannelAccessType : Type 0 where
  non_volatile volatile : ChannelAccessType

-- `write_bits`; the byte of a Get Channel Access request is the same.
unfoldable pub write_bits : ChannelAccessType → ℕ
write_bits non_volatile = 0x40
write_bits volatile = 0x80

-- What `GetChannelAccess` sends.
unfoldable pub get_access_request : Channel → ChannelAccessType → List ℕ
unfolding channel_value write_bits
get_access_request channel t = bit_and (channel_value channel) 0x0f ∷ write_bits t ∷ []

pub data SetChannelAccessMode : Type 0 where
  set_disabled set_pre_boot_only set_always_available set_shared : SetChannelAccessMode

unfoldable pub mode_value : SetChannelAccessMode → ℕ
mode_value set_disabled = 0
mode_value set_pre_boot_only = 1
mode_value set_always_available = 2
mode_value set_shared = 3

pub record ChannelAccessSettings : Type 0 where
  pub mode : SetChannelAccessMode
  pub alerting_disabled : Bool
  pub per_msg_auth_disabled : Bool
  pub user_level_auth_disabled : Bool

pub data SetChannelAccessError : Type 0 where
  no_changes : SetChannelAccessError
  response_length : ℕ → SetChannelAccessError

pub record SetChannelAccess : Type 0 where
  pub channel : Channel
  pub access : Option (ChannelAccessType × ChannelAccessSettings)
  pub privilege : Option (ChannelAccessType × UserPrivilege)

unfoldable pub set_access_new :
    Channel
    → Option (ChannelAccessType × ChannelAccessSettings)
    → Option (ChannelAccessType × UserPrivilege)
    → Result SetChannelAccessError SetChannelAccess
set_access_new channel none none = err no_changes
set_access_new channel access privilege =
    ok (record { channel = channel; access = access; privilege = privilege })

-- `u8::from`.
abbrev pub bit : Bool → ℕ
bit false = 0
bit true = 1

unfoldable pub settings_bits : ChannelAccessSettings → ℕ
unfolding mode_value
settings_bits s =
    bit_or
      (bit_or (bit_or (bit s.alerting_disabled * 32) (bit s.per_msg_auth_disabled * 16))
        (bit s.user_level_auth_disabled * 8))
      (mode_value s.mode)

unfoldable pub access_byte : Option (ChannelAccessType × ChannelAccessSettings) → ℕ
unfolding write_bits settings_bits
access_byte none = 0
access_byte (some (t, s)) = bit_or (write_bits t) (settings_bits s)

unfoldable pub privilege_byte : Option (ChannelAccessType × UserPrivilege) → ℕ
unfolding write_bits
privilege_byte none = 0
privilege_byte (some (t, limit)) = bit_or (write_bits t) (privilege_value limit)

-- What `SetChannelAccess` sends.
unfoldable pub set_access_request : SetChannelAccess → List ℕ
unfolding channel_value access_byte privilege_byte
set_access_request cmd =
    channel_value cmd.channel ∷ access_byte cmd.access ∷ privilege_byte cmd.privilege ∷ []

unfoldable pub parse_access_set : List ℕ → Result SetChannelAccessError (Unit {0})
parse_access_set [] = ok tt
parse_access_set (b ∷ bs) = err (response_length (length (b ∷ bs)))

pub data ChannelAccessMode : Type 0 where
  disabled pre_boot_only always_available shared : ChannelAccessMode
  unknown_mode : ℕ → ChannelAccessMode

unfoldable pub mode_of_u8 : ℕ → ChannelAccessMode
mode_of_u8 v =
    if v == 0
    then disabled
    else if v == 1
    then pre_boot_only
    else if v == 2
    then always_available
    else if v == 3
    then shared
    else unknown_mode v

pub data ChannelPrivilegeLevel : Type 0 where
  reserved limit_callback limit_user limit_operator limit_administrator limit_oem limit_no_access :
      ChannelPrivilegeLevel
  unknown_level : ℕ → ChannelPrivilegeLevel

unfoldable pub level_of_u8 : ℕ → ChannelPrivilegeLevel
level_of_u8 v =
    if v == 0
    then reserved
    else if v == 1
    then limit_callback
    else if v == 2
    then limit_user
    else if v == 3
    then limit_operator
    else if v == 4
    then limit_administrator
    else if v == 5
    then limit_oem
    else if v == 0xf
    then limit_no_access
    else unknown_level v

pub record ChannelAccess : Type 0 where
  pub access_mode : ChannelAccessMode
  pub alerting_disabled : Bool
  pub per_msg_auth_disabled : Bool
  pub user_level_auth_disabled : Bool
  pub privilege_level_limit : ChannelPrivilegeLevel

unfoldable pub parse_channel_access : List ℕ → Option ChannelAccess
unfolding mode_of_u8 level_of_u8
parse_channel_access bytes =
    if ltb (length bytes) 2
    then none
    else some (record {
      access_mode = mode_of_u8 (bit_and (get_or bytes 0 0) 7);
      alerting_disabled = bit_and (get_or bytes 0 0) 0x20 == 0x20;
      per_msg_auth_disabled = bit_and (get_or bytes 0 0) 0x10 == 0x10;
      user_level_auth_disabled = bit_and (get_or bytes 0 0) 8 == 8;
      privilege_level_limit = level_of_u8 (bit_and (get_or bytes 1 0) 0x0f);
    })

unfoldable pub is_disabled : ChannelAccess → Bool
is_disabled a = elim a.access_mode [ disabled ↦ true | _ ↦ false ]
