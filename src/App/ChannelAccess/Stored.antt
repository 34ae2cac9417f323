-- ===== src/App/ChannelAccess/Stored.antt =====
-- What is set of a channel's access is what is read of it.
use ipmi_rs.Base.{◌≡◌, refl, [], ◌∷◌, some, ok, ok_cancel, ◌==◌, bit_and, get_or, arith}
use ipmi_rs.Connection.Channel.{Channel}
use ipmi_rs.App.User.{UserPrivilege, callback, user, operator, administrator, oem, no_access}
use ipmi_rs.App.ChannelAccess.{
  ChannelAccessType, SetChannelAccessMode, set_disabled, set_pre_boot_only, set_always_available,
  set_shared, ChannelAccessSettings, access_byte, privilege_byte, set_access_request,
  ChannelAccessMode, disabled, pre_boot_only, always_available, shared, mode_of_u8,
  ChannelPrivilegeLevel, limit_callback, limit_user, limit_operator, limit_administrator, limit_oem,
  limit_no_access, level_of_u8, ChannelAccess, parse_channel_access, SetChannelAccess,
  set_access_new,
}

-- The modes and limits that are read for those that are set.
pub mode_read : SetChannelAccessMode → ChannelAccessMode
mode_read set_disabled = disabled
mode_read set_pre_boot_only = pre_boot_only
mode_read set_always_available = always_available
mode_read set_shared = shared

pub limit_read : UserPrivilege → ChannelPrivilegeLevel
limit_read callback = limit_callback
limit_read user = limit_user
limit_read operator = limit_operator
limit_read administrator = limit_administrator
limit_read oem = limit_oem
limit_read no_access = limit_no_access

abbrev pub stored : ChannelAccessSettings → UserPrivilege → ChannelAccess
unfolding mode_read limit_read
stored s limit = record {
  access_mode = mode_read s.mode;
  alerting_disabled = s.alerting_disabled;
  per_msg_auth_disabled = s.per_msg_auth_disabled;
  user_level_auth_disabled = s.user_level_auth_disabled;
  privilege_level_limit = limit_read limit;
}

record Bits (t : ChannelAccessType) (s : ChannelAccessSettings) : Type 0 where
  mode : mode_of_u8 (bit_and (bit_and (access_byte (some (t, s))) 0x3f) 7) ≡ mode_read s.mode
  alerting : (bit_and (bit_and (access_byte (some (t, s))) 0x3f) 0x20 == 0x20) ≡ s.alerting_disabled
  message :
      (bit_and (bit_and (access_byte (some (t, s))) 0x3f) 0x10 == 0x10) ≡ s.per_msg_auth_disabled
  level : (bit_and (bit_and (access_byte (some (t, s))) 0x3f) 8 == 8) ≡ s.user_level_auth_disabled

access_byte-Bits : (t : ChannelAccessType) (s : ChannelAccessSettings) → Bits t s
unfolding access_byte mode_of_u8 mode_read
access_byte-Bits t s = record {
  mode = ground arith;
  alerting = ground arith;
  message = ground arith;
  level = ground arith;
}

privilege_byte-limit :
    (t : ChannelAccessType) (limit : UserPrivilege)
    → level_of_u8 (bit_and (bit_and (privilege_byte (some (t, limit))) 0x0f) 0x0f)
      ≡ limit_read limit
unfolding privilege_byte level_of_u8 limit_read
privilege_byte-limit t limit = ground arith

-- The flags and the limit that a request sets, stored in the low six and the low four bits of the two
-- bytes of an answer, are read as they were set, whichever of the two settings each goes to.
parse_channel_access-set_access_request :
    (channel : Channel) (t u : ChannelAccessType) (s : ChannelAccessSettings)
    (limit : UserPrivilege) (cmd : SetChannelAccess)
    → set_access_new channel (some (t, s)) (some (u, limit)) ≡ ok cmd
    → parse_channel_access (
        bit_and (get_or (set_access_request cmd) 1 0) 0x3f
        ∷ bit_and (get_or (set_access_request cmd) 2 0) 0x0f
        ∷ [])
      ≡ some (stored s limit)
unfolding parse_channel_access set_access_new set_access_request stored
parse_channel_access-set_access_request channel t u s limit cmd h =
    let b = access_byte-Bits t s in
    let made : cmd
        ≡ record { channel = channel; access = some (t, s); privilege = some (u, limit) } =
      ok_cancel h refl in
    rw (made, b.mode, b.alerting, b.message, b.level, privilege_byte-limit u limit)
