-- ===== src/Rmcp/V1_5/Commands.antt =====
-- The commands of an activation: get_channel_authentication_capabilities.rs, get_session_challenge.rs,
-- activate_session.rs and GetChannelCipherSuites of ipmi-rs-core/src/app/auth.
use ipmi_rs.Base.{
  ℕ, ◌-◌, Bool, false, not, ◌||◌, List, [], ◌∷◌, ◌++◌, Option, none, some, Result, ok, ◌>>=◌, ◌>>◌,
  reject_if, ok_or, ◌==◌, ◌!=◌, ltb, if◌then◌else◌, bit_and, bit_or, length, get_or, take, drop,
  replicate, u32_le, of_le4,
}
use ipmi_rs.Connection.Channel.{Channel, channel_value}
use ipmi_rs.Rmcp.V1_5.Auth.{
  AuthType, auth_none, md2_auth, md5_auth, key, auth_type_of_u8, auth_type_code,
}
use ipmi_rs.Rmcp.V2_0.Algorithms.{PrivilegeLevel, privilege_code, privilege_of_u8}

pub data AuthError : Type 0 where
  not_enough_data invalid_zero_session : AuthError
  invalid_auth_type invalid_privilege_level : ℕ → AuthError

pub record AuthenticationCapabilities : Type 0 where
  pub channel_number : ℕ
  pub oem_proprietary : Bool
  pub with_key : Bool
  pub with_md5 : Bool
  pub with_md2 : Bool
  pub with_none : Bool
  pub kg_status : Bool
  pub per_message_authentication_enabled : Bool
  pub user_level_authentication_enabled : Bool
  pub non_null_usernames_enabled : Bool
  pub null_usernames_enabled : Bool
  pub anonymous_login_enabled : Bool
  pub ipmi2_connections_supported : Bool
  pub ipmi15_connections_supported : Bool
  pub oem_id : List ℕ
  pub oem_auxiliary_data : ℕ

unfoldable pub best_auth : AuthenticationCapabilities → Option AuthType
best_auth c =
    if c.with_md5
    then some md5_auth
    else if c.with_md2
    then some md2_auth
    else if c.with_key
    then some key
    else if c.with_none
    then some auth_none
    else none

-- `(byte & mask) == mask`.
abbrev pub has : ℕ → ℕ → Bool
has byte mask = bit_and byte mask == mask

unfoldable pub capabilities_request : Channel → PrivilegeLevel → List ℕ
unfolding channel_value
capabilities_request channel level = bit_or 0x80 (channel_value channel) ∷ privilege_code level ∷ []

-- Without the extended capabilities, neither version is taken as supported.
unfoldable pub parse_capabilities : List ℕ → Result AuthError AuthenticationCapabilities
parse_capabilities bytes = do
  reject_if (ltb (length bytes) 7) not_enough_data
  let methods = get_or bytes 1 0
  let logins = get_or bytes 2 0
  let extended = has methods 0x80
  reject_if (if extended then ltb (length bytes) 8 else false) not_enough_data
  ok (record {
    channel_number = get_or bytes 0 0;
    oem_proprietary = has methods 0x20;
    with_key = has methods 0x10;
    with_md5 = has methods 0x04;
    with_md2 = has methods 0x02;
    with_none = has methods 0x01;
    kg_status = if extended then has logins 0x20 else false;
    per_message_authentication_enabled = not (has logins 0x10);
    user_level_authentication_enabled = not (has logins 0x08);
    non_null_usernames_enabled = has logins 0x04;
    null_usernames_enabled = has logins 0x02;
    anonymous_login_enabled = has logins 0x01;
    ipmi2_connections_supported = if extended then has (get_or bytes 3 0) 0x02 else false;
    ipmi15_connections_supported = if extended then has (get_or bytes 3 0) 0x01 else false;
    oem_id = if extended then take 3 (drop 4 bytes) else take 3 (drop 3 bytes);
    oem_auxiliary_data = if extended then get_or bytes 7 0 else get_or bytes 6 0;
  })

-- A page of the cipher suites; the index has been checked by its caller, which counts to 63.
unfoldable pub cipher_suites_request : Channel → ℕ → List ℕ
unfolding channel_value
cipher_suites_request channel index = channel_value channel ∷ 0 ∷ bit_or 0x80 index ∷ []

-- `none` is the error `TooMuchData`.
unfoldable pub parse_cipher_suites : List ℕ → Option (List ℕ)
parse_cipher_suites bytes =
    if length bytes == 0 || ltb 17 (length bytes) then none else some (drop 1 bytes)

-- `GetSessionChallenge::new` of the bytes of a name, and its request.
unfoldable pub challenge_request : AuthType → List ℕ → Option (List ℕ)
unfolding auth_type_code
challenge_request ty name =
    if ltb 16 (length name)
    then none
    else some (auth_type_code ty ∷ (name ++ replicate (16 - length name) 0))

pub record SessionChallenge : Type 0 where
  pub temporary_session_id : ℕ
  pub challenge_string : List ℕ

abbrev pub word_at : List ℕ → ℕ → ℕ
word_at bytes i =
    let rest = drop i bytes in
    of_le4 (get_or rest 0 0) (get_or rest 1 0) (get_or rest 2 0) (get_or rest 3 0)

unfoldable pub parse_challenge : List ℕ → Result AuthError SessionChallenge
parse_challenge bytes = do
  reject_if (length bytes != 20) not_enough_data
  reject_if (word_at bytes 0 == 0) invalid_zero_session
  ok (record { temporary_session_id = word_at bytes 0; challenge_string = take 16 (drop 4 bytes) })

unfoldable pub activate_request : AuthType → PrivilegeLevel → List ℕ → ℕ → List ℕ
unfolding auth_type_code
activate_request ty level challenge sequence =
    auth_type_code ty ∷ privilege_code level ∷ (challenge ++ u32_le sequence)

pub record BeginSessionInfo : Type 0 where
  pub auth_type : AuthType
  pub session_id : ℕ
  pub initial_sequence_number : ℕ
  pub maximum_privilege_level : PrivilegeLevel

unfoldable pub parse_begin_session : List ℕ → Result AuthError BeginSessionInfo
unfolding auth_type_of_u8
parse_begin_session bytes = do
  reject_if (ltb (length bytes) 10) not_enough_data
  ty ← ok_or (invalid_auth_type (get_or bytes 0 0)) (auth_type_of_u8 (get_or bytes 0 0))
  reject_if (word_at bytes 1 == 0) invalid_zero_session
  level ← ok_or (invalid_privilege_level (get_or bytes 9 0)) (privilege_of_u8 (get_or bytes 9 0))
  ok (record {
    auth_type = ty;
    session_id = word_at bytes 1;
    initial_sequence_number = word_at bytes 5;
    maximum_privilege_level = level;
  })
