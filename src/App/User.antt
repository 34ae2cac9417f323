-- ===== src/App/User.antt =====
-- ipmi-rs-core/src/app/user.rs: the commands that manage users. Names and passwords are their bytes.
pub mod Requests
mod Examples
use ipmi_rs.Base.{
  ℕ, suc, ◌+◌, ◌-◌, ◌*◌, ◌/◌, min, Bool, true, false, ◌&&◌, not, List, [], ◌∷◌, ◌++◌, Option, none,
  some, Result, ok, err, ◌>>=◌, ◌>>◌, reject_if, ◌==◌, ◌!=◌, ltb, leb, if◌then◌else◌, bit_and,
  bit_or, length, get_or, replicate,
}
use ipmi_rs.Connection.Channel.{Channel, channel_value}

-- `UserId::new`; the identifier is its number.
unfoldable pub user_id_new : ℕ → Option ℕ
user_id_new v = if leb 1 v && leb v 63 then some v else none

pub data UserPrivilege : Type 0 where
  callback user operator administrator oem no_access : UserPrivilege

unfoldable pub privilege_new : ℕ → Option UserPrivilege
privilege_new v =
    if v == 1
    then some callback
    else if v == 2
    then some user
    else if v == 3
    then some operator
    else if v == 4
    then some administrator
    else if v == 5
    then some oem
    else if v == 15
    then some no_access
    else none

abbrev pub privilege_value : UserPrivilege → ℕ
privilege_value callback = 1
privilege_value user = 2
privilege_value operator = 3
privilege_value administrator = 4
privilege_value oem = 5
privilege_value no_access = 15

pub data UserTextError : Type 0 where
  too_long invalid_encoding : UserTextError

pub data UserResponseError : Type 0 where
  bad_length : (expected actual : ℕ) → UserResponseError

pub data UserRequestError : Type 0 where
  invalid_session_limit : UserRequestError

abbrev pub is_printable : List ℕ → Bool
is_printable [] = true
is_printable (b ∷ bs) = leb 0x20 b && (leb b 0x7e && is_printable bs)

unfoldable pub check_text : List ℕ → ℕ → Result UserTextError (Unit {0})
check_text bytes limit =
    if ltb limit (length bytes)
    then err too_long
    else if not (is_printable bytes)
    then err invalid_encoding
    else ok tt

-- A field of a fixed width, with zeros behind the bytes.
abbrev pub padded : List ℕ → ℕ → List ℕ
padded bytes width = bytes ++ replicate (width - length bytes) 0

unfoldable pub parse_name : List ℕ → Result UserResponseError (List ℕ)
parse_name bytes = if length bytes == 16 then ok bytes else err (bad_length 16 (length bytes))

pub record SetUserName : Type 0 where
  pub user : ℕ
  pub name : List ℕ

unfoldable pub set_name_new : ℕ → List ℕ → Result UserTextError SetUserName
set_name_new id name = do check_text name 16; ok (record { user = id; name = padded name 16 })

unfoldable pub set_name_request : SetUserName → List ℕ
set_name_request cmd = cmd.user ∷ cmd.name

pub data UserEnableStatus : Type 0 where
  unknown enabled disabled reserved : UserEnableStatus

pub record UserSummary : Type 0 where
  pub max_user_ids : ℕ
  pub enabled_user_ids : ℕ
  pub fixed_user_ids : ℕ
  pub enable_status : UserEnableStatus

pub record UserAccess : Type 0 where
  pub summary : UserSummary
  pub callback_only : Bool
  pub link_auth : Bool
  pub ipmi_messaging : Bool
  pub privilege_limit : ℕ

abbrev pub status_of : ℕ → UserEnableStatus
status_of v =
    if v == 0 then unknown else if v == 1 then enabled else if v == 2 then disabled else reserved

unfoldable pub parse_access : List ℕ → Result UserResponseError UserAccess
parse_access bytes =
    if length bytes != 4
    then err (bad_length 4 (length bytes))
    else ok (record {
      summary = record {
        max_user_ids = bit_and (get_or bytes 0 0) 0x3f;
        enabled_user_ids = bit_and (get_or bytes 1 0) 0x3f;
        fixed_user_ids = bit_and (get_or bytes 2 0) 0x3f;
        enable_status = status_of (get_or bytes 1 0 / 64);
      };
      callback_only = bit_and (get_or bytes 3 0) 0x40 != 0;
      link_auth = bit_and (get_or bytes 3 0) 0x20 != 0;
      ipmi_messaging = bit_and (get_or bytes 3 0) 0x10 != 0;
      privilege_limit = bit_and (get_or bytes 3 0) 0x0f;
    })

unfoldable pub get_access_request : Channel → ℕ → List ℕ
get_access_request channel id = channel_value channel ∷ id ∷ []

unfoldable pub parse_summary : List ℕ → Result UserResponseError UserSummary
parse_summary bytes = do access ← parse_access bytes; ok access.summary

-- `next_id` is the source's `next`, and so is the function below.
pub record UserList : Type 0 where
  pub channel : Channel
  pub next_id : ℕ
  pub max : ℕ

unfoldable pub list_new : Channel → UserSummary → UserList
list_new channel summary = record {
  channel = channel;
  next_id = 1;
  max = min summary.max_user_ids 63;
}

abbrev pub advance : UserList → Option ℕ → UserList × Option ℕ
advance l none = (l, none)
advance l (some id) = (record l { next_id = suc l.next_id }, some id)

-- The identifier that `next` gives; the two commands of the source are made of it and the channel.
unfoldable pub next : UserList → UserList × Option ℕ
next l = if ltb l.max l.next_id then (l, none) else advance l (user_id_new l.next_id)

pub record SetUserAccess : Type 0 where
  pub channel : Channel
  pub user : ℕ
  pub callback_only : Bool
  pub link_auth : Bool
  pub ipmi_messaging : Bool
  pub privilege : UserPrivilege
  pub session_limit : ℕ

-- `SetUserAccess::new` of the command with its fields.
unfoldable pub set_access_new : SetUserAccess → Result UserRequestError SetUserAccess
set_access_new cmd = if ltb 15 cmd.session_limit then err invalid_session_limit else ok cmd

abbrev pub bit : Bool → ℕ
bit false = 0
bit true = 1

unfoldable pub set_access_request : SetUserAccess → List ℕ
set_access_request cmd =
    bit_or
      (bit_or (bit_or (bit_or 0x80 (bit cmd.callback_only * 64)) (bit cmd.link_auth * 32))
        (bit cmd.ipmi_messaging * 16))
      (channel_value cmd.channel)
    ∷ cmd.user
    ∷ privilege_value cmd.privilege
    ∷ cmd.session_limit
    ∷ []

unfoldable pub set_privilege_request : Channel → ℕ → UserPrivilege → List ℕ
set_privilege_request channel id privilege =
    channel_value channel ∷ id ∷ privilege_value privilege ∷ 0 ∷ []

pub data PasswordLength : Type 0 where
  bytes16 bytes20 : PasswordLength

abbrev pub width : PasswordLength → ℕ
width bytes16 = 16
width bytes20 = 20

pub record UserPassword : Type 0 where
  pub bytes : List ℕ
  pub length_of : PasswordLength

unfoldable pub password_new : List ℕ → PasswordLength → Result UserTextError UserPassword
password_new bytes len = do
  check_text bytes (width len)
  ok (record { bytes = bytes; length_of = len })

pub data PasswordOperation : Type 0 where
  disable enable : PasswordOperation
  set test : UserPassword → PasswordOperation

abbrev pub operation_code : PasswordOperation → ℕ
operation_code disable = 0
operation_code enable = 1
operation_code (set p) = 2
operation_code (test p) = 3

abbrev pub password_of : PasswordOperation → Option UserPassword
password_of disable = none
password_of enable = none
password_of (set p) = some p
password_of (test p) = some p

-- The bit that says that the field is the wide one.
abbrev pub size_bit : PasswordLength → ℕ
size_bit bytes16 = 0
size_bit bytes20 = 0x80

abbrev pub password_length : Option UserPassword → PasswordLength
password_length none = bytes16
password_length (some p) = p.length_of

abbrev pub password_bytes : Option UserPassword → List ℕ
password_bytes none = []
password_bytes (some p) = p.bytes

unfoldable pub set_password_request : ℕ → PasswordOperation → List ℕ
set_password_request id operation =
    let password = password_of operation in
    let len = password_length password in
    bit_or id (size_bit len)
    ∷ operation_code operation
    ∷ padded (password_bytes password) (width len)

unfoldable pub empty_response : List ℕ → Result UserResponseError (Unit {0})
empty_response [] = ok tt
empty_response (b ∷ bs) = err (bad_length 0 (length (b ∷ bs)))
