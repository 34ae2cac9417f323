-- ===== src/Rmcp/Activation.antt =====
-- The activation of a connection: `RmcpWithState<Inactive>::activate` of ipmi-rs/src/rmcp/internal.rs,
-- which chooses between the two kinds of session.
pub mod Choice
mod Examples
use ipmi_rs.Base.{
  ℕ, zero, suc, Bool, true, false, not, ◌&&◌, ◌||◌, List, [], ◌∷◌, ◌++◌, Option, none, some, Result,
  ok, err, ◌>>=◌, ◌>>◌, reject_if, ok_or, map_err, ◌==◌, ◌!=◌, ltb, if◌then◌else◌, length,
}
use ipmi_rs.Connection.Channel.{Channel, current}
use ipmi_rs.Rmcp.Header.{
  RmcpHeader, RmcpType, RmcpHeaderError, asf, from_bytes, new_asf, write_infallible, ipmi,
  oem_defined,
}
use ipmi_rs.Rmcp.Asf.{AsfMessage, ping, pong, write_data}
use ipmi_rs.Rmcp.Asf
use ipmi_rs.Rmcp.Errors.{RmcpIpmiReceiveError}
use ipmi_rs.Rmcp.CipherPolicy.{CipherSuite, id3, CipherSuiteListError, select_best}
use ipmi_rs.Rmcp.V1_5.Commands.{
  AuthError, AuthenticationCapabilities, capabilities_request, parse_capabilities,
  cipher_suites_request, parse_cipher_suites,
}
use ipmi_rs.Rmcp.V1_5.State.{State}
use ipmi_rs.Rmcp.V1_5.Activation.{
  CommandError, no_answer, parse, Exchange, V1_5ActivationError, new_state, parsed,
}
use ipmi_rs.Rmcp.V1_5.Activation as V1_5Activation
use ipmi_rs.Rmcp.V2_0.Algorithms.{PrivilegeLevel}
use ipmi_rs.Rmcp.V2_0.Rakp.{username_new}
use ipmi_rs.Rmcp.V2_0.Crypto.Backend.{Backend}
use ipmi_rs.Rmcp.V2_0.Activation.Steps.{Socket, Parameters, Activated}
use ipmi_rs.Rmcp.V2_0.Activation.Steps
use ipmi_rs.Rmcp.V2_0.Activation as V2_0Activation

pub data ActivationError : Type 0 where
  ping_send pong_read ipmi_not_supported no_supported_ipmi_lan_versions : ActivationError
  required_rmcp_plus_not_supported no_supported_cipher_suite rmcp_plus_required : ActivationError
  invalid_username : ActivationError
  pong_receive : RmcpIpmiReceiveError → ActivationError
  get_channel_cipher_suites : ActivationError
  incomplete_list : ActivationError
  invalid_cipher_suite_list : CipherSuiteListError → ActivationError
  get_channel_authentication_capabilities : CommandError AuthError → ActivationError
  v1_5_error : V1_5ActivationError → ActivationError
  v2_0_error : Steps.ActivationError → ActivationError

pub data CipherSuitePolicy : Type 0 where
  exact : CipherSuite → CipherSuitePolicy
  best_available : CipherSuitePolicy

-- A name as its characters and as its bytes in UTF-8.
pub record Name : Type 0 where
  pub characters : List ℕ
  pub utf8 : List ℕ

-- `SessionConfig`, with the flag and the policy of the call.
pub record Config : Type 0 where
  pub rmcp_plus : Bool
  pub suite_policy : Option CipherSuitePolicy
  pub require_rmcp_plus : Bool
  pub username : Option Name
  pub password : Option (List ℕ)
  pub kg : Option (List ℕ)
  pub privilege : PrivilegeLevel

-- What the other side and the system do: the ping is sent and answered, commands outside a session are
-- answered, the exchange of RMCP+ has its socket, and two numbers are drawn.
pub record Peer : Type 0 where
  pub cancelled : Option RmcpIpmiReceiveError
  pub ping_sent : List ℕ → Bool
  pub pong : Result RmcpIpmiReceiveError (List ℕ)
  pub exchange : Exchange
  pub socket : Socket
  pub console_session_id : ℕ
  pub random_number : List ℕ

pub data Active : Type 0 where
  v1_5 : State → Active
  v2_0 : Activated → Active

abbrev pub message_tag : ℕ
message_tag = 0xc8

abbrev pub ping_bytes : List ℕ
unfolding write_infallible new_asf write_data
ping_bytes =
    write_infallible (new_asf 0xff)
      (write_data (record { message_tag = message_tag; message_type = ping }))

-- Whether a pong says that IPMI is supported.
unfoldable pub read_message : Option AsfMessage → Result ActivationError Bool
read_message none = err pong_read
read_message (some m) =
    if m.message_tag != message_tag then err pong_read else elim m.message_type [
      | ping ↦ err pong_read
      | pong iana oem entities interactions ↦ ok entities.ipmi
    ]

unfoldable pub read_pong : List ℕ → Result ActivationError Bool
read_pong bytes = do
  parts ← map_err (λ e. pong_read) (from_bytes bytes)
  elim parts.0.class.ty [
    | asf ↦ read_message (Asf.from_bytes parts.1)
    | ipmi ↦ err pong_read
    | oem_defined ↦ err pong_read
  ]

-- The pages of the cipher suites from this index on; a page that is short is the last one. The budget
-- counts the indexes to 63.
unfoldable pub list_suites : Exchange → State → ℕ → ℕ → State × Result ActivationError (List ℕ)
list_suites exchange s index zero = (s, err incomplete_list)
list_suites exchange s index (suc budget) =
    let r = exchange s 0x54 (cipher_suites_request current index) in
    let rest = list_suites exchange r.0 (suc index) budget in
    elim r.1 [
      | none ↦ (r.0, err get_channel_cipher_suites)
      | some bytes ↦ elim (parse_cipher_suites bytes) [
        | none ↦ (r.0, err get_channel_cipher_suites)
        | some page ↦
            if ltb (length page) 16
            then (r.0, ok page)
            else (rest.0, (do more ← rest.1; ok (page ++ more)))
      ]
    ]

unfoldable pub select_suite :
    Exchange → State → Option CipherSuitePolicy → Result ActivationError CipherSuite
select_suite exchange s none = ok id3
select_suite exchange s (some (exact suite)) = ok suite
select_suite exchange s (some best_available) = do
  records ← (list_suites exchange s 0 64).1
  best ← map_err invalid_cipher_suite_list (select_best records)
  ok_or no_supported_cipher_suite best

abbrev pub or_empty : Option (List ℕ) → List ℕ
or_empty none = []
or_empty (some bytes) = bytes

abbrev pub utf8_of : Option Name → List ℕ
utf8_of none = []
utf8_of (some name) = name.utf8

abbrev pub characters_of : Option Name → List ℕ
characters_of none = []
characters_of (some name) = name.characters

abbrev pub parameters : Config → Peer → CipherSuite → List ℕ → Parameters
parameters c p suite username = record {
  privilege_level = some c.privilege;
  username = username;
  password = or_empty c.password;
  kg = c.kg;
  suite = suite;
  console_session_id = p.console_session_id;
  random_number = p.random_number;
}

unfoldable pub activate_2_0 : Backend → Config → Peer → State → Result ActivationError Active
activate_2_0 b c p s = do
  suite ← select_suite p.exchange s c.suite_policy
  reject_if (ltb 16 (length (utf8_of c.username))) invalid_username
  username ← ok_or invalid_username (username_new (characters_of c.username))
  session ← map_err v2_0_error (V2_0Activation.activate b p.socket (parameters c p suite username))
  ok (v2_0 session)

abbrev pub map_name : Option Name → Option (List ℕ)
map_name none = none
map_name (some name) = some name.utf8

abbrev pub some_policy : Option CipherSuitePolicy → Bool
some_policy none = false
some_policy (some policy) = true

unfoldable pub choose :
    Backend → Config → Peer → State → AuthenticationCapabilities → Result ActivationError Active
choose b c p s caps =
    if caps.ipmi2_connections_supported && c.rmcp_plus
    then activate_2_0 b c p s
    else if some_policy c.suite_policy
    then err required_rmcp_plus_not_supported
    else if not caps.ipmi15_connections_supported
    then err no_supported_ipmi_lan_versions
    else if c.rmcp_plus && c.require_rmcp_plus
    then err rmcp_plus_required
    else (do
      session ←
          map_err v1_5_error
            (V1_5Activation.activate p.exchange s caps c.privilege (map_name c.username) c.password)
      ok (v1_5 session))

unfoldable pub activate : Backend → Config → Peer → Result ActivationError Active
activate b c p = elim p.cancelled [
  | some e ↦ err (pong_receive e)
  | none ↦ do
    reject_if (not (p.ping_sent ping_bytes)) ping_send
    bytes ← map_err pong_receive p.pong
    supported ← read_pong bytes
    reject_if (not supported) ipmi_not_supported
    let r = p.exchange new_state 0x38 (capabilities_request current c.privilege)
    caps ← map_err get_channel_authentication_capabilities (parsed parse_capabilities r.1)
    choose b c p r.0 caps
]
