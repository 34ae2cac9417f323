-- ===== src/Rmcp/V1_5/Activation.antt =====
-- The activation of a session: `State::new` and `activate` of v1_5/mod.rs, over an exchange of commands
-- that is a parameter.
use ipmi_rs.Base.{
  ℕ, ◌-◌, List, [], ◌++◌, Option, none, some, Result, ok, err, map_err, ltb, if◌then◌else◌, false,
  true, length, replicate,
}
use ipmi_rs.Rmcp.Ipmb.State.{ipmb_default}
use ipmi_rs.Rmcp.V1_5.Auth.{AuthType, auth_none}
use ipmi_rs.Rmcp.V1_5.State.{State}
use ipmi_rs.Rmcp.V1_5.Commands.{
  AuthError, AuthenticationCapabilities, best_auth, SessionChallenge, challenge_request,
  parse_challenge, BeginSessionInfo, activate_request, parse_begin_session,
}
use ipmi_rs.Rmcp.V2_0.Algorithms.{PrivilegeLevel}

-- The failure of a command: of the exchange, or of the reading of its answer.
pub data CommandError (E : Type 0) : Type 0 where
  no_answer : CommandError E
  parse : E → CommandError E

-- `send_recv` of a command, with the bytes of its request: the state, and the bytes of a success.
abbrev pub Exchange : Type 0
Exchange = State → ℕ → List ℕ → State × Option (List ℕ)

pub data V1_5ActivationError : Type 0 where
  password_too_long username_too_long no_supported_authentication_type : V1_5ActivationError
  get_session_challenge activate_session : CommandError AuthError → V1_5ActivationError

abbrev pub new_state : State
new_state = record {
  ipmb_state = ipmb_default;
  session_id = none;
  auth_type = auth_none;
  password = none;
  session_sequence = 0;
  last_inbound_sequence = none;
  activated = false;
}

abbrev pub parsed :
    {E A : Type 0} → (List ℕ → Result E A) → Option (List ℕ) → Result (CommandError E) A
parsed f none = err no_answer
parsed f (some bytes) = map_err (λ e. parse e) (f bytes)

abbrev pub padded_password : Option (List ℕ) → Option (List ℕ)
padded_password none = none
padded_password (some password) = some (password ++ replicate (16 - length password) 0)

abbrev pub password_length : Option (List ℕ) → ℕ
password_length none = 0
password_length (some password) = length password

abbrev pub name_bytes : Option (List ℕ) → List ℕ
name_bytes none = []
name_bytes (some name) = name

abbrev pub begun :
    State → Result (CommandError AuthError) BeginSessionInfo → Result V1_5ActivationError State
begun s (err e) = err (activate_session e)
begun s (ok i) = ok (record s {
  session_sequence = i.initial_sequence_number;
  session_id = some i.session_id;
  last_inbound_sequence = none;
  activated = true;
})

abbrev pub activate_with :
    Exchange
    → State
    → PrivilegeLevel
    → SessionChallenge
    → Option AuthType
    → Result V1_5ActivationError State
activate_with exchange s level c none = err no_supported_authentication_type
activate_with exchange s level c (some ty) =
    let r =
      exchange (record s { session_id = some c.temporary_session_id; auth_type = ty }) 0x3a
        (activate_request ty level c.challenge_string 0xdeadbeef) in
    begun r.0 (parsed parse_begin_session r.1)

abbrev pub challenged :
    Exchange
    → State
    → AuthenticationCapabilities
    → PrivilegeLevel
    → Result (CommandError AuthError) SessionChallenge
    → Result V1_5ActivationError State
challenged exchange s caps level (err e) = err (get_session_challenge e)
challenged exchange s caps level (ok c) = activate_with exchange s level c (best_auth caps)

abbrev pub with_request :
    Exchange
    → State
    → AuthenticationCapabilities
    → PrivilegeLevel
    → Option (List ℕ)
    → Result V1_5ActivationError State
with_request exchange s caps level none = err username_too_long
with_request exchange s caps level (some request) =
    let r = exchange s 0x39 request in
    challenged exchange r.0 caps level (parsed parse_challenge r.1)

unfoldable pub activate :
    Exchange
    → State
    → AuthenticationCapabilities
    → PrivilegeLevel
    → (username password : Option (List ℕ)) → Result V1_5ActivationError State
activate exchange s caps level username password =
    if ltb 16 (password_length password)
    then err password_too_long
    else with_request exchange (record s { password = padded_password password }) caps level
        (challenge_request auth_none (name_bytes username))
