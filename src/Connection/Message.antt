-- ===== src/Connection/Message.antt =====
-- Messages, requests and responses: ipmi-rs-core/src/connection/mod.rs, request.rs, response.rs.
use ipmi_rs.Base.{ℕ, List, [], ◌∷◌, Option, none, some, get_or, drop}
use ipmi_rs.Connection.NetFn.{NetFn, netfn_of_u8}
use ipmi_rs.Connection.Channel.{RequestTargetAddress}

pub record Message : Type 0 where
  pub netfn : ℕ
  pub cmd : ℕ
  pub payload : List ℕ

pub record Request : Type 0 where
  pub target : RequestTargetAddress
  pub message : Message

-- `Request::netfn`.
unfoldable pub request_netfn : Request → NetFn
request_netfn r = netfn_of_u8 r.message.netfn

pub record Response : Type 0 where
  pub seq : ℕ
  pub message : Message

-- A response has a completion code, so its message may not be empty.
unfoldable pub response_new : Message → ℕ → Option Response
response_new m seq = elim m.payload [
  | [] ↦ none
  | b ∷ bs ↦ some (record { seq = seq; message = m })
]

-- `self.message.data[0]`; `response_new` makes no response without that byte.
abbrev pub completion_code : Response → ℕ
completion_code r = get_or r.message.payload 0 0

-- `&self.message.data[1..]`.
abbrev pub response_data : Response → List ℕ
response_data r = drop 1 r.message.payload
