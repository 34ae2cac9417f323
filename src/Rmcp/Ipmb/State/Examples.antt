-- ===== src/Rmcp/Ipmb/State/Examples.antt =====
-- A concrete history: a request to the BMC, which is given up, and then a bridged one.
use ipmi_rs.Base.{ℕ, ◌≡◌, refl, List, [], ◌∷◌, none, some, ok}
use ipmi_rs.Connection.NetFn.{netfn_of_u8, request_value}
use ipmi_rs.Connection.Channel.{IpmbTarget, primary, lun_zero, bmc, bridged}
use ipmi_rs.Connection.Message.{Request, request_netfn}
use ipmi_rs.Rmcp.Ipmb.State.{
  IpmbState, Begun, ipmb_default, begin, retire_pending, begin_route, begin_local, begin_direct,
  route_of, check_route, needed_sequences, any_retired, spend,
}
use ipmi_rs.Rmcp.Ipmb.Session.{Session}

abbrev target : IpmbTarget
target = record { address = 0x2c; channel = primary; lun = lun_zero }

abbrev local_request : Request
local_request = record {
  target = bmc lun_zero;
  message = record { netfn = 6; cmd = 1; payload = [] };
}

abbrev bridged_request : Request
bridged_request = record {
  target = bridged target none;
  message = record { netfn = 6; cmd = 1; payload = [] };
}

abbrev pending_after : Begun → IpmbState
pending_after b = record b.state { pending = some b.pending }

abbrev first : Begun
first = begin_local (spend ipmb_default 1) 6 1 [] 100 lun_zero

abbrev given_up : IpmbState
given_up = retire_pending (pending_after first)

abbrev second : Begun
second = begin_direct (spend given_up 2) 6 1 [] 200 target

first_begins : begin ipmb_default local_request 100 ≡ ok (pending_after first, first.payload)
unfolding begin begin_route route_of check_route needed_sequences any_retired ipmb_default
    request_netfn netfn_of_u8 request_value
first_begins = refl

abbrev used_numbers : List ℕ
used_numbers = 0 ∷ 1 ∷ 2 ∷ []
