-- ===== src/Rmcp/V2_0/Activation/Examples.antt =====
-- An activation with the suite 17.
use ipmi_rs.Base.{[], none, Result, ok, err}
use ipmi_rs.Rmcp.V2_0.Crypto.State.{new}
use ipmi_rs.Rmcp.V2_0.Crypto.Counting.{counting}
use ipmi_rs.Rmcp.V2_0.Activation.Steps.{ActivationError, Activated}
use ipmi_rs.Rmcp.V2_0.Activation.{activate}
use ipmi_rs.Rmcp.V2_0.Activation.Scenario.{parameters, socket}

abbrev activated_of : Result ActivationError Activated → Activated
activated_of (ok s) = s
activated_of (err e) = record {
  session_id = 0;
  session_sequence_number = 0;
  console_session_id = 0;
  last_inbound_sequence = none;
  state = new none [];
}

abbrev session : Activated
session = activated_of (activate counting socket parameters)
