-- ===== src/App/Watchdog/RoundTrip.antt =====
-- The layout that is written and the one that is read agree.
use ipmi_rs.Base.{
  List, ◌∷◌, ◌*◌, bit_or, get_or, ℕ, ◌/◌, ◌≡◌, Bool, false, ok, ◌!=◌, bit_and, u16_le,
  of_le2-u16_le, IsU16, arith,
}
use ipmi_rs.App.Watchdog.{
  bit, WatchdogUse, WatchdogAction, WatchdogInterrupt, WatchdogConfiguration, WatchdogTimer,
  use_value, use_parse, action_parse, interrupt_parse, flags_from_bits, use_byte, action_byte,
  set_request, parse_timer,
}

-- What a controller tells of the timer that it runs: whether it runs, which uses have expired, and the
-- countdown; these are its own, and are not what was set.
pub record Progress : Type 0 where
  pub running : Bool
  pub expired : ℕ
  pub countdown : ℕ

-- What is read of a controller that took the configuration.
abbrev pub reported : WatchdogConfiguration → Progress → WatchdogTimer
reported c p = record {
  timer_use = c.timer_use;
  running = p.running;
  do_not_log = c.do_not_log;
  action = c.action;
  interrupt = c.interrupt;
  pretimeout_seconds = c.pretimeout_seconds;
  expiration_flags = p.expired;
  initial_countdown_deciseconds = c.initial_countdown_deciseconds;
  present_countdown_deciseconds = p.countdown;
}

-- The answer of a controller to Get Watchdog Timer: the bytes that set the timer, except that bit 6 of the
-- first byte tells whether the timer runs and the fourth byte tells which uses have expired.
abbrev pub report : List ℕ → Progress → List ℕ
report sent p =
    bit_or (bit_and (get_or sent 0 0) 0xbf) (bit p.running * 64)
    ∷ get_or sent 1 0
    ∷ get_or sent 2 0
    ∷ p.expired
    ∷ get_or sent 4 0
    ∷ get_or sent 5 0
    ∷ u16_le p.countdown

-- The first byte of the answer.
abbrev first : Bool → Bool → WatchdogUse → Bool → ℕ
first log stop u running = bit_or (bit_and (use_byte log stop u) 0xbf) (bit running * 64)

record UseBits (log stop : Bool) (u : WatchdogUse) (running : Bool) : Type 0 where
  reserved : (bit_and (first log stop u running) 0x38 != 0) ≡ false
  parsed : use_parse (bit_and (first log stop u running) 7) ≡ ok u
  runs : (bit_and (first log stop u running) 0x40 != 0) ≡ running
  quiet : (bit_and (first log stop u running) 0x80 != 0) ≡ log

use_byte-UseBits : (log stop : Bool) (u : WatchdogUse) (running : Bool) → UseBits log stop u running
unfolding use_byte use_parse use_value
use_byte-UseBits log stop u running = record {
  reserved = ground arith;
  parsed = ground arith;
  runs = ground arith;
  quiet = ground arith;
}

record ActionBits (i : WatchdogInterrupt) (a : WatchdogAction) : Type 0 where
  reserved : (bit_and (action_byte i a) 0x88 != 0) ≡ false
  action_parsed : action_parse (bit_and (action_byte i a) 7) ≡ ok a
  interrupt_parsed : interrupt_parse (bit_and (action_byte i a / 16) 7) ≡ ok i

action_byte-ActionBits : (i : WatchdogInterrupt) (a : WatchdogAction) → ActionBits i a
unfolding action_byte action_parse interrupt_parse
action_byte-ActionBits i a = record {
  reserved = ground arith;
  action_parsed = ground arith;
  interrupt_parsed = ground arith;
}

-- When a controller took a configuration and answers with the bytes that set it, except for its own
-- running bit and expired uses, which are flags that exist, and with any countdown, the timer that is
-- read has the use, action, interrupt, pretimeout, log bit and countdown that were set, and the running
-- bit, expired uses and countdown that the controller tells.
pub parse_timer-set_request :
    (c : WatchdogConfiguration) (p : Progress)
    → flags_from_bits p.expired ≡ ok p.expired
    → IsU16 c.initial_countdown_deciseconds
    → IsU16 p.countdown
    → parse_timer (report (set_request c) p) ≡ ok (reported c p)
unfolding parse_timer set_request
parse_timer-set_request c p hf hi hp =
    let u = use_byte-UseBits c.do_not_log c.do_not_stop c.timer_use p.running in
    let a = action_byte-ActionBits c.interrupt c.action in
    let i = of_le2-u16_le c.initial_countdown_deciseconds hi in
    let n = of_le2-u16_le p.countdown hp in
    rw (
      u.reserved, a.reserved, u.parsed, a.action_parsed, a.interrupt_parsed, hf, u.runs, u.quiet, i,
      n,
    )
