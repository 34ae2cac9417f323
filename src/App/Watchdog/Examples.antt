-- ===== src/App/Watchdog/Examples.antt =====
-- A configuration of the timer.
use ipmi_rs.Base.{◌≡◌, refl, true, false, ok, arith}
use ipmi_rs.App.Watchdog.{
  WatchdogConfiguration, sms_os, hard_reset, nmi, set_request, parse_timer, flags_from_bits,
}
use ipmi_rs.App.Watchdog.RoundTrip.{reported, Progress, report, parse_timer-set_request}

abbrev configuration : WatchdogConfiguration
configuration = record {
  timer_use = sms_os;
  do_not_stop = true;
  do_not_log = false;
  action = hard_reset;
  interrupt = nmi;
  pretimeout_seconds = 5;
  clear_expiration_flags = 0x10;
  initial_countdown_deciseconds = 600;
}

-- It does not run, and the use of an operating system has expired.
abbrev progress : Progress
progress = record { running = false; expired = 0x08; countdown = 599 }

flags_valid : flags_from_bits 0x08 ≡ ok 0x08
unfolding flags_from_bits
flags_valid = refl

parse_timer-set_request_example :
    parse_timer (report (set_request configuration) progress) ≡ ok (reported configuration progress)
parse_timer-set_request_example =
    parse_timer-set_request configuration progress flags_valid (omega arith) (omega arith)
