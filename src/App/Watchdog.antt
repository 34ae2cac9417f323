-- ===== src/App/Watchdog.antt =====
-- ipmi-rs-core/src/app/watchdog.rs: reading, configuring and restarting the watchdog timer.
pub mod RoundTrip
mod Examples
use ipmi_rs.Base.{
  ℕ, ◌+◌, ◌*◌, ◌/◌, ◌≤◌, Bool, true, false, ◌&&◌, List, [], ◌∷◌, Option, none, some, Result, ok,
  err, ◌>>=◌, ◌>>◌, reject_if, ◌==◌, ◌!=◌, leb, if◌then◌else◌, bit_and, bit_or, length, get_or,
  of_le2, u16_le,
}
use ipmi_rs.Connection.CompletionCode.{CompletionErrorCode, command_specific}

pub data WatchdogUse : Type 0 where
  unspecified bios_frb2 bios_post os_load sms_os oem : WatchdogUse

pub data WatchdogAction : Type 0 where
  no_action hard_reset power_down power_cycle : WatchdogAction

pub data WatchdogInterrupt : Type 0 where
  no_interrupt smi nmi messaging : WatchdogInterrupt

-- The field that an error names.
pub data Field : Type 0 where
  timer_use timer_action pretimeout_interrupt expiration_flags : Field
  timer_use_reserved_bits action_reserved_bits : Field

pub data WatchdogError : Type 0 where
  bad_length : (expected actual : ℕ) → WatchdogError
  invalid_field : Field → ℕ → WatchdogError
  invalid_pretimeout not_initialized : WatchdogError

unfoldable pub use_value : WatchdogUse → ℕ
use_value unspecified = 0
use_value bios_frb2 = 1
use_value bios_post = 2
use_value os_load = 3
use_value sms_os = 4
use_value oem = 5

unfoldable pub use_parse : ℕ → Result WatchdogError WatchdogUse
use_parse v =
    if v == 0
    then ok unspecified
    else if v == 1
    then ok bios_frb2
    else if v == 2
    then ok bios_post
    else if v == 3
    then ok os_load
    else if v == 4
    then ok sms_os
    else if v == 5
    then ok oem
    else err (invalid_field timer_use v)

unfoldable pub action_value : WatchdogAction → ℕ
action_value no_action = 0
action_value hard_reset = 1
action_value power_down = 2
action_value power_cycle = 3

unfoldable pub action_parse : ℕ → Result WatchdogError WatchdogAction
action_parse v =
    if v == 0
    then ok no_action
    else if v == 1
    then ok hard_reset
    else if v == 2
    then ok power_down
    else if v == 3
    then ok power_cycle
    else err (invalid_field timer_action v)

unfoldable pub interrupt_value : WatchdogInterrupt → ℕ
interrupt_value no_interrupt = 0
interrupt_value smi = 1
interrupt_value nmi = 2
interrupt_value messaging = 3

unfoldable pub interrupt_parse : ℕ → Result WatchdogError WatchdogInterrupt
interrupt_parse v =
    if v == 0
    then ok no_interrupt
    else if v == 1
    then ok smi
    else if v == 2
    then ok nmi
    else if v == 3
    then ok messaging
    else err (invalid_field pretimeout_interrupt v)

-- `WatchdogExpirationFlags::from_bits`: the five flags are 0x02 to 0x20.
unfoldable pub flags_from_bits : ℕ → Result WatchdogError ℕ
flags_from_bits v = if bit_and v 0x3e == v then ok v else err (invalid_field expiration_flags v)

pub record WatchdogTimer : Type 0 where
  pub timer_use : WatchdogUse
  pub running : Bool
  pub do_not_log : Bool
  pub action : WatchdogAction
  pub interrupt : WatchdogInterrupt
  pub pretimeout_seconds : ℕ
  pub expiration_flags : ℕ
  pub initial_countdown_deciseconds : ℕ
  pub present_countdown_deciseconds : ℕ

-- `GetWatchdogTimer::parse_success_response`.
unfoldable pub parse_timer : List ℕ → Result WatchdogError WatchdogTimer
parse_timer bytes = do
  reject_if (length bytes != 8) (bad_length 8 (length bytes))
  reject_if (bit_and (get_or bytes 0 0) 0x38 != 0)
      (invalid_field timer_use_reserved_bits (get_or bytes 0 0))
  reject_if (bit_and (get_or bytes 1 0) 0x88 != 0)
      (invalid_field action_reserved_bits (get_or bytes 1 0))
  u ← use_parse (bit_and (get_or bytes 0 0) 7)
  a ← action_parse (bit_and (get_or bytes 1 0) 7)
  i ← interrupt_parse (bit_and (get_or bytes 1 0 / 16) 7)
  f ← flags_from_bits (get_or bytes 3 0)
  ok (record {
    timer_use = u;
    running = bit_and (get_or bytes 0 0) 0x40 != 0;
    do_not_log = bit_and (get_or bytes 0 0) 0x80 != 0;
    action = a;
    interrupt = i;
    pretimeout_seconds = get_or bytes 2 0;
    expiration_flags = f;
    initial_countdown_deciseconds = of_le2 (get_or bytes 4 0) (get_or bytes 5 0);
    present_countdown_deciseconds = of_le2 (get_or bytes 6 0) (get_or bytes 7 0);
  })

pub record WatchdogConfiguration : Type 0 where
  pub timer_use : WatchdogUse
  pub do_not_stop : Bool
  pub do_not_log : Bool
  pub action : WatchdogAction
  pub interrupt : WatchdogInterrupt
  pub pretimeout_seconds : ℕ
  pub clear_expiration_flags : ℕ
  pub initial_countdown_deciseconds : ℕ

-- `SetWatchdogTimer::new`; the value that is made is the configuration.
unfoldable pub set_new : WatchdogConfiguration → Result WatchdogError WatchdogConfiguration
unfolding use_value
set_new c =
    if use_value c.timer_use == 0
    then err (invalid_field timer_use 0)
    else if c.pretimeout_seconds != 0
        && leb c.initial_countdown_deciseconds (c.pretimeout_seconds * 10)
    then err invalid_pretimeout
    else ok c

-- `u8::from`.
abbrev pub bit : Bool → ℕ
bit false = 0
bit true = 1

-- The first two bytes of a write.
unfoldable pub use_byte : Bool → Bool → WatchdogUse → ℕ
unfolding use_value
use_byte do_not_log do_not_stop u =
    bit_or (bit_or (bit do_not_log * 128) (bit do_not_stop * 64)) (use_value u)

unfoldable pub action_byte : WatchdogInterrupt → WatchdogAction → ℕ
unfolding interrupt_value action_value
action_byte i a = bit_or (interrupt_value i * 16) (action_value a)

-- What `SetWatchdogTimer` sends.
unfoldable pub set_request : WatchdogConfiguration → List ℕ
set_request c =
    use_byte c.do_not_log c.do_not_stop c.timer_use
    ∷ action_byte c.interrupt c.action
    ∷ c.pretimeout_seconds
    ∷ c.clear_expiration_flags
    ∷ u16_le c.initial_countdown_deciseconds

unfoldable pub empty_response : List ℕ → Result WatchdogError (Unit {0})
empty_response [] = ok tt
empty_response (b ∷ bs) = err (bad_length 0 (length (b ∷ bs)))

-- `ResetWatchdogTimer::handle_completion_code`.
unfoldable pub reset_completion : CompletionErrorCode → Option WatchdogError
reset_completion (command_specific v) = if v == 0x80 then some not_initialized else none
reset_completion _ = none
