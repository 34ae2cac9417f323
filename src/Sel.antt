-- ===== src/Sel.antt =====
-- Reading the System Event Log: `SelIter` of ipmi-rs/src/sel.rs over the types of
-- ipmi-rs-core/src/storage/sel. The connection is a parameter: each command is a function of the
-- state of the world, which holds the controller and the clock.
mod Examples
pub mod Entry
pub mod Commands
pub mod Stored
pub mod Bounds
pub mod Traversal
use ipmi_rs.Base.{
  ℕ, zero, suc, ◌+◌, ◌-◌, ◌*◌, Bool, true, false, ◌&&◌, ◌||◌, not, List, [], ◌∷◌, Option, none,
  some, min, Result, ok, err, ◌==◌, leb, if◌then◌else◌, length,
}
use ipmi_rs.Connection.CompletionCode.{
  CompletionErrorCode, reservation_cancelled_or_invalid_id, requested_datapoint_not_present,
}

abbrev pub first_id : ℕ
first_id = 0x0000

abbrev pub last_id : ℕ
last_id = 0xffff

-- `Command` and `Info` of storage/sel/get_info.rs.
pub data SelCommand : Type 0 where
  delete partial_add_entry reserve get_alloc_info : SelCommand

pub record SelInfo : Type 0 where
  pub version_maj : ℕ
  pub version_min : ℕ
  pub entries : ℕ
  pub bytes_free : ℕ
  pub last_add_time : ℕ
  pub last_del_time : ℕ
  pub overflow : Bool
  pub supported_cmds : List SelCommand

-- `SelEntryInfo`, with the record number of its entry and the record's bytes.
pub record EntryInfo : Type 0 where
  pub next_entry : ℕ
  pub record_id : ℕ
  pub raw : List ℕ

-- `IpmiError`: a completion code of the controller, or any other failure of the exchange.
pub data IpmiError : Type 0 where
  failed : CompletionErrorCode → IpmiError
  no_answer : IpmiError

pub data SelIterError : Type 0 where
  info reservation entry : IpmiError → SelIterError
  entry_limit : ℕ → SelIterError
  read_limit : SelIterError
  invalid_record_id : ℕ → SelIterError
  record_changed : (requested received : ℕ) → SelIterError
  record_cycle : ℕ → SelIterError
  cancelled deadline_expired : SelIterError

-- The connection, with the budget of the operation: each runs in the state of the world `W`.
pub record Connection (W : Type 0) : Type 0 where
  pub check_budget : W → W × Option SelIterError
  pub get_sel_info : W → W × Result IpmiError SelInfo
  pub reserve_sel : W → W × Result IpmiError ℕ
  pub get_sel_entry : Option ℕ → ℕ → W → W × Result IpmiError EntryInfo

pub record SelIter : Type 0 where
  pub next_id : Option ℕ
  pub reservation : Option ℕ
  pub has_reservation : Bool
  pub seen : List ℕ
  pub scanned : List ℕ
  pub max_entries : ℕ
  pub remaining_reads : ℕ
  pub restarts : ℕ
  pub finished : Bool

unfoldable pub iter_new : ℕ → SelIter
iter_new max_entries = record {
  next_id = none;
  reservation = none;
  has_reservation = false;
  seen = [];
  scanned = [];
  max_entries = max_entries;
  remaining_reads = min (max_entries * 4 + 4) 65536;
  restarts = 0;
  finished = false;
}

-- `HashSet::contains`.
pub contains : List ℕ → ℕ → Bool
contains [] a = false
contains (x ∷ xs) a = x == a || contains xs a

pub supports_reserve : List SelCommand → Bool
supports_reserve [] = false
supports_reserve (reserve ∷ cs) = true
supports_reserve (_ ∷ cs) = supports_reserve cs

-- What `next` answers.
pub data Item : Type 0 where
  end : Item
  item : EntryInfo → Item
  failure : SelIterError → Item

module _ {W : Type 0} (c : Connection W) where
  -- A method: the world and the iterator, before and after.
  abbrev pub M : Type 0 → Type 0
  M A = W × SelIter → (W × SelIter) × Result SelIterError A

  abbrev pub after :
      {A B : Type 0}
      → (W × SelIter) × Result SelIterError A
      → (A → M B)
      → (W × SelIter) × Result SelIterError B
  after (s, ok a) f = f a s
  after (s, err e) f = (s, err e)

  infixl 5 ◌>>=◌ ◌>>◌
  abbrev pub ◌>>=◌ : {A B : Type 0} → M A → (A → M B) → M B
  ◌>>=◌ m f s = after (m s) f

  abbrev pub ◌>>◌ : {B : Type 0} → M (Unit {0}) → M B → M B
  m >> k = m >>= λ _. k

  abbrev pub pure : {A : Type 0} → A → M A
  pure a s = (s, ok a)

  abbrev pub fail : {A : Type 0} → SelIterError → M A
  fail e s = (s, err e)

  abbrev pub fail_if : Bool → SelIterError → M (Unit {0})
  fail_if true e = fail e
  fail_if false e = pure tt

  abbrev pub modify : (SelIter → SelIter) → M (Unit {0})
  modify f s = ((s.0, f s.1), ok tt)

  abbrev pub get : M SelIter
  get s = (s, ok s.1)

  -- `map_err(f)?` on the outcome of an exchange.
  abbrev pub expect : {A : Type 0} → (IpmiError → SelIterError) → Result IpmiError A → M A
  expect f (ok a) = pure a
  expect f (err e) = fail (f e)

  check_stop : Option SelIterError → M (Unit {0})
  check_stop none = pure tt
  check_stop (some e) = fail e

  pub check : M (Unit {0})
  unfolding check_stop
  check s = let (w, stop) = c.check_budget s.0 in check_stop stop (w, s.1)

  abbrev pub exchange : {A : Type 0} → (W → W × Result IpmiError A) → M (Result IpmiError A)
  exchange command s = let (w, r) = command s.0 in ((w, s.1), ok r)

  -- A command between two looks at the budget.
  pub send : {A : Type 0} → (W → W × Result IpmiError A) → M (Result IpmiError A)
  unfolding check
  send command = do check; r ← exchange command; check; pure r

  pub reserve_log : M (Unit {0})
  unfolding send
  reserve_log = do
    r ← send c.reserve_sel
    id ← expect reservation r
    modify (λ i. record i { reservation = some id })

  pub read_info : M SelInfo
  unfolding send
  read_info = do r ← send c.get_sel_info; expect info r

  -- Is the answer a cancelled reservation, one that a new reservation may mend?
  pub is_cancelled : Result IpmiError EntryInfo → Bool
  is_cancelled (err (failed reservation_cancelled_or_invalid_id)) = true
  is_cancelled _ = false

  -- One turn of the retry loop, with `retry` for the turns after it, if there may be any.
  pub read_turn : Option (M EntryInfo) → ℕ → M EntryInfo
  unfolding send is_cancelled reserve_log
  read_turn retry id = do
    i ← get
    fail_if (i.remaining_reads == 0) read_limit
    modify (λ i. record i { remaining_reads = i.remaining_reads - 1 })
    j ← get
    r ← send (c.get_sel_entry j.reservation id)
    if is_cancelled r && j.has_reservation
        then elim retry [ none ↦ expect entry r | some again ↦ do reserve_log; again ]
        else expect entry r

  -- `for retry in 0..=2`.
  pub read : ℕ → M EntryInfo
  unfolding read_turn
  read id = read_turn (some (read_turn (some (read_turn none id)) id)) id

  -- How a turn of the traversal ends, other than by an error.
  pub data Visit : Type 0 where
    finish : Visit
    emit : EntryInfo → Visit
    again_at : ℕ → Visit

  -- The first call: the log may be empty.
  pub start : M Visit
  unfolding read_info reserve_log
  start = do
    inf ← read_info
    if inf.entries == 0 then pure finish else do
      modify (λ i. record i { has_reservation = supports_reserve inf.supported_cmds })
      if supports_reserve inf.supported_cmds then reserve_log else pure tt
      modify (λ i. record i { next_id = some first_id })
      pure (again_at first_id)

  -- A new scan from the first record.
  pub rescan : SelInfo → M Visit
  unfolding reserve_log
  rescan inf = do
    modify (λ i. record i {
      restarts = i.restarts + 1;
      has_reservation = supports_reserve inf.supported_cmds;
    })
    if supports_reserve inf.supported_cmds
        then reserve_log
        else modify (λ i. record i { reservation = none })
    modify (λ i. record i { next_id = some first_id; scanned = [] })
    pure (again_at first_id)

  -- The record is gone: start again from the first one, twice at most.
  pub restart : ℕ → IpmiError → M Visit
  unfolding read_info rescan
  restart id error = do
    inf ← read_info
    i ← get
    if inf.entries == 0
        then pure finish
        else if id == first_id || leb 2 i.restarts
        then fail (entry error)
        else rescan inf

  pub on_read_error : ℕ → SelIterError → M Visit
  unfolding restart
  on_read_error id (entry (failed requested_datapoint_not_present)) =
      restart id (failed requested_datapoint_not_present)
  on_read_error id e = fail e

  -- What is wrong with a record that was read, if anything.
  pub entry_error : ℕ → EntryInfo → SelIter → Option SelIterError
  entry_error id e i =
      if e.record_id == first_id || e.record_id == last_id
      then some (invalid_record_id e.record_id)
      else if not (id == first_id) && not (e.record_id == id)
      then some (record_changed id e.record_id)
      else if e.next_entry == first_id
      then some (invalid_record_id e.next_entry)
      else if e.next_entry == e.record_id
      then some (record_cycle e.record_id)
      else if contains i.scanned e.record_id
      then some (record_cycle e.record_id)
      else none

  -- The record counts as scanned, and is emitted if it was not before.
  pub keep_entry : EntryInfo → M Visit
  keep_entry e s =
      let i = record s.1 { scanned = e.record_id ∷ s.1.scanned; next_id = some e.next_entry } in
      if contains i.seen e.record_id
      then ((s.0, i), ok (again_at e.next_entry))
      else ((s.0, record i { seen = e.record_id ∷ i.seen }), ok (emit e))

  pub take_entry : ℕ → EntryInfo → M Visit
  take_entry id e s = elim (entry_error id e s.1) [ some x ↦ (s, err x) | none ↦ keep_entry e s ]

  abbrev pub after_read :
      ℕ → (W × SelIter) × Result SelIterError EntryInfo → (W × SelIter) × Result SelIterError Visit
  after_read id (s, ok e) = take_entry id e s
  after_read id (s, err e) = on_read_error id e s

  pub visit : ℕ → M Visit
  visit id s =
      if id == last_id
      then (s, ok finish)
      else if leb s.1.max_entries (length s.1.seen)
      then (s, err (entry_limit s.1.max_entries))
      else if not (id == first_id) && contains s.1.scanned id
      then (s, err (record_cycle id))
      else after_read id (read id s)

  abbrev pub finished_with : W × SelIter → Item → Option ((W × SelIter) × Item)
  finished_with s x = some ((s.0, record s.1 { finished = true }), x)

  -- `again` is the rest of the loop.
  abbrev pub settle :
      (ℕ → W × SelIter → Option ((W × SelIter) × Item))
      → (W × SelIter) × Result SelIterError Visit
      → Option ((W × SelIter) × Item)
  settle again (s, err e) = finished_with s (failure e)
  settle again (s, ok finish) = finished_with s end
  settle again (s, ok (emit e)) = some (s, item e)
  settle again (s, ok (again_at id)) = again id s

  -- `loop { .. }` on fuel; `none` means that it ran out.
  pub loop : ℕ → ℕ → W × SelIter → Option ((W × SelIter) × Item)
  loop zero id s = none
  loop (suc fuel) id s = settle (loop fuel) (visit id s)

  -- The call from its `next_id` on.
  pub run : ℕ → Option ℕ → W × SelIter → Option ((W × SelIter) × Item)
  run fuel none s = settle (loop fuel) (start s)
  run fuel (some id) s = loop fuel id s

  pub next : ℕ → W × SelIter → Option ((W × SelIter) × Item)
  next fuel s = if s.1.finished then some (s, end) else run fuel s.1.next_id s
