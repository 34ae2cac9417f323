-- ===== src/Sel/Examples.antt =====
-- Concrete logs for the theorems on the traversal: one with one record, and an empty one.
use ipmi_rs.Connection.Channel.{channel_new}
use ipmi_rs.Base.{
  take, List, ◌++◌, drop, u16_le, ℕ, ◌≡◌, ◌<◌, refl, false, true, [], ◌∷◌, none, some, ok, arith,
  length,
}
use ipmi_rs.Sel.{
  Connection, SelInfo, SelIter, EntryInfo, Item, end, item, reserve, iter_new, next, run, start,
  loop, visit, read, take_entry, entry_error, keep_entry, contains, supports_reserve, reserve_log,
  read_info,
}
use ipmi_rs.Sel.Entry.{Entry, parse, entry_of, generator_of, record_type_of_u8}
use ipmi_rs.Sel.Commands.{add_entry_new, parse_get_entry, parse_alloc_info}
use ipmi_rs.Sel.Stored.{with_record_id, parse_get_entry-add_entry_new}
use ipmi_rs.Sel.Bounds.{Emits}
use ipmi_rs.Sel.Traversal.{next_total, next-Emits, next_fused}

abbrev info_of : ℕ → SelInfo
info_of n = record {
  version_maj = 1;
  version_min = 5;
  entries = n;
  bytes_free = 64;
  last_add_time = 0;
  last_del_time = 0;
  overflow = false;
  supported_cmds = reserve ∷ [];
}

abbrev power_on : EntryInfo
power_on = record { next_entry = 0xffff; record_id = 1; raw = [] }

-- A controller whose log has `n` records, all the same.
abbrev controller : ℕ → Connection (Unit {0})
controller n = record {
  check_budget = λ w. (w, none);
  get_sel_info = λ w. (w, ok (info_of n));
  reserve_sel = λ w. (w, ok 7);
  get_sel_entry = λ r id w. (w, ok power_on);
}

abbrev fresh : SelIter
fresh = record {
  next_id = none;
  reservation = none;
  has_reservation = false;
  seen = [];
  scanned = [];
  max_entries = 1;
  remaining_reads = 8;
  restarts = 0;
  finished = false;
}

fresh_new : iter_new 1 ≡ fresh
unfolding iter_new
fresh_new = refl

next_total_example :
    (r : (Unit {0} × SelIter) × Item) × (next (controller 1) 9 (tt, fresh) ≡ some r)
next_total_example = next_total (controller 1) 9 (tt, fresh) (omega arith)

abbrev emitted : SelIter
emitted = record fresh {
  next_id = some 0xffff;
  reservation = some 7;
  has_reservation = true;
  seen = 1 ∷ [];
  scanned = 1 ∷ [];
  remaining_reads = 7;
}

power_on_read : next (controller 1) 9 (tt, fresh) ≡ some ((tt, emitted), item power_on)
unfolding next run start loop visit read take_entry entry_error keep_entry contains supports_reserve
    reserve_log read_info
power_on_read = refl

next-Emits_example : Emits fresh emitted power_on × (length fresh.seen < fresh.max_entries)
next-Emits_example = next-Emits (controller 1) 9 (tt, fresh) (tt, emitted) power_on power_on_read

abbrev over : SelIter
over = record fresh { finished = true }

empty_read : next (controller 0) 9 (tt, fresh) ≡ some ((tt, over), end)
unfolding next run start read_info
empty_read = refl

next_fused_example : next (controller 0) 3 (tt, over) ≡ some ((tt, over), end)
next_fused_example = next_fused (controller 0) 9 3 (tt, fresh) (tt, over) end (λ e p. cc) empty_read

-- A record of an operating system event, and one of a vendor.
abbrev boot_event : List ℕ
boot_event = 0 ∷ 0 ∷ 2 ∷ 1 ∷ 2 ∷ 3 ∷ 4 ∷ 0x20 ∷ 0 ∷ 4 ∷ 0x1f ∷ 7 ∷ 0xef ∷ 0x41 ∷ 0x33 ∷ 0xff ∷ []

boot_event_added : add_entry_new boot_event ≡ ok boot_event
unfolding add_entry_new parse entry_of generator_of record_type_of_u8 channel_new
boot_event_added = refl

parse_get_entry-add_entry_new_example :
    (boot_event ≡ boot_event)
    × (take 2 boot_event ≡ 0 ∷ 0 ∷ [])
    × ((e : Entry) × ((parse boot_event ≡ ok e)
          × (parse_get_entry (u16_le 0xffff ++ (u16_le 5 ++ drop 2 boot_event))
              ≡ ok (record {
                next_entry = 0xffff;
                entry = with_record_id 5 e;
                raw = u16_le 5 ++ drop 2 boot_event;
              }))))
parse_get_entry-add_entry_new_example =
    parse_get_entry-add_entry_new boot_event boot_event 5 0xffff boot_event_added (omega arith)
      (omega arith)

-- On eight bytes the reader of the allocation reads the ninth.
alloc_info_panic : parse_alloc_info (1 ∷ 0 ∷ 1 ∷ 0 ∷ 1 ∷ 0 ∷ 1 ∷ 0 ∷ []) ≡ none
unfolding parse_alloc_info
alloc_info_panic = refl
