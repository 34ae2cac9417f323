-- ===== src/Sel/Stored.antt =====
-- What is read of a record that was added.
use ipmi_rs.Base.{
  take, ℕ, ◌/◌, ◌%◌, ◌≡◌, refl, ap, ◌∙◌, false, Result, List, [], ◌∷◌, ◌++◌, ok, map_err-ok,
  bind_ok, reject_if-ok, ok_cancel, sym, map_err, ltb, ◌!=◌, length, get_or, drop, of_le2, u16_le,
  of_le2-u16_le, IsU16, arith,
}
use mathlib.Core.Path.{subst}
use ipmi_rs.Sel.Entry.{
  Entry, ParseEntryError, RecordType, system_type, timestamped_oem_type, non_timestamped_oem_type,
  unknown_type, record_type_of_u8, system, oem_timestamped, oem_not_timestamped, unknown,
  generator_of, system_event_of, entry_of, parse,
}
use ipmi_rs.Sel.Commands.{EntryInfo, add_entry_new, invalid_entry, parse_get_entry}

-- The same record under another number.
pub with_record_id : ℕ → Entry → Entry
with_record_id id (system _ e) = system id e
with_record_id id (oem_timestamped _ ty t m bytes) = oem_timestamped id ty t m bytes
with_record_id id (oem_not_timestamped _ ty bytes) = oem_not_timestamped id ty bytes
with_record_id id (unknown _ ty bytes) = unknown id ty bytes

renumbered :
    {x e : Entry} {r : Result ParseEntryError Entry} (id : ℕ)
    → r ≡ ok x
    → r ≡ ok e
    → with_record_id id x ≡ with_record_id id e
renumbered id h k = ap (with_record_id id) (ok_cancel h k)

entry_of-with_record_id :
    (a b c d id again : ℕ) (t : RecordType) (rest : List ℕ) (e : Entry)
    → entry_of id t (a ∷ b ∷ rest) ≡ ok e
    → entry_of again t (c ∷ d ∷ rest) ≡ ok (with_record_id again e)
unfolding entry_of with_record_id system_event_of
entry_of-with_record_id a b c d id again system_type rest e h =
    let (g, pq) = bind_ok (generator_of (get_or rest 5 0) (get_or rest 6 0)) _ e h in
    let read : entry_of again system_type (c ∷ d ∷ rest)
        ≡ ok (system again (system_event_of g (c ∷ d ∷ rest))) =
      rw (pq.0) in
    read ∙ ap ok (renumbered again refl pq.1)
entry_of-with_record_id a b c d id again (timestamped_oem_type v) rest e h =
    ap ok (renumbered again refl h)
entry_of-with_record_id a b c d id again (non_timestamped_oem_type v) rest e h =
    ap ok (renumbered again refl h)
entry_of-with_record_id a b c d id again (unknown_type v) rest e h = ap ok (renumbered again refl h)

parse-with_record_id :
    (a b c d : ℕ) (rest : List ℕ) (e : Entry)
    → parse (a ∷ b ∷ rest) ≡ ok e
    → parse (c ∷ d ∷ rest) ≡ ok (with_record_id (of_le2 c d) e)
unfolding parse
parse-with_record_id a b c d rest e h =
    let (short, h1) = reject_if-ok (ltb (length (a ∷ b ∷ rest)) 16) _ _ e h in
    let (long, h2) = reject_if-ok (length (a ∷ b ∷ rest) != 16) _ _ e h1 in
    let made =
      entry_of-with_record_id a b c d (of_le2 a b) (of_le2 c d)
        (record_type_of_u8 (get_or rest 0 0)) rest e h2 in
    rw (short, long, made)

read_as : List ℕ → Entry → ℕ → ℕ → Result ParseEntryError EntryInfo
read_as raw e next id = ok (record { next_entry = next; entry = with_record_id id e; raw = raw })

parse_get_entry-parse :
    (x y c d : ℕ) (rest : List ℕ) (e : Entry)
    → (length (c ∷ d ∷ rest) != 16) ≡ false
    → parse (c ∷ d ∷ rest) ≡ ok e
    → parse_get_entry (x ∷ y ∷ c ∷ d ∷ rest)
      ≡ ok (record { next_entry = of_le2 x y; entry = e; raw = c ∷ d ∷ rest })
unfolding parse_get_entry
parse_get_entry-parse x y c d rest e sized h =
    let long : ltb (length (x ∷ y ∷ c ∷ d ∷ rest)) 2 ≡ false = ground arith in rw (long, h, sized)

-- A record that is accepted for adding is sent as it is, and its number is zero; when it is read back under
-- the number that the controller gave it, with the next record's, its fields are the ones it was accepted
-- with, and its bytes are those that were sent, but for the number.
pub parse_get_entry-add_entry_new :
    (bytes sent : List ℕ) (id next : ℕ)
    → add_entry_new bytes ≡ ok sent
    → IsU16 id
    → IsU16 next
    → (sent ≡ bytes)
      × (take 2 sent ≡ 0 ∷ 0 ∷ [])
      × ((e : Entry) × ((parse sent ≡ ok e)
            × (parse_get_entry (u16_le next ++ (u16_le id ++ drop 2 sent))
                ≡ ok (record {
                  next_entry = next;
                  entry = with_record_id id e;
                  raw = u16_le id ++ drop 2 sent;
                }))))
unfolding add_entry_new read_as
parse_get_entry-add_entry_new [] sent id next h hi hn = absurd cc
parse_get_entry-add_entry_new (a ∷ []) sent id next h hi hn = absurd cc
parse_get_entry-add_entry_new (a ∷ b ∷ rest) sent id next h hi hn =
    let bytes = a ∷ b ∷ rest in
    let (sized, h1) = reject_if-ok (length bytes != 16) _ _ sent h in
    let (numbered, h2) = reject_if-ok (of_le2 a b != 0) _ _ sent h1 in
    let nothing : of_le2 a b ≡ 0 = ground (arith, numbered) in
    let zeros : a ∷ b ∷ [] ≡ 0 ∷ 0 ∷ [] =
      cc (let x : a ≡ 0 = omega arith in x, let y : b ≡ 0 = omega arith in y) in
    let (e, hs) = bind_ok (map_err invalid_entry (parse bytes)) _ sent h2 in
    let accepted = map_err-ok invalid_entry (parse bytes) e hs.0 in
    let same : sent ≡ bytes = sym (ok_cancel refl hs.1) in
    let again = parse-with_record_id a b (id % 256) (id / 256 % 256) rest e accepted in
    subst
      (λ s.
        (s ≡ bytes)
        × (take 2 s ≡ 0 ∷ 0 ∷ [])
        × ((x : Entry) × ((parse s ≡ ok x)
              × (parse_get_entry (u16_le next ++ (u16_le id ++ drop 2 s))
                  ≡ ok (record {
                    next_entry = next;
                    entry = with_record_id id x;
                    raw = u16_le id ++ drop 2 s;
                  })))))
      (sym same)
      (
        refl,
        zeros,
        (
          e,
          (
            accepted,
            parse_get_entry-parse (next % 256) (next / 256 % 256) (id % 256) (id / 256 % 256) rest
                  (with_record_id (of_le2 (id % 256) (id / 256 % 256)) e) sized again
                ∙ ap (λ n. read_as (u16_le id ++ rest) e n (of_le2 (id % 256) (id / 256 % 256)))
                    (of_le2-u16_le next hn)
                ∙ ap (read_as (u16_le id ++ rest) e next) (of_le2-u16_le id hi),
          ),
        ),
      )
