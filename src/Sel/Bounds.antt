-- ===== src/Sel/Bounds.antt =====
-- What the traversal of the System Event Log may spend and emit.
use ipmi_rs.Base.{
  ℕ, ◌+◌, ◌-◌, ◌≤◌, ◌<◌, ◌≡◌, ◌≢◌, sym, ap, ◌∙◌, false, ◌∷◌, none, some, Result, ok, err, length,
  arith,
}
use ipmi_rs.Sel.{
  Connection, SelIter, SelInfo, EntryInfo, IpmiError, SelIterError, read_limit, M, check, send,
  reserve_log, read_info, read_turn, read, Visit, emit, again_at, start, rescan, restart,
  on_read_error, take_entry, keep_entry, visit, contains, supports_reserve, after_read, check_stop,
}

-- From `i` to `j` nothing was emitted, the limits are the same, and the reads only shrink.
pub record Keeps (i j : SelIter) : Type 0 where
  pub seen : j.seen ≡ i.seen
  pub max_entries : j.max_entries ≡ i.max_entries
  pub finished : j.finished ≡ i.finished
  pub reads : j.remaining_reads ≤ i.remaining_reads

-- How an entry is emitted: it is new, it counts, and there was room for it.
pub record Emits (i j : SelIter) (e : EntryInfo) : Type 0 where
  pub new : contains i.seen e.record_id ≡ false
  pub seen : j.seen ≡ e.record_id ∷ i.seen
  pub max_entries : j.max_entries ≡ i.max_entries
  pub finished : j.finished ≡ i.finished

module _ {W : Type 0} (c : Connection W) where
  check_iter : (s : W × SelIter) → (check c s).0.1 ≡ s.1
  unfolding check check_stop
  check_iter s = ground arith

  send_iter :
      {A : Type 0} (command : W → W × Result IpmiError A) (s : W × SelIter)
      → (send c command s).0.1 ≡ s.1
  unfolding send check check_stop
  send_iter command s = ground arith

  reserve_log-Keeps : (s : W × SelIter) → Keeps s.1 (reserve_log c s).0.1
  unfolding reserve_log
  reserve_log-Keeps s = ground (arith, send_iter c.reserve_sel s)

  read_info_iter : (s : W × SelIter) → (read_info c s).0.1 ≡ s.1
  unfolding read_info
  read_info_iter s = ground (arith, send_iter c.get_sel_info s)

  -- A read of one record: it spends a read, or there was none left.
  pub record Reads (i : SelIter) (x : (W × SelIter) × Result SelIterError EntryInfo) : Type 0 where
    pub keeps : Keeps i x.0.1
    pub spent : 0 < i.remaining_reads → x.0.1.remaining_reads < i.remaining_reads
    pub out : i.remaining_reads ≡ 0 → x.1 ≡ err read_limit

  -- The state after a read is counted, and what is received then.
  abbrev counted : W × SelIter → W × SelIter
  counted s = (s.0, record s.1 { remaining_reads = s.1.remaining_reads - 1 })

  abbrev received :
      ℕ → W × SelIter → (W × SelIter) × Result SelIterError (Result IpmiError EntryInfo)
  received id s = send c (c.get_sel_entry s.1.reservation id) (counted s)

  read_last : (id : ℕ) (s : W × SelIter) → Reads s.1 (read_turn c none id s)
  unfolding read_turn
  read_last id s = ground (arith, send_iter (c.get_sel_entry s.1.reservation id) (counted s))

  read_turn-Reads :
      (again : M c EntryInfo) (id : ℕ)
      → ((s : W × SelIter) → Keeps s.1 (again s).0.1)
      → (s : W × SelIter) → Reads s.1 (read_turn c (some again) id s)
  unfolding read_turn
  read_turn-Reads again id keeps s = ground (
    arith,
    send_iter (c.get_sel_entry s.1.reservation id) (counted s),
    reserve_log-Keeps (received id s).0,
    keeps (reserve_log c (received id s).0).0,
  )

  read-Reads : (id : ℕ) (s : W × SelIter) → Reads s.1 (read c id s)
  unfolding read
  read-Reads id s =
      read_turn-Reads (read_turn c (some (read_turn c none id)) id) id
        (λ t. (read_turn-Reads (read_turn c none id) id (λ u. (read_last id u).keeps) t).keeps) s

  pub start-Keeps :
      (s : W × SelIter)
      → Keeps s.1 (start c s).0.1 × ((e : EntryInfo) → (start c s).1 ≢ ok (emit e))
  unfolding start
  start-Keeps s =
      let x = read_info c s in
      ground (
        arith,
        read_info_iter s,
        λ (inf : SelInfo).
            reserve_log-Keeps
              (x.0.0, record x.0.1 { has_reservation = supports_reserve inf.supported_cmds }),
      )

  rescan-Keeps :
      (inf : SelInfo) (s : W × SelIter)
      → Keeps s.1 (rescan c inf s).0.1 × ((e : EntryInfo) → (rescan c inf s).1 ≢ ok (emit e))
  unfolding rescan
  rescan-Keeps inf s = ground (
    arith,
    reserve_log-Keeps (
      s.0,
      record s.1 {
        restarts = s.1.restarts + 1;
        has_reservation = supports_reserve inf.supported_cmds;
      },
    ),
  )

  restart-Keeps :
      (id : ℕ) (error : IpmiError) (s : W × SelIter)
      → Keeps s.1 (restart c id error s).0.1
        × ((e : EntryInfo) → (restart c id error s).1 ≢ ok (emit e))
  unfolding restart
  restart-Keeps id error s =
      ground (arith, read_info_iter s, λ (inf : SelInfo). rescan-Keeps inf (read_info c s).0)

  on_read_error-Keeps :
      (id : ℕ) (error : SelIterError) (s : W × SelIter)
      → Keeps s.1 (on_read_error c id error s).0.1
        × ((e : EntryInfo) → (on_read_error c id error s).1 ≢ ok (emit e))
  unfolding on_read_error
  on_read_error-Keeps id error s = ground (arith, λ (x : IpmiError). restart-Keeps id x s)

  keep_entry-again :
      (e : EntryInfo) (s : W × SelIter) (n : ℕ)
      → (keep_entry c e s).1 ≡ ok (again_at n)
      → Keeps s.1 (keep_entry c e s).0.1
  unfolding keep_entry
  keep_entry-again e s n h = ground arith

  keep_entry-Emits :
      (e x : EntryInfo) (s : W × SelIter)
      → (keep_entry c e s).1 ≡ ok (emit x)
      → Emits s.1 (keep_entry c e s).0.1 x
  unfolding keep_entry
  keep_entry-Emits e x s h = ground arith

  take_entry-again :
      (id : ℕ) (e : EntryInfo) (s : W × SelIter) (n : ℕ)
      → (take_entry c id e s).1 ≡ ok (again_at n)
      → Keeps s.1 (take_entry c id e s).0.1
  unfolding take_entry
  take_entry-again id e s n h = ground (arith, keep_entry-again e s n)

  take_entry-Emits :
      (id : ℕ) (e x : EntryInfo) (s : W × SelIter)
      → (take_entry c id e s).1 ≡ ok (emit x)
      → Emits s.1 (take_entry c id e s).0.1 x
  unfolding take_entry
  take_entry-Emits id e x s h = ground (arith, keep_entry-Emits e x s)

  abbrev visited : ℕ → W × SelIter → (W × SelIter) × Result SelIterError (Visit c)
  visited id s = after_read c id (read c id s)

  no_reads :
      (id : ℕ) (s : W × SelIter)
      → s.1.remaining_reads ≡ 0
      → (n : ℕ) → (visited id s).1 ≢ ok (again_at n)
  unfolding on_read_error
  no_reads id s none_left n = ground (arith, (read-Reads id s).out none_left)

  after_read-Keeps :
      (id n : ℕ) (x : (W × SelIter) × Result SelIterError EntryInfo)
      → (after_read c id x).1 ≡ ok (again_at n)
      → Keeps x.0.1 (after_read c id x).0.1
  after_read-Keeps id n (s, ok e) h = take_entry-again id e s n h
  after_read-Keeps id n (s, err y) h = (on_read_error-Keeps id y s).0

  after_read-Emits :
      (id : ℕ) (e : EntryInfo) (x : (W × SelIter) × Result SelIterError EntryInfo)
      → (after_read c id x).1 ≡ ok (emit e)
      → Emits x.0.1 (after_read c id x).0.1 e
  after_read-Emits id e (s, ok y) h = take_entry-Emits id y e s h
  after_read-Emits id e (s, err y) h = absurd ((on_read_error-Keeps id y s).1 e h)

  visited-Shrinks :
      (id n : ℕ) (s : W × SelIter)
      → (visited id s).1 ≡ ok (again_at n)
      → Keeps s.1 (visited id s).0.1 × ((visited id s).0.1.remaining_reads < s.1.remaining_reads)
  visited-Shrinks id n s h =
      let r = read-Reads id s in
      let k = after_read-Keeps id n (read c id s) h in
      let some_left : 0 < s.1.remaining_reads =
        ground (arith, λ (z : s.1.remaining_reads ≡ 0). no_reads id s z n h) in
      (
        record {
          seen = k.seen ∙ r.keeps.seen;
          max_entries = k.max_entries ∙ r.keeps.max_entries;
          finished = k.finished ∙ r.keeps.finished;
          reads = omega (arith, k.reads, r.keeps.reads);
        },
        omega (arith, k.reads, r.spent some_left),
      )

  visited-Emits :
      (id : ℕ) (e : EntryInfo) (s : W × SelIter)
      → (visited id s).1 ≡ ok (emit e)
      → Emits s.1 (visited id s).0.1 e
  visited-Emits id e s h =
      let r = (read-Reads id s).keeps in
      let m = after_read-Emits id e (read c id s) h in
      record {
        new = ap (λ l. contains l e.record_id) (sym r.seen) ∙ m.new;
        seen = m.seen ∙ ap (λ l. e.record_id ∷ l) r.seen;
        max_entries = m.max_entries ∙ r.max_entries;
        finished = m.finished ∙ r.finished;
      }

  pub visit-again :
      (id : ℕ) (s : W × SelIter) (n : ℕ)
      → (visit c id s).1 ≡ ok (again_at n)
      → Keeps s.1 (visit c id s).0.1 × ((visit c id s).0.1.remaining_reads < s.1.remaining_reads)
  unfolding visit
  visit-again id s n h = ground (arith, visited-Shrinks id n s)

  pub visit-Emits :
      (id : ℕ) (s : W × SelIter) (e : EntryInfo)
      → (visit c id s).1 ≡ ok (emit e)
      → Emits s.1 (visit c id s).0.1 e × (length s.1.seen < s.1.max_entries)
  unfolding visit
  visit-Emits id s e h = ground (arith, visited-Emits id e s)
