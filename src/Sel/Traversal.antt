-- ===== src/Sel/Traversal.antt =====
-- The whole traversal of the System Event Log: it ends, emits each record once, and is fused.
use ipmi_rs.Base.{
  ℕ, zero, suc, ◌<◌, ◌≡◌, ◌≢◌, refl, sym, ap, ◌∙◌, true, List, ◌∷◌, Option, none, some, Result, ok,
  err, length, arith, Bool-cases, inl, inr,
}
use ipmi_rs.Sel.{
  Connection, SelIter, EntryInfo, SelIterError, Item, end, item, Visit, finish, emit, again_at,
  start, visit, loop, run, next, settle, contains,
}
use ipmi_rs.Sel.Bounds.{Keeps, Emits, start-Keeps, visit-again, visit-Emits}

Keeps-Emits :
    (i j k : SelIter) (e : EntryInfo)
    → Keeps i j
    → Emits j k e × (length j.seen < j.max_entries)
    → Emits i k e × (length i.seen < i.max_entries)
Keeps-Emits i j k e a b = (
  record {
    new = ap (λ l. contains l e.record_id) (sym a.seen) ∙ b.0.new;
    seen = b.0.seen ∙ ap (λ l. e.record_id ∷ l) a.seen;
    max_entries = b.0.max_entries ∙ a.max_entries;
    finished = b.0.finished ∙ a.finished;
  },
  subst2 a.seen a.max_entries b.1,
)
  where
    subst2 : {l m : List ℕ} {n o : ℕ} → l ≡ m → n ≡ o → length l < n → length m < o
    subst2 p q h = rw (← p, ← q) h

module _ {W : Type 0} (c : Connection W) where
  -- The rest of the loop, and what it answers.
  abbrev Rest : Type 0
  Rest = ℕ → W × SelIter → Option ((W × SelIter) × Item)

  settle_total :
      (again : Rest) (x : (W × SelIter) × Result SelIterError (Visit c))
      → ((n : ℕ) → x.1 ≡ ok (again_at n) → (r : (W × SelIter) × Item) × (again n x.0 ≡ some r))
      → (r : (W × SelIter) × Item) × (settle c again x ≡ some r)
  settle_total again (s, err y) h = (_, refl)
  settle_total again (s, ok finish) h = (_, refl)
  settle_total again (s, ok (emit e)) h = (_, refl)
  settle_total again (s, ok (again_at n)) h = h n refl

  loop_total :
      (fuel id : ℕ) (s : W × SelIter)
      → s.1.remaining_reads < fuel
      → (r : (W × SelIter) × Item) × (loop c fuel id s ≡ some r)
  unfolding loop
  loop_total zero id s h = absurd (omega arith)
  loop_total (suc fuel) id s h =
      settle_total (loop c fuel) (visit c id s)
        (λ n e. loop_total fuel n (visit c id s).0 (omega (arith, (visit-again c id s n e).1)))

  run_total :
      (fuel : ℕ) (o : Option ℕ) (s : W × SelIter)
      → s.1.remaining_reads < fuel
      → (r : (W × SelIter) × Item) × (run c fuel o s ≡ some r)
  unfolding run
  run_total fuel none s h =
      settle_total (loop c fuel) (start c s)
        (λ n e. loop_total fuel n (start c s).0 (omega (arith, (start-Keeps c s).0.reads)))
  run_total fuel (some id) s h = loop_total fuel id s h

  -- With more fuel than there are reads left, every call returns: the loop always ends.
  pub next_total :
      (fuel : ℕ) (s : W × SelIter)
      → s.1.remaining_reads < fuel
      → (r : (W × SelIter) × Item) × (next c fuel s ≡ some r)
  unfolding next
  next_total fuel s h =
      let (r, e) = run_total fuel s.1.next_id s h in
      elim (Bool-cases s.1.finished) [
        | inl over ↦ ((s, end), ground (arith, over))
        | inr running ↦ (r, ground (arith, running, e))
      ]

  -- The answer `item e` of a loop.
  settle-item :
      (again : Rest) (i : SelIter) (t : W × SelIter) (e : EntryInfo)
      (x : (W × SelIter) × Result SelIterError (Visit c))
      → ((y : EntryInfo) → x.1 ≡ ok (emit y) → Emits i x.0.1 y × (length i.seen < i.max_entries))
      → ((n : ℕ)
          → x.1 ≡ ok (again_at n)
          → again n x.0 ≡ some (t, item e)
          → Emits i t.1 e × (length i.seen < i.max_entries))
      → settle c again x ≡ some (t, item e)
      → Emits i t.1 e × (length i.seen < i.max_entries)
  settle-item again i t e (s, err y) f g h = cc
  settle-item again i t e (s, ok finish) f g h = cc
  settle-item again i t e (s, ok (emit y)) f g h = ground (arith, f y refl)
  settle-item again i t e (s, ok (again_at n)) f g h = g n refl h

  loop-Emits :
      (fuel id : ℕ) (s t : W × SelIter) (e : EntryInfo)
      → loop c fuel id s ≡ some (t, item e)
      → Emits s.1 t.1 e × (length s.1.seen < s.1.max_entries)
  unfolding loop
  loop-Emits zero id s t e h = cc
  loop-Emits (suc fuel) id s t e h =
      settle-item (loop c fuel) s.1 t e (visit c id s) (visit-Emits c id s)
        (λ n again g.
          Keeps-Emits s.1 (visit c id s).0.1 t.1 e (visit-again c id s n again).0
            (loop-Emits fuel n (visit c id s).0 t e g))
        h

  run-Emits :
      (fuel : ℕ) (o : Option ℕ) (s t : W × SelIter) (e : EntryInfo)
      → run c fuel o s ≡ some (t, item e)
      → Emits s.1 t.1 e × (length s.1.seen < s.1.max_entries)
  unfolding run
  run-Emits fuel none s t e h =
      settle-item (loop c fuel) s.1 t e (start c s)
        (λ y emits. absurd ((start-Keeps c s).1 y emits))
        (λ n again g.
          Keeps-Emits s.1 (start c s).0.1 t.1 e (start-Keeps c s).0
            (loop-Emits fuel n (start c s).0 t e g))
        h
  run-Emits fuel (some id) s t e h = loop-Emits fuel id s t e h

  -- A record that is emitted was not emitted before, is remembered as emitted, and is within the
  -- caller's limit.
  pub next-Emits :
      (fuel : ℕ) (s t : W × SelIter) (e : EntryInfo)
      → next c fuel s ≡ some (t, item e)
      → Emits s.1 t.1 e × (length s.1.seen < s.1.max_entries)
  unfolding next
  next-Emits fuel s t e h = ground (arith, run-Emits fuel s.1.next_id s t e)

  settle-over :
      (again : Rest) (t : W × SelIter) (a : Item)
      (x : (W × SelIter) × Result SelIterError (Visit c))
      → ((e : EntryInfo) → a ≢ item e)
      → ((n : ℕ) → again n x.0 ≡ some (t, a) → t.1.finished ≡ true)
      → settle c again x ≡ some (t, a)
      → t.1.finished ≡ true
  settle-over again t a (s, err y) quiet g h = ground arith
  settle-over again t a (s, ok finish) quiet g h = ground arith
  settle-over again t a (s, ok (emit e)) quiet g h = absurd (quiet e (cc h))
  settle-over again t a (s, ok (again_at n)) quiet g h = g n h

  loop-over :
      (fuel id : ℕ) (s t : W × SelIter) (a : Item)
      → ((e : EntryInfo) → a ≢ item e)
      → loop c fuel id s ≡ some (t, a)
      → t.1.finished ≡ true
  unfolding loop
  loop-over zero id s t a quiet h = cc
  loop-over (suc fuel) id s t a quiet h =
      settle-over (loop c fuel) t a (visit c id s) quiet
        (λ n. loop-over fuel n (visit c id s).0 t a quiet) h

  run-over :
      (fuel : ℕ) (o : Option ℕ) (s t : W × SelIter) (a : Item)
      → ((e : EntryInfo) → a ≢ item e)
      → run c fuel o s ≡ some (t, a)
      → t.1.finished ≡ true
  unfolding run
  run-over fuel none s t a quiet h =
      settle-over (loop c fuel) t a (start c s) quiet
        (λ n. loop-over fuel n (start c s).0 t a quiet) h
  run-over fuel (some id) s t a quiet h = loop-over fuel id s t a quiet h

  -- After an answer that is no record, an error or the end of the log, every call answers the end
  -- and changes nothing.
  pub next_fused :
      (fuel later : ℕ) (s t : W × SelIter) (a : Item)
      → ((e : EntryInfo) → a ≢ item e)
      → next c fuel s ≡ some (t, a)
      → next c later t ≡ some (t, end)
  unfolding next
  next_fused fuel later s t a quiet h = ground (arith, run-over fuel s.1.next_id s t a quiet)
