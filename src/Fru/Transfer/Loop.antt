-- ===== src/Fru/Transfer/Loop.antt =====
-- The loop of a FRU read: it ends, and it returns what the device holds.
use ipmi_rs.Base.{
  ℕ, zero, suc, ◌+◌, ◌-◌, ◌≤◌, ◌<◌, ◌≡◌, refl, List, ◌++◌, Option, some, Result, ok, err, ltb,
  length, arith, length-append, Bool-cases, inl, inr,
}
use ipmi_rs.Fru.Commands.{
  FruInfo, FruCommandError, ReadFruData, ReadFruDataResponse, read_new, read_verify,
}
use ipmi_rs.Fru.Transfer.{
  FruDevice, Connection, IpmiError, FruReadError, Turn, extend, shrink, give_up, on_answer,
  on_verified, read_command, send_read, resume, read_turn, read_loop,
}

-- A turn goes on with at least one more byte and no more than are wanted, or with a smaller chunk
-- size, which still is a unit of the device.
pub record Moves (info : FruInfo) (chunk_size offset : ℕ) (t : Turn) : Type 0 where
  pub more :
      (bytes : List ℕ) → t ≡ extend bytes → (1 ≤ length bytes) × (offset + length bytes ≤ info.size)
  pub less : (size : ℕ) → t ≡ shrink size → (1 ≤ size) × (size < chunk_size) × (size ≤ 16)

on_answer-Moves :
    (info : FruInfo) (chunk_size offset : ℕ) (cmd : ReadFruData)
    (r : Result IpmiError ReadFruDataResponse)
    → 1 ≤ cmd.count
    → offset + cmd.count ≤ info.size
    → chunk_size ≤ 16
    → Moves info chunk_size offset (on_answer info chunk_size cmd r)
unfolding on_answer read_verify on_verified
on_answer-Moves info chunk_size offset cmd (ok r) some_count fits small = ground arith
on_answer-Moves info chunk_size offset cmd (err e) some_count fits small = ground arith

pub read_command_lem :
    (device : FruDevice) (info : FruInfo) (chunk_size offset : ℕ) (cmd : ReadFruData)
    → offset < info.size
    → info.size < 65536
    → 1 ≤ chunk_size
    → chunk_size ≤ 16
    → read_command device info chunk_size offset ≡ ok cmd
    → (cmd.offset ≡ offset) × (1 ≤ cmd.count) × (offset + cmd.count ≤ info.size)
unfolding read_new
read_command_lem device info chunk_size offset cmd within size some_chunk small e = ground arith

-- The rest of the loop, as `resume` takes it.
abbrev pub Rest : Type 0 → Type 0
Rest W = ℕ → List ℕ → W → Option (W × Result FruReadError (List ℕ))

pub resume_total :
    {W : Type 0} (again : Rest W) (info : FruInfo) (chunk_size : ℕ) (bytes : List ℕ) (x : W × Turn)
    → Moves info chunk_size (length bytes) x.1
    → chunk_size ≤ 16
    → 1 ≤ chunk_size
    → ((s : ℕ) (more : List ℕ)
        → 1 ≤ s
        → s ≤ 16
        → info.size - length more + s < info.size - length bytes + chunk_size
        → (r : W × Result FruReadError (List ℕ)) × (again s more x.0 ≡ some r))
    → (r : W × Result FruReadError (List ℕ)) × (resume again chunk_size bytes x ≡ some r)
unfolding resume
resume_total again info chunk_size bytes (w, extend more) m small some_chunk ih =
    let p = m.more more refl in
    ih chunk_size (bytes ++ more) some_chunk small
      (omega (arith, length-append bytes more, p.0, p.1))
resume_total again info chunk_size bytes (w, shrink size) m small some_chunk ih =
    let p = m.less size refl in ih size bytes p.0 p.2 (omega (arith, p.1))
resume_total again info chunk_size bytes (w, give_up e) m small some_chunk ih = (_, refl)

module _ {W : Type 0} (c : Connection W) (device : FruDevice) (info : FruInfo) where
  send_read-Moves :
      (chunk_size offset : ℕ) (w : W) (r : Result FruCommandError ReadFruData)
      → ((cmd : ReadFruData)
          → r ≡ ok cmd
          → (cmd.offset ≡ offset) × (1 ≤ cmd.count) × (offset + cmd.count ≤ info.size))
      → chunk_size ≤ 16
      → Moves info chunk_size offset (send_read c device info chunk_size w r).1
  unfolding send_read
  send_read-Moves chunk_size offset w (err e) h small = record {
    more = λ bytes e. cc;
    less = λ size e. cc;
  }
  send_read-Moves chunk_size offset w (ok cmd) h small =
      on_answer-Moves info chunk_size offset cmd (c.read_data cmd w).1 (h cmd refl).1 (h cmd refl).2
        small

  pub read_turn-Moves :
      (chunk_size offset : ℕ) (w : W)
      → offset < info.size
      → info.size < 65536
      → 1 ≤ chunk_size
      → chunk_size ≤ 16
      → Moves info chunk_size offset (read_turn c device info chunk_size offset w).1
  unfolding read_turn
  read_turn-Moves chunk_size offset w within size some_chunk small =
      send_read-Moves chunk_size offset w (read_command device info chunk_size offset)
        (λ cmd e. read_command_lem device info chunk_size offset cmd within size some_chunk small e)
        small

  -- Enough fuel for the bytes that are left and for every shrink gives a result.
  pub read_loop_total :
      (fuel chunk_size : ℕ) (bytes : List ℕ) (w : W)
      → info.size < 65536
      → 1 ≤ chunk_size
      → chunk_size ≤ 16
      → info.size - length bytes + chunk_size < fuel
      → (r : W × Result FruReadError (List ℕ)) × (read_loop c device info fuel chunk_size bytes w
          ≡ some r)
  unfolding read_loop
  read_loop_total zero chunk_size bytes w size some_chunk small h = absurd (omega arith)
  read_loop_total (suc fuel) chunk_size bytes w size some_chunk small h =
      elim (Bool-cases (ltb (length bytes) info.size)) [
        | inr over ↦ ((w, ok bytes), rw over refl)
        | inl within ↦ rw within (
            resume_total (read_loop c device info fuel) info chunk_size bytes
              (read_turn c device info chunk_size (length bytes) w)
              (read_turn-Moves chunk_size (length bytes) w (ground arith) size some_chunk small)
              small some_chunk
              (λ s more p q less.
                read_loop_total fuel s more (read_turn c device info chunk_size (length bytes) w).0
                  size p q (omega arith)))
      ]
