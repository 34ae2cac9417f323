-- ===== src/Fru/Transfer/Outcome.antt =====
-- What a FRU write leaves behind: the image, or a prefix of it of the length that its error names.
use ipmi_rs.Base.{
  ℕ, zero, suc, ◌+◌, ◌*◌, ◌%◌, ◌≤◌, ◌<◌, ◌≡◌, refl, sym, ap, ◌∙◌, false, List, [], ◌∷◌, ◌++◌, ◌!=◌,
  Result, ok, err, length, take, drop, arith, length-take, length-drop, take-add, take-length,
  take-append-drop, take-length-take, drop-drop, Bool-cases, Result-cases, inl, inr, min,
}
use ipmi_rs.Fru.Commands.{
  FruInfo, FruCommandError, WriteFruData, write_new, write_verify, unit, default_chunk_bytes,
  unaligned,
}
use ipmi_rs.Fru.Inventory.{FruParseError}
use ipmi_rs.Fru.Inventory.Image.{parse}
use ipmi_rs.Fru.Transfer.{
  FruDevice, Connection, IpmiError, FruWriteError, invalid_image, size_mismatch, invalid_transfer,
  outcome_unknown, outcome_unconfirmed, chunks, on_written, write_rest, send_write, write_turn,
  write_loop, write_fru_image, is_odd,
}

-- The whole of a list of chunks.
pub joined : List (List ℕ) → List ℕ
joined [] = []
joined (part ∷ parts) = part ++ joined parts

-- The chunks of an image make up the image, in order.
joined-chunks :
    (left : ℕ) (image : List ℕ) → length image ≤ left → joined (chunks left image) ≡ image
unfolding joined chunks
joined-chunks zero [] h = refl
joined-chunks zero (b ∷ bs) h = absurd (omega arith)
joined-chunks (suc left) [] h = refl
joined-chunks (suc left) (b ∷ bs) h =
    ap (λ t. take default_chunk_bytes (b ∷ bs) ++ t)
      (joined-chunks left (drop default_chunk_bytes (b ∷ bs))
        (omega (arith, length-drop default_chunk_bytes (b ∷ bs))))
    ∙ take-append-drop default_chunk_bytes (b ∷ bs)

-- A write to this device.
pub record IsWriteTo (device : FruDevice) (cmd : WriteFruData) : Type 0 where
  pub id : cmd.id ≡ device.id
  pub target : cmd.target ≡ device.target
  pub lun : cmd.lun ≡ device.lun

-- How the device stores: what it holds in a state of the world.
pub record Stores {W : Type 0} (c : Connection W) (device : FruDevice) (content : W → List ℕ)
    : Type 0 where
  -- A write that is answered with a count of units has put that much of its bytes in their place.
  pub confirmed :
      (cmd : WriteFruData) (w : W) (count : ℕ)
      → IsWriteTo device cmd
      → (c.write_data cmd w).1 ≡ ok count
      → count * unit cmd.access ≤ length cmd.payload
      → take (cmd.offset + count * unit cmd.access) (content (c.write_data cmd w).0)
        ≡ take cmd.offset (content w) ++ take (count * unit cmd.access) cmd.payload
  -- No write reaches below its offset, whatever becomes of it.
  pub below :
      (cmd : WriteFruData) (w : W)
      → IsWriteTo device cmd
      → take cmd.offset (content (c.write_data cmd w).0) ≡ take cmd.offset (content w)

-- What a write that ends so has done. The errors of the first three kinds come before any command.
pub data Outcome {W : Type 0} (content : W → List ℕ) (image : List ℕ) (w w' : W)
    : Result FruWriteError (Unit {0}) → Type 0 where
  written : take (length image) (content w') ≡ image → Outcome content image w w' (ok tt)
  other_size : w' ≡ w → Outcome content image w w' (err size_mismatch)
  bad_image : (e : FruParseError) → w' ≡ w → Outcome content image w w' (err (invalid_image e))
  bad_transfer :
      (e : FruCommandError) → w' ≡ w → Outcome content image w w' (err (invalid_transfer e))
  unknown :
      (offset : ℕ) (e : IpmiError)
      → offset < length image
      → take offset (content w') ≡ take offset image
      → Outcome content image w w' (err (outcome_unknown offset offset e))
  unconfirmed :
      (offset : ℕ) (e : FruCommandError)
      → offset < length image
      → take offset (content w') ≡ take offset image
      → Outcome content image w w' (err (outcome_unconfirmed offset offset e))

write_verify_lem :
    (cmd : WriteFruData) (count : ℕ)
    → write_verify cmd count ≡ ok tt
    → count * unit cmd.access ≡ length cmd.payload
unfolding write_verify
write_verify_lem cmd count v = ground arith

module _ {W : Type 0} (c : Connection W) (device : FruDevice) (info : FruInfo) where
  -- The command that writes a part at an offset.
  abbrev command_at : ℕ → List ℕ → WriteFruData
  command_at offset part = record {
    id = device.id;
    offset = offset;
    payload = part;
    access = info.access;
    target = device.target;
    lun = device.lun;
  }

  write_new-ok :
      (index : ℕ) (b : ℕ) (bs : List ℕ)
      → info.size < 65536
      → is_odd info.access info.size ≡ false
      → index * 16 + length (b ∷ bs) ≡ info.size
      → write_new device.id device.target device.lun info (index * 16 % 65536) (take 16 (b ∷ bs))
        ≡ ok (command_at (index * 16) (take 16 (b ∷ bs)))
  unfolding write_new
  write_new-ok index b bs size even fits = let n = length-take 16 (b ∷ bs) in ground (arith, n)

  module _ (content : W → List ℕ) (stores : Stores c device content) (image : List ℕ) (w₀ : W) where
    -- A write whose count passes the check has put all its bytes in their place.
    put :
        (cmd : WriteFruData) (w : W) (count : ℕ)
        → IsWriteTo device cmd
        → (c.write_data cmd w).1 ≡ ok count
        → write_verify cmd count ≡ ok tt
        → take (cmd.offset + length cmd.payload) (content (c.write_data cmd w).0)
          ≡ take cmd.offset (content w) ++ cmd.payload
    put cmd w count to q v =
        let n = write_verify_lem cmd count v in
        ap (λ k. take (cmd.offset + k) (content (c.write_data cmd w).0)) (sym n)
        ∙ stores.confirmed cmd w count to q (omega (arith, n))
        ∙ ap (λ k. take cmd.offset (content w) ++ take k cmd.payload) n
        ∙ ap (λ t. take cmd.offset (content w) ++ t) (take-length cmd.payload)

    -- After a part: the rest goes on if the part is confirmed, and else the outcome is not known.
    sent :
        (again : W → W × Result FruWriteError (Unit {0})) (w : W) (cmd : WriteFruData)
        (a : Result IpmiError ℕ)
        → IsWriteTo device cmd
        → (c.write_data cmd w).1 ≡ a
        → cmd.offset < length image
        → take cmd.offset (content w) ≡ take cmd.offset image
        → ((count : ℕ)
            → a ≡ ok count
            → write_verify cmd count ≡ ok tt
            → Outcome content image w₀
                (again (c.write_data cmd w).0).0
                (again (c.write_data cmd w).0).1)
        → let x =
            write_rest c device info again ((c.write_data cmd w).0, on_written cmd.offset cmd a) in
          Outcome content image w₀ x.0 x.1
    unfolding on_written
    sent again w cmd (err e) to q within same next =
        unknown cmd.offset e within (stores.below cmd w to ∙ same)
    sent again w cmd (ok count) to q within same next =
        elim (Result-cases (write_verify cmd count)) [
          | inl (u, v) ↦ rw v (next count refl v)
          | inr (x, v) ↦ rw v (unconfirmed cmd.offset x within (stores.below cmd w to ∙ same))
        ]

    -- How far the turn at `index` finds the image written.
    abbrev reached : ℕ → ℕ
    reached index = min (index * 16) (length image)

    -- The state at the start of a turn.
    record AtIndex (index : ℕ) (rest : List ℕ) (w : W) : Type 0 where
      held : take (reached index) (content w) ≡ take (reached index) image
      left : rest ≡ drop (index * 16) image

    ended : (index : ℕ) (w : W) → AtIndex index [] w → take (length image) (content w) ≡ image
    ended index w at =
        let n = ap length at.left ∙ length-drop (index * 16) image in
        let here : reached index ≡ length image = omega (arith, n) in
        ap (λ k. take k (content w)) (sym here)
        ∙ at.held
        ∙ ap (λ k. take k image) here
        ∙ take-length image

    confirmed-AtIndex :
        (index b : ℕ) (bs : List ℕ) (w : W) (count : ℕ)
        → AtIndex index (b ∷ bs) w
        → let cmd = command_at (index * 16) (take 16 (b ∷ bs)) in
          (c.write_data cmd w).1 ≡ ok count
          → write_verify cmd count ≡ ok tt
          → AtIndex (suc index) (drop 16 (b ∷ bs)) (c.write_data cmd w).0
    confirmed-AtIndex index b bs w count at q v =
        let cmd = command_at (index * 16) (take 16 (b ∷ bs)) in
        let n = ap length at.left ∙ length-drop (index * 16) image in
        let part = length-take 16 (b ∷ bs) in
        let here : reached index ≡ index * 16 = omega (arith, n) in
        let there : index * 16 + length (take 16 (b ∷ bs)) ≡ reached (suc index) =
          omega (arith, n, part) in
        record {
          held =
              ap (λ k. take k (content (c.write_data cmd w).0)) (sym there)
              ∙ put cmd w count (record { id = refl; target = refl; lun = refl }) q v
              ∙ ap (λ k. take k (content w) ++ take 16 (b ∷ bs)) (sym here)
              ∙ ap (λ t. t ++ take 16 (b ∷ bs)) at.held
              ∙ ap (λ k. take k image ++ take 16 (b ∷ bs)) here
              ∙ ap (λ t. take (index * 16) image ++ t)
                  (sym (take-length-take 16 (b ∷ bs))
                    ∙ ap (λ t. take (length (take 16 (b ∷ bs))) t) at.left)
              ∙ take-add (index * 16) (length (take 16 (b ∷ bs))) image
              ∙ ap (λ k. take k image) there;
          left =
              ap (drop 16) at.left
              ∙ drop-drop (index * 16) 16 image
              ∙ ap (λ k. drop k image)
                  (let e : index * 16 + 16 ≡ suc index * 16 = omega arith in e);
        }

    write_loop-Outcome :
        (left index : ℕ) (rest : List ℕ) (w : W)
        → info.size < 65536
        → is_odd info.access info.size ≡ false
        → length image ≡ info.size
        → length rest ≤ left
        → AtIndex index rest w
        → let x = write_loop c device info index (chunks left rest) w in
          Outcome content image w₀ x.0 x.1
    unfolding write_loop write_turn send_write chunks
    write_loop-Outcome zero index [] w size even fits h at = written (ended index w at)
    write_loop-Outcome (suc left) index [] w size even fits h at = written (ended index w at)
    write_loop-Outcome zero index (b ∷ bs) w size even fits h at = absurd (omega arith)
    write_loop-Outcome (suc left) index (b ∷ bs) w size even fits h at =
        let n = ap length at.left ∙ length-drop (index * 16) image in
        let here : reached index ≡ index * 16 = omega (arith, n) in
        let cmd = command_at (index * 16) (take 16 (b ∷ bs)) in
        rw (write_new-ok index b bs size even (omega (arith, n))) (
          sent (write_loop c device info (suc index) (chunks left (drop 16 (b ∷ bs)))) w cmd
            (c.write_data cmd w).1 (record { id = refl; target = refl; lun = refl }) refl
            (omega (arith, n))
            (ap (λ k. take k (content w)) (sym here) ∙ at.held ∙ ap (λ k. take k image) here)
            (λ count q v.
              write_loop-Outcome left (suc index) (drop 16 (b ∷ bs)) (c.write_data cmd w).0 size
                even fits (omega (arith, length-drop 16 (b ∷ bs)))
                (confirmed-AtIndex index b bs w count at q v)))

-- A write of an image into a device that stores as many units of each write as the count in its answer tells, and
-- never below the write's offset, whatever it held before: if it
-- succeeds, the device holds the image; if it fails with an outcome that is not known, all bytes
-- below the offset that the error names are those of the image; and with any other error nothing
-- was sent.
pub write_fru_image-Outcome :
    {W : Type 0} (c : Connection W) (device : FruDevice) (info : FruInfo) (image : List ℕ)
    (content : W → List ℕ) (w : W)
    → Stores c device content
    → info.size < 65536
    → let x = write_fru_image c device info image w in Outcome content image w x.0 x.1
unfolding write_fru_image
write_fru_image-Outcome c device info image content w stores size =
    elim (Bool-cases (length image != info.size)) [
      | inl other ↦ rw other (other_size refl)
      | inr same ↦ rw same (elim (Result-cases (parse image)) [
        | inr (e, p) ↦ rw p (bad_image e refl)
        | inl (fru, p) ↦ rw p (elim (Bool-cases (is_odd info.access (length image))) [
          | inl odd ↦ rw odd (bad_transfer unaligned refl)
          | inr even ↦
              let fits : length image ≡ info.size = ground (arith, same) in
              let start : min (0 * 16) (length image) ≡ 0 = omega arith in
              rw even (
                write_loop-Outcome c device info content stores image w (length image) 0 image w
                  size (ap (is_odd info.access) (sym fits) ∙ even) fits (omega arith)
                  (record {
                    held = ap (λ k. take k (content w)) start ∙ sym (ap (λ k. take k image) start);
                    left = refl;
                  }))
        ])
      ])
    ]
