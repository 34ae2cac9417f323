-- ===== src/Fru/Transfer/Content.antt =====
-- What a FRU read returns: the content of the device, whatever chunk sizes it takes.
use ipmi_rs.Base.{
  ◌*◌, ◌%◌, ◌-◌, min, bind_ok, ok_cancel, take-length, ℕ, zero, suc, ◌+◌, ◌≤◌, ◌<◌, ◌≡◌, refl, sym,
  ap, ◌∙◌, List, [], ◌++◌, Option, some, Result, ok, err, ltb, length, take, drop, arith,
  length-append, take-add, Bool-cases, inl, inr,
}
use ipmi_rs.Fru.Commands.{
  FruInfo, FruCommandError, ReadFruData, ReadFruDataResponse, read_verify, read_new, validate, unit,
  default_chunk_bytes, unaligned,
}
use ipmi_rs.Fru.Transfer.{
  FruDevice, Connection, IpmiError, FruReadError, transfer, Turn, extend, shrink, give_up,
  on_answer, on_verified, read_command, send_read, resume, read_turn, read_loop, read_sized,
  read_fru_image, is_odd,
}
use ipmi_rs.Fru.Transfer.Loop.{Rest, Moves, read_command_lem, read_turn-Moves, read_loop_total}

-- A read of this device.
pub record IsReadOf (device : FruDevice) (cmd : ReadFruData) : Type 0 where
  pub id : cmd.id ≡ device.id
  pub target : cmd.target ≡ device.target
  pub lun : cmd.lun ≡ device.lun

-- The device holds `content`: of what it answers to a read, as many units as its count tells are the
-- content from the offset on, and nothing is known of the bytes after these.
abbrev pub Holds : {W : Type 0} → Connection W → FruDevice → List ℕ → Type 0
Holds {W} c device content =
    (cmd : ReadFruData) (w : W) (r : ReadFruDataResponse)
    → IsReadOf device cmd
    → (c.read_data cmd w).1 ≡ ok r
    → take (r.count * unit cmd.access) r.payload
      ≡ take (r.count * unit cmd.access) (drop cmd.offset content)

-- The device's sizes have 16 bits.
abbrev pub IsU16Sized : {W : Type 0} → Connection W → Type 0
IsU16Sized {W} c =
    (device : FruDevice) (w : W) (info : FruInfo)
    → (c.get_info device w).1 ≡ ok info
    → info.size < 65536

-- A part read so far.
record IsPart (content : List ℕ) (size : ℕ) (bytes : List ℕ) : Type 0 where
  read : bytes ≡ take (length bytes) content
  within : length bytes ≤ size

read_verify-length :
    (cmd : ReadFruData) (r : ReadFruDataResponse) (bytes : List ℕ)
    → read_verify cmd r ≡ ok bytes
    → length bytes ≡ cmd.count
unfolding read_verify
read_verify-length cmd r bytes e = ground arith

-- An answer that passes the checks has as many units and as many bytes as were asked for.
read_verify_lem :
    (cmd : ReadFruData) (r : ReadFruDataResponse) (bytes : List ℕ)
    → read_verify cmd r ≡ ok bytes
    → (r.count * unit cmd.access ≡ cmd.count) × (length r.payload ≡ cmd.count) × (r.payload ≡ bytes)
unfolding read_verify
read_verify_lem cmd r bytes e = (ground arith, ground arith, ground arith)

held :
    {W : Type 0} (c : Connection W) (device : FruDevice) (content : List ℕ) (cmd : ReadFruData)
    (w : W) (r : ReadFruDataResponse) (bytes : List ℕ)
    → Holds c device content
    → IsReadOf device cmd
    → (c.read_data cmd w).1 ≡ ok r
    → read_verify cmd r ≡ ok bytes
    → bytes ≡ take cmd.count (drop cmd.offset content)
held c device content cmd w r bytes holds of e v =
    let a = read_verify_lem cmd r bytes v in
    sym a.2
    ∙ sym (take-length r.payload)
    ∙ ap (λ k. take k r.payload) (a.1 ∙ sym a.0)
    ∙ holds cmd w r of e
    ∙ ap (λ k. take k (drop cmd.offset content)) a.0

read_command-IsReadOf :
    (device : FruDevice) (info : FruInfo) (chunk_size offset : ℕ) (cmd : ReadFruData)
    → read_command device info chunk_size offset ≡ ok cmd
    → IsReadOf device cmd
unfolding read_new
read_command-IsReadOf device info chunk_size offset cmd e =
    let p =
      bind_ok (validate info (offset % 65536) (min chunk_size (info.size - offset) % 256)) _ cmd
        e in
    let made = ok_cancel refl p.1.1 in
    record {
      id = ap (λ x. x.id) (sym made);
      target = ap (λ x. x.target) (sym made);
      lun = ap (λ x. x.lun) (sym made);
    }

longer :
    (content bytes more : List ℕ) (n : ℕ)
    → bytes ≡ take (length bytes) content
    → length more ≡ n
    → more ≡ take n (drop (length bytes) content)
    → bytes ++ more ≡ take (length (bytes ++ more)) content
longer content bytes more n e l m =
    ap (λ t. t ++ more) e
    ∙ ap (λ t. take (length bytes) content ++ t) m
    ∙ take-add (length bytes) n content
    ∙ ap (λ k. take k content)
        (let s : length bytes + n ≡ length (bytes ++ more) =
            omega (arith, length-append bytes more) in
          s)

module _ {W : Type 0} (c : Connection W) (device : FruDevice) (info : FruInfo)
    (content : List ℕ) where
  on_answer-extend :
      (chunk_size : ℕ) (cmd : ReadFruData) (a : Result IpmiError ReadFruDataResponse)
      (more : List ℕ)
      → on_answer info chunk_size cmd a ≡ extend more
      → (r : ReadFruDataResponse) × (a ≡ ok r) × (read_verify cmd r ≡ ok more)
  unfolding on_answer on_verified
  on_answer-extend chunk_size cmd (ok r) more e = (r, refl, ground arith)
  on_answer-extend chunk_size cmd (err x) more e = absurd (ground arith)

  send_read-IsPart :
      (chunk_size : ℕ) (w : W) (r : Result FruCommandError ReadFruData) (bytes more : List ℕ)
      → Holds c device content
      → ((cmd : ReadFruData)
          → r ≡ ok cmd
          → (cmd.offset ≡ length bytes)
            × (1 ≤ cmd.count)
            × (length bytes + cmd.count ≤ info.size)
            × IsReadOf device cmd)
      → IsPart content info.size bytes
      → (send_read c device info chunk_size w r).1 ≡ extend more
      → IsPart content info.size (bytes ++ more)
  unfolding send_read
  send_read-IsPart chunk_size w (err e) bytes more holds fits p h = cc
  send_read-IsPart chunk_size w (ok cmd) bytes more holds fits p h =
      let (r, e, v) = on_answer-extend chunk_size cmd (c.read_data cmd w).1 more h in
      let f = fits cmd refl in
      let n = read_verify-length cmd r more v in
      record {
        read = longer content bytes more cmd.count p.read n (
            held c device content cmd w r more holds f.3 e v
            ∙ ap (λ k. take cmd.count (drop k content)) f.0);
        within = omega (arith, length-append bytes more, n, f.2);
      }

  -- A complete read.
  abbrev IsWhole : List ℕ → Type 0
  IsWhole image = (image ≡ take info.size content) × (length image ≡ info.size)

  resume_content :
      (again : Rest W) (chunk_size : ℕ) (bytes : List ℕ) (x : W × Turn) (w : W) (image : List ℕ)
      → Moves info chunk_size (length bytes) x.1
      → 1 ≤ chunk_size
      → chunk_size ≤ 16
      → IsPart content info.size bytes
      → ((more : List ℕ) → x.1 ≡ extend more → IsPart content info.size (bytes ++ more))
      → ((s : ℕ) (part : List ℕ)
          → 1 ≤ s
          → s ≤ 16
          → IsPart content info.size part
          → again s part x.0 ≡ some (w, ok image)
          → IsWhole image)
      → resume again chunk_size bytes x ≡ some (w, ok image)
      → IsWhole image
  unfolding resume
  resume_content again s bytes (v, extend more) w image m some_chunk small p f ih h =
      ih s (bytes ++ more) some_chunk small (f more refl) h
  resume_content again s bytes (v, shrink size) w image m some_chunk small p f ih h =
      ih size bytes (m.less size refl).0 (m.less size refl).2 p h
  resume_content again s bytes (v, give_up e) w image m some_chunk small p f ih h = cc

  read_loop_content :
      (fuel chunk_size : ℕ) (bytes : List ℕ) (v w : W) (image : List ℕ)
      → Holds c device content
      → info.size < 65536
      → 1 ≤ chunk_size
      → chunk_size ≤ 16
      → IsPart content info.size bytes
      → read_loop c device info fuel chunk_size bytes v ≡ some (w, ok image)
      → IsWhole image
  unfolding read_loop
  read_loop_content zero chunk_size bytes v w image holds size some_chunk small p h = cc
  read_loop_content (suc fuel) chunk_size bytes v w image holds size some_chunk small p h =
      elim (Bool-cases (ltb (length bytes) info.size)) [
        | inr over ↦
            let e : bytes ≡ image = ground (arith, over, h) in
            let n : length bytes ≡ info.size = ground (arith, over, p.within) in
            (sym e ∙ p.read ∙ ap (λ k. take k content) n, ap length (sym e) ∙ n)
        | inl within ↦
            let below : length bytes < info.size = ground (arith, within) in
            resume_content (read_loop c device info fuel) chunk_size bytes
              (read_turn c device info chunk_size (length bytes) v) w image
              (read_turn-Moves c device info chunk_size (length bytes) v below size some_chunk
                small)
              some_chunk small p
              (λ more e.
                send_read-IsPart chunk_size v (read_command device info chunk_size (length bytes))
                  bytes more holds
                  (λ cmd q.
                    let l =
                      read_command_lem device info chunk_size (length bytes) cmd below size
                        some_chunk small q in
                    (
                      l.0,
                      l.1,
                      l.2,
                      read_command-IsReadOf device info chunk_size (length bytes) cmd q,
                    ))
                  p (unfold read_turn in e))
              (λ s part a b q g.
                read_loop_content fuel s part
                  (read_turn c device info chunk_size (length bytes) v).0 w image holds size a b q
                  g)
              (rw within at h)
      ]

-- What a read of the image shows, by the answer `a` to the info request.
abbrev pub ReadsContent :
    {W : Type 0} (a : Result IpmiError FruInfo) (content : List ℕ)
    → Option (W × Result FruReadError (List ℕ))
    → Type 0
ReadsContent {W} a content o =
    (r : W × Result FruReadError (List ℕ)) × (o ≡ some r)
    × ((image : List ℕ)
        → r.1 ≡ ok image
        → (info : FruInfo) × (a ≡ ok info)
          × (image ≡ take info.size content)
          × (length image ≡ info.size))

read_sized_content :
    {W : Type 0} (c : Connection W) (fuel : ℕ) (device : FruDevice) (w : W) (content : List ℕ)
    (a : Result IpmiError FruInfo)
    → ((info : FruInfo) → a ≡ ok info → info.size < 65536)
    → Holds c device content
    → 65552 < fuel
    → ReadsContent a content (read_sized c fuel device w a)
unfolding read_sized
read_sized_content c fuel device w content (err e) sized holds enough =
    (_, refl, λ image h. absurd (cc h))
read_sized_content c fuel device w content (ok info) sized holds enough =
    elim (Bool-cases (is_odd info.access info.size)) [
      | inl odd ↦ ((w, err (transfer unaligned)), rw odd refl, λ image h. absurd (cc h))
      | inr even ↦
          let size = sized info refl in
          let (r, e) =
            read_loop_total c device info fuel default_chunk_bytes [] w size (omega arith)
              (omega arith) (omega arith) in
          (
            r,
            rw even e,
            λ image h.
                let whole =
                  read_loop_content c device info content fuel default_chunk_bytes [] w r.0 image
                    holds size (omega arith) (omega arith)
                    (record { read = refl; within = omega arith })
                    (e ∙ ap (λ a. some (r.0, a)) h) in
                (info, refl, whole.0, whole.1),
          )
    ]

-- With fuel for every byte and every shrink, a read of the image returns; and if it returns bytes,
-- then the device has answered a size, and the bytes are the first ones of its content, as many as
-- that size, where the device of that identifier, target and unit answers a read with as many units of its
-- content as its count tells, whatever bytes follow these.
pub read_fru_image_content :
    {W : Type 0} (c : Connection W) (fuel : ℕ) (device : FruDevice) (w : W) (content : List ℕ)
    → IsU16Sized c
    → Holds c device content
    → 65552 < fuel
    → ReadsContent (c.get_info device w).1 content (read_fru_image c fuel device w)
unfolding read_fru_image
read_fru_image_content c fuel device w content sized holds enough =
    read_sized_content c fuel device (c.get_info device w).0 content (c.get_info device w).1
      (sized device w) holds enough
