-- ===== src/Fru/Inventory/Layout.antt =====
-- Where an area lies: inside the image, and before every area that begins after it.
use ipmi_rs.Base.{
  ℕ, ◌+◌, ◌-◌, ◌*◌, ◌≤◌, ◌<◌, ◌≡◌, ap, ◌∙◌, true, List, [], ◌∷◌, Option, none, some, ok, length,
  take, drop, arith, get_or,
}
use ipmi_rs.Fru.Inventory.{FruHeader, offsets, has_offset, area, byte_sum, check_sum}
use ipmi_rs.Fru.Inventory.Image.{limit_of}

limit_of-le-size : (os : List (Option ℕ)) (size start : ℕ) → limit_of os size start ≤ size
unfolding limit_of
limit_of-le-size [] size start = omega arith
limit_of-le-size (none ∷ os) size start = limit_of-le-size os size start
limit_of-le-size (some o ∷ os) size start = ground (arith, limit_of-le-size os size start)

limit_of-le :
    (os : List (Option ℕ)) (size start other : ℕ)
    → has_offset os other ≡ true
    → start < other
    → limit_of os size start ≤ other
unfolding limit_of has_offset
limit_of-le [] size start other h l = absurd (ground arith)
limit_of-le (none ∷ os) size start other h l = limit_of-le os size start other h l
limit_of-le (some o ∷ os) size start other h l = ground (arith, limit_of-le os size start other)

area_range :
    (image : List ℕ) (start limit min_len next : ℕ) (bytes : List ℕ)
    → area image start limit min_len ≡ ok (bytes, next)
    → let size = get_or (take 2 (drop start image)) 1 0 * 8 in
      (next ≡ start + size)
      × (next ≤ limit)
      × (bytes ≡ take size (drop start image))
      × (byte_sum 0 bytes ≡ 0)
      × (min_len ≤ size)
unfolding area check_sum
area_range image start limit min_len next bytes h =
    (ground arith, ground arith, ground arith, ground arith, ground arith)

-- An area that is accepted is part of the image, sums to zero modulo 256, and ends before every area
-- of the header that begins after it.
pub area-IsApart :
    (image : List ℕ) (header : FruHeader) (start min_len next : ℕ) (bytes : List ℕ)
    → area image start (limit_of (offsets header) (length image) start) min_len ≡ ok (bytes, next)
    → (bytes ≡ take (next - start) (drop start image))
      × (next ≤ length image)
      × (byte_sum 0 bytes ≡ 0)
      × ((other : ℕ) → has_offset (offsets header) other ≡ true → start < other → next ≤ other)
area-IsApart image header start min_len next bytes h =
    let os = offsets header in
    let r = area_range image start (limit_of os (length image) start) min_len next bytes h in
    let size = get_or (take 2 (drop start image)) 1 0 * 8 in
    let e : size ≡ next - start = omega (arith, r.0) in
    (
      r.2 ∙ ap (λ n. take n (drop start image)) e,
      omega (arith, r.1, limit_of-le-size os (length image) start),
      r.3,
      λ other m l. omega (arith, r.1, limit_of-le os (length image) start other m l),
    )
