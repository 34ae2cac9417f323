-- ===== src/Rmcp/CipherPolicy/Examples.antt =====
-- The suites 3 and 17 with an OEM record between them.
use ipmi_rs.Base.{◌≡◌, ◌↔◌, List, [], ◌∷◌, some, ok}
use ipmi_rs.Rmcp.CipherPolicy.{id17, select_best}
use ipmi_rs.Rmcp.CipherPolicy.Choice.{
  Advertised, standard, oem, encode, verdict, select_best-verdict,
}

abbrev records : List Advertised
records = standard 3 1 1 1 ∷ oem 9 0 0 0 1 2 3 ∷ standard 17 3 4 1 ∷ []

select_best-verdict_example :
    (select_best (encode records) ≡ ok (some id17))
    ↔ ((rs : List Advertised) × ((encode records ≡ encode rs) × (verdict rs ≡ ok (some id17))))
select_best-verdict_example = select_best-verdict (encode records) (some id17)
