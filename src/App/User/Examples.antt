-- ===== src/App/User/Examples.antt =====
-- A short password in the wide field, and a controller with two users.
use ipmi_rs.Base.{ℕ, ◌≡◌, refl, List, [], ◌∷◌, ok, min, ◌+◌}
use ipmi_rs.Connection.Channel.{primary}
use ipmi_rs.App.User.{
  UserPassword, bytes20, password_new, check_text, UserSummary, enabled, list_new,
}
use ipmi_rs.App.User.Requests.{range, answers, collect, collect-list_new}

abbrev secret : List ℕ
secret = 0x61 ∷ 0x62 ∷ 0x63 ∷ []

abbrev password : UserPassword
password = record { bytes = secret; length_of = bytes20 }

password_accepted : password_new secret bytes20 ≡ ok password
unfolding password_new check_text
password_accepted = refl

abbrev summary : UserSummary
summary = record {
  max_user_ids = 2;
  enabled_user_ids = 1;
  fixed_user_ids = 1;
  enable_status = enabled;
}

collect-list_new_example :
    collect (min 2 63 + 3) (list_new primary summary) ≡ answers (range 1 (min 2 63)) 3
collect-list_new_example = collect-list_new 3 primary summary
