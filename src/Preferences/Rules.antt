-- ===== src/Preferences/Rules.antt =====
-- src/preferences.cc: the operations that add a rule, which count the negative ones.
use mailfilter.Base.{not, [], ◌∷◌, ◌++◌, if◌then◌else◌, ℕ}
use mailfilter.Base.Int.{ℤ, pos, add_int}
use mailfilter.Text.{Text, codes, str_eq}
use mailfilter.Filter.{
  Regex, Score, case_sensitive, case_insensitive, new_filter, set_expression, set_negativity,
  set_case, set_score,
}
use mailfilter.Preferences.{Preferences}
use mailfilter.Preferences.Setters.{said}

-- The case flag that a keyword asks for: a `_case` or `_nocase` form overrides the default.
abbrev pub case_of : Text → Text → Text → ℕ → ℕ
case_of keyword with_case without_case default_case =
    if said keyword with_case
    then case_sensitive
    else if said keyword without_case
    then case_insensitive
    else default_case

module _ {R : Type 0} (rx : Regex R) where
  unfoldable pub add_deny_rule : Preferences R → Text → Text → Text → Preferences R
  unfolding new_filter set_expression set_negativity set_case add_int
  add_deny_rule p keyword operat id =
      let negative = not (str_eq operat (codes "=")) in
      let cur_filter = set_expression (set_negativity (new_filter rx) negative) id in
      let case = case_of keyword (codes "deny_case") (codes "deny_nocase") p.icase in
      record p {
        negative_denies = if negative then add_int p.negative_denies (pos 1) else p.negative_denies;
        denies = p.denies ++ set_case cur_filter case ∷ [];
      }

  unfoldable pub add_allow_rule : Preferences R → Text → Text → Text → Preferences R
  unfolding new_filter set_expression set_negativity set_case add_int
  add_allow_rule p keyword operat id =
      let negative = not (str_eq operat (codes "=")) in
      let cur_filter = set_expression (set_negativity (new_filter rx) negative) id in
      let case = case_of keyword (codes "allow_case") (codes "allow_nocase") p.icase in
      record p {
        negative_allows = if negative then add_int p.negative_allows (pos 1) else p.negative_allows;
        allows = p.allows ++ set_case cur_filter case ∷ [];
      }

  unfoldable pub add_score : Preferences R → Text → ℤ → Text → Text → Preferences R
  unfolding new_filter set_expression set_negativity set_case set_score add_int
  add_score p keyword given_score operat id =
      let negative = not (str_eq operat (codes "=")) in
      let cur_filter = set_expression (set_negativity (new_filter rx) negative) id in
      let case = case_of keyword (codes "score_case") (codes "score_nocase") p.icase in
      let cur_score : Score R = record { filter = set_case cur_filter case; scr = pos 0 } in
      record p {
        negative_scores = if negative then add_int p.negative_scores (pos 1) else p.negative_scores;
        scores = p.scores ++ set_score cur_score given_score ∷ [];
      }
