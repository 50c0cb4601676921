-- ===== src/Tests/Weeding.antt =====
-- Examples for the weeder.
use mailfilter.Base.{◌≡◌, refl, none, some, [], ◌∷◌, arith, ◌^◌, ◌<◌, inr}
use mailfilter.Base.Int.{pos, IsInt, wrap, sum, ◌+ℤ◌}
use mailfilter.Preferences.{new_preferences}
use mailfilter.Weeder.{is_weed}
use mailfilter.Weeder.Report.{gen_failure}
use mailfilter.Weeder.Allow.{check_allow_rules}
use mailfilter.Weeder.Deny.{check_deny_rules}
use mailfilter.Weeder.Scores.{check_scores, size_points}
use mailfilter.Verdicts.Allow.{check_allow_rules_status}
use mailfilter.Verdicts.Deny.{check_deny_rules_status}
use mailfilter.Verdicts.Points.{check_scores_status}
use mailfilter.Verdicts.Table.{is_weed_status}
use mailfilter.Verdicts.Seen.{check_all, check_all-eq-seen_before}
use mailfilter.Verdicts.Guards.{check_rules_unguarded}
use mailfilter.Tests.Samples.{toy_regex, toy_prefs, spam, large_friend, large_sale, toy_weeder}
use mailfilter.Config.Counted.{IsCounted}

score-IsInt : IsInt (pos 50)
score-IsInt = ground arith

check_allow_rules_status_example : (check_allow_rules toy_regex toy_prefs large_friend).0 ≡ pos 1
unfolding new_preferences
check_allow_rules_status_example = check_allow_rules_status toy_regex toy_prefs large_friend

check_deny_rules_status_example : (check_deny_rules toy_regex toy_prefs spam).0 ≡ pos 1
unfolding new_preferences
check_deny_rules_status_example = check_deny_rules_status toy_regex toy_prefs spam

check_scores_status_example : (check_scores toy_regex toy_prefs large_sale).0 ≡ pos 1
unfolding new_preferences size_points sum wrap ◌+ℤ◌
check_scores_status_example = check_scores_status toy_regex toy_prefs large_sale score-IsInt

is_weed_status_example :
    ((is_weed toy_regex toy_prefs toy_weeder none).0 ≡ gen_failure)
    × ((is_weed toy_regex toy_prefs toy_weeder (some large_sale)).0 ≡ pos 1)
unfolding new_preferences size_points sum wrap ◌+ℤ◌
is_weed_status_example = is_weed_status toy_regex toy_prefs toy_weeder large_sale score-IsInt

check_all-eq-seen_before_example :
    (check_all toy_prefs toy_weeder (spam ∷ large_sale ∷ spam ∷ [])).0 ≡ pos 0 ∷ pos 0 ∷ pos 1 ∷ []
unfolding new_preferences
check_all-eq-seen_before_example =
    check_all-eq-seen_before toy_prefs refl toy_weeder (spam ∷ large_sale ∷ spam ∷ [])

toy_prefs-IsCounted : IsCounted toy_prefs
unfolding new_preferences wrap
toy_prefs-IsCounted = record {
  allows = refl;
  denies = refl;
  scores = refl;
  default_case = inr refl;
  allow_cases = ground arith;
  deny_cases = ground arith;
}

few_allows : 1 < 2 ^ 31
few_allows = omega arith

few_denies : 2 < 2 ^ 31
few_denies = omega arith

check_rules_unguarded_example :
    ((check_allow_rules toy_regex toy_prefs spam).0 ≡ pos 2)
    × ((check_deny_rules toy_regex toy_prefs spam).0 ≡ pos 1)
unfolding new_preferences
check_rules_unguarded_example =
    check_rules_unguarded toy_regex toy_prefs spam toy_prefs-IsCounted few_allows few_denies
