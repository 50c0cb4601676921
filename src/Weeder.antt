-- ===== src/Weeder.antt =====
-- `is_weed` of src/weeder.cc: the checks in the order in which they decide. The checks themselves
-- are in the child modules.
pub mod Report
pub mod Duplicates
pub mod Allow
pub mod Deny
pub mod Scores
use Duplicates.{Weeder, check_duplicates}
use Allow.{check_allow_rules}
use Deny.{check_maxlength, check_deny_rules}
use Scores.{check_scores}
use Report.{Verdict}
use mailfilter.Filter.{Regex}
use mailfilter.Preferences.{Preferences}
use mailfilter.Header.{Header}
use mailfilter.Base.{Option, List, if◌then◌else◌, ◌++◌, none, some}
use mailfilter.Feedback.{Message}
use mailfilter.Base.Int.{ℤ, eq_ℤ, pos, ltb_ℤ}

module _ {R : Type 0} (rx : Regex R) (p : Preferences R) where
  -- The messages of the checks so far go in front.
  abbrev after : List Message → Verdict → Verdict
  after ms (status, ns) = (status, ms ++ ns)

  -- From the scores on.
  decide_scores : Header → Verdict
  decide_scores h =
      let (status, ms) = check_scores rx p h in
      if eq_ℤ status (pos 1) then (pos 1, ms) else (pos 0, ms)

  -- From the deny rules on.
  decide_deny : Header → Verdict
  decide_deny h =
      let (status, ms) = check_deny_rules rx p h in
      if eq_ℤ status (pos 1)
      then (pos 1, ms)
      else if ltb_ℤ status (pos 0)
      then (status, ms)
      else after ms (decide_scores h)

  -- From the check for long lines on.
  decide_maxlength : Header → Verdict
  decide_maxlength h =
      let (status, ms) = check_maxlength rx p h in
      if eq_ℤ status (pos 1) then (pos 1, ms) else after ms (decide_deny h)

  -- From the allow rules on.
  decide_allow : Header → Verdict
  decide_allow h =
      let (status, ms) = check_allow_rules rx p h in
      if eq_ℤ status (pos 1)
      then (pos 1, ms)
      else if eq_ℤ status (pos 0)
      then (pos 0, ms)
      else if ltb_ℤ status (pos 0)
      then (status, ms)
      else after ms (decide_maxlength h)

  -- Weeder :: is_weed. Behind a null pointer the checks for duplicates fail, so that the other
  -- checks are not reached.
  unfoldable pub is_weed : Weeder → Option Header → ℤ × List Message × Weeder
  unfolding decide_allow decide_maxlength decide_deny decide_scores
  is_weed w none =
      let (status, ms, w') = check_duplicates p w none in
      if eq_ℤ status (pos 1) then (pos 1, ms, w') else (status, ms, w')
  is_weed w (some h) =
      let (status, ms, w') = check_duplicates p w (some h) in
      let (rest_status, rest) = decide_allow h in
      if eq_ℤ status (pos 1)
      then (pos 1, ms, w')
      else if ltb_ℤ status (pos 0)
      then (status, ms, w')
      else (rest_status, ms ++ rest, w')
