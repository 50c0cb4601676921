-- ===== src/Verdicts/Table.antt =====
-- `is_weed` as a table of decisions.
use mailfilter.Base.Int.{ltb_ℤ, eq_ℤ, wrap, IsInt, ℤ, pos}
use mailfilter.Base.{
  length, any, ◌==◌, if◌then◌else◌, ◌≡◌, Bool, not, ◌&&◌, ◌||◌, none, some, arith, refl, ◌∙◌,
}
use mailfilter.Text.{str_eq}
use mailfilter.Filter.{Regex}
use mailfilter.Preferences.{Preferences}
use mailfilter.Weeder.{is_weed}
use mailfilter.Weeder.Duplicates.{check_duplicates, Weeder}
use mailfilter.Header.{Header}
use mailfilter.Verdicts.Points.{total_points, check_scores_status}
use mailfilter.Verdicts.Allow.{
  has_friend, is_large_friend, has_negative_friend, check_allow_rules_status,
}
use mailfilter.Verdicts.Deny.{
  has_long_line, is_large, has_spam, has_negative_spam, check_maxlength_status,
  check_deny_rules_status,
}
use mailfilter.Weeder.Report.{gen_failure}
use mailfilter.Weeder.Allow.{check_allow_rules}
use mailfilter.Weeder.Deny.{check_maxlength, check_deny_rules}
use mailfilter.Weeder.Scores.{check_scores}

-- What `is_weed` makes of the statuses of the five checks.
chain : ℤ → ℤ → ℤ → ℤ → ℤ → ℤ
chain duplicates allow maxlength deny scores =
    if eq_ℤ duplicates (pos 1)
    then pos 1
    else if ltb_ℤ duplicates (pos 0)
    then duplicates
    else if eq_ℤ allow (pos 1)
    then pos 1
    else if eq_ℤ allow (pos 0)
    then pos 0
    else if ltb_ℤ allow (pos 0)
    then allow
    else if eq_ℤ maxlength (pos 1)
    then pos 1
    else if eq_ℤ deny (pos 1)
    then pos 1
    else if ltb_ℤ deny (pos 0)
    then deny
    else if eq_ℤ scores (pos 1)
    then pos 1
    else pos 0

chain_table :
    (d a l n m u s : Bool)
    → chain
        (if d then pos 1 else pos 0)
        (if a then (if l then pos 1 else pos 0) else if n then pos 0 else pos 2)
        (if m then pos 1 else pos 0)
        (if u then pos 1 else pos 0)
        (if s then pos 1 else pos 0)
      ≡ (if d
          then pos 1
          else if a
          then (if l then pos 1 else pos 0)
          else if n
          then pos 0
          else if m || u || s
          then pos 1
          else pos 0)
unfolding chain
chain_table d a l n m u s = ground arith

module _ {R : Type 0} (rx : Regex R) (p : Preferences R) where
  is_weed-chain :
      (w : Weeder) (h : Header)
      → (is_weed rx p w (some h)).0
        ≡ chain
            (check_duplicates p w (some h)).0
            (check_allow_rules rx p h).0
            (check_maxlength rx p h).0
            (check_deny_rules rx p h).0
            (check_scores rx p h).0
  unfolding is_weed chain
  is_weed-chain w h = ground arith

  abbrev pub is_duplicate : Weeder → Header → Bool
  is_duplicate w h =
      not (length h.msg_id == 0)
      && p.del_duplicates
      && any (λ cur_ID. str_eq h.msg_id cur_ID) w.msg_ids

  check_duplicates_status :
      (w : Weeder) (h : Header)
      → (check_duplicates p w (some h)).0 ≡ (if is_duplicate w h then pos 1 else pos 0)
  unfolding check_duplicates
  check_duplicates_status w h = ground arith

  abbrev pub is_unwanted : Header → Bool
  is_unwanted h =
      is_large rx p h
      || has_spam rx p h p.denies h.msg_entries
      || (ltb_ℤ (pos 0) p.negative_denies && has_negative_spam rx p h p.denies h.msg_entries)

  abbrev pub is_too_long : Header → Bool
  is_too_long h = not (eq_ℤ p.max_line_length (pos 0)) && has_long_line rx p h h.msg_entries

  abbrev pub scores_high : Header → Bool
  scores_high h = not (ltb_ℤ (wrap (total_points rx p h)) p.high_score)

  -- The status of a message: 1 is to be deleted, 0 is to be left alone.
  abbrev pub decision : Weeder → Header → ℤ
  decision w h =
      if is_duplicate w h
      then pos 1
      else if has_friend rx p h p.allows h.msg_entries
      then (if is_large_friend rx p h then pos 1 else pos 0)
      else if ltb_ℤ (pos 0) p.negative_allows && has_negative_friend rx p h p.allows h.msg_entries
      then pos 0
      else if is_too_long h || is_unwanted h || scores_high h
      then pos 1
      else pos 0

  is_weed_null : (w : Weeder) → (is_weed rx p w none).0 ≡ gen_failure
  unfolding is_weed check_duplicates
  is_weed_null w = refl

  -- `is_weed` fails on a null pointer. On a header it returns 1 if the Message-Id was seen before
  -- and duplicates are deleted; else it returns 0 or, for a message larger than MAXSIZE_ALLOW, 1
  -- if a positive allow rule matches; else 0 if a negative allow rule applies; and else 1 if a line
  -- is longer than MAXLENGTH, a deny rule or MAXSIZE_DENY applies or the score reaches the high
  -- score, and 0 otherwise. The points of MAXSIZE_SCORE are assumed to be an `int`.
  pub is_weed_status :
      (w : Weeder) (h : Header)
      → IsInt p.size_score.score
      → ((is_weed rx p w none).0 ≡ gen_failure) × ((is_weed rx p w (some h)).0 ≡ decision w h)
  is_weed_status w h i = (
    is_weed_null w,
    is_weed-chain w h
        ∙ rw
            (
              check_duplicates_status w h,
              check_allow_rules_status rx p h,
              check_maxlength_status rx p h,
              check_deny_rules_status rx p h,
              check_scores_status rx p h i,
            )
            (chain_table (is_duplicate w h) (has_friend rx p h p.allows h.msg_entries)
              (is_large_friend rx p h) _ (is_too_long h) (is_unwanted h) (scores_high h)),
  )
