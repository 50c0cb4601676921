-- ===== src/Verdicts/Guards.antt =====
-- The counters of negative rules are guards that never hide a rule.
use mailfilter.Base.Int.{ltb_ℤ, wrap, wrap_of_IsInt, ℤ, pos}
use mailfilter.Base.{
  length, any, if◌then◌else◌, ◌^◌, ◌≤◌, ◌<◌, ◌≡◌, ◌∙◌, Bool, true, ◌&&◌, ◌||◌, List, [], ◌∷◌, arith,
}
use mailfilter.Filter.{Filter, Regex, matches}
use mailfilter.Config.Counted.{negatives, IsCounted}
use mailfilter.Preferences.{Preferences}
use mailfilter.Header.{Header}
use mailfilter.Weeder.Allow.{check_allow_rules}
use mailfilter.Verdicts.Allow.{
  has_friend, is_large_friend, has_negative_friend, check_allow_rules_status, misses_all,
}
use mailfilter.Weeder.Deny.{check_deny_rules}
use mailfilter.Verdicts.Deny.{is_large, has_spam, has_negative_spam, check_deny_rules_status}
use mailfilter.Weeder.Report.{line_of, matches_entry}

module _ {R : Type 0} where
  negatives_pos :
      (g : Filter R → Bool) (fs : List (Filter R))
      → any (λ f. f.negativity && g f) fs ≡ true
      → 0 < negatives fs
  negatives_pos g [] h = cc
  negatives_pos g (f ∷ fs) h = ground (arith, negatives_pos g fs)

  negatives-le-length : (fs : List (Filter R)) → negatives fs ≤ length fs
  negatives-le-length [] = omega arith
  negatives-le-length (f ∷ fs) = ground (arith, negatives-le-length fs)

  guard-and :
      (g : Filter R → Bool) (fs : List (Filter R)) (n : ℤ)
      → n ≡ wrap (pos (negatives fs))
      → length fs < 2 ^ 31
      → (ltb_ℤ (pos 0) n && any (λ f. f.negativity && g f) fs) ≡ any (λ f. f.negativity && g f) fs
  guard-and g fs n e k =
      rw (e, wrap_of_IsInt (pos (negatives fs)) (omega (arith, negatives-le-length fs)))
        (ground (arith, negatives_pos g fs))

-- Where the counters agree with the rules, and there are fewer than 2 ^ 31 rules of each kind, the
-- allow and deny checks decide as if they had no guard: every negative rule is tried.
pub check_rules_unguarded :
    {R : Type 0} (rx : Regex R) (p : Preferences R) (h : Header)
    → IsCounted p
    → length p.allows < 2 ^ 31
    → length p.denies < 2 ^ 31
    → ((check_allow_rules rx p h).0 ≡ (
        if has_friend rx p h p.allows h.msg_entries
        then (if is_large_friend rx p h then pos 1 else pos 0)
        else if has_negative_friend rx p h p.allows h.msg_entries
        then pos 0
        else pos 2))
      × ((check_deny_rules rx p h).0 ≡ (
          if is_large rx p h
            || has_spam rx p h p.denies h.msg_entries
            || has_negative_spam rx p h p.denies h.msg_entries
          then pos 1
          else pos 0))
check_rules_unguarded rx p h k a d = (
  check_allow_rules_status rx p h
      ∙ rw (
          guard-and (λ f. misses_all (λ e. matches rx f (line_of e)) h.msg_entries) p.allows
            p.negative_allows k.allows a),
  check_deny_rules_status rx p h
      ∙ rw (
          guard-and (λ f. misses_all (matches_entry rx p h f) h.msg_entries) p.denies
            p.negative_denies k.denies d),
)
