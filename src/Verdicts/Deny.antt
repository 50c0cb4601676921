-- ===== src/Verdicts/Deny.antt =====
-- The statuses of `check_maxlength` and `check_deny_rules`.
use mailfilter.Base.Int.{ltb_ℤ, eq_ℤ, to_unsigned, ℤ, pos}
use mailfilter.Base.{
  length, any, ltb, if◌then◌else◌, when, ◌≡◌, refl, Bool, not, ◌&&◌, ◌||◌, Option, none, some, List,
  [], ◌∷◌, arith,
}
use mailfilter.Filter.{Regex, Filter}
use mailfilter.Preferences.{Preferences}
use mailfilter.Header.{Header, Entry}
use mailfilter.Weeder.Deny.{
  maxlength_entries, deny_negative, check_deny_rules, deny_entry, check_maxlength, deny_entries,
}
use mailfilter.Weeder.Report.{Verdict, line_of, matches_entry}
use mailfilter.Verdicts.Allow.{misses_all, none_matches_lem}

module _ {R : Type 0} (rx : Regex R) (p : Preferences R) (h : Header) where
  abbrev pub has_long_line : List Entry → Bool
  has_long_line es = any (λ e. ltb (to_unsigned p.max_line_length) (length (line_of e))) es

  abbrev status_of : Option Verdict → Option ℤ
  status_of none = none
  status_of (some v) = some v.0

  maxlength_entries_status :
      (es : List Entry) → status_of (maxlength_entries rx p h es) ≡ when (has_long_line es) (pos 1)
  unfolding maxlength_entries
  maxlength_entries_status [] = refl
  maxlength_entries_status (e ∷ es) = ground (arith, maxlength_entries_status es)

  -- `check_maxlength` returns 1 exactly if MAXLENGTH is not 0 and a line, with its tag, is longer
  -- than MAXLENGTH read as an unsigned number, and 0 otherwise.
  pub check_maxlength_status : (check_maxlength rx p h).0 ≡ (
      if not (eq_ℤ p.max_line_length (pos 0)) && has_long_line h.msg_entries then pos 1 else pos 0)
  unfolding check_maxlength
  check_maxlength_status = ground (arith, maxlength_entries_status h.msg_entries)

  -- A positive rule matches some line, or the normalised subject where there is a subject line.
  abbrev pub has_spam : List (Filter R) → List Entry → Bool
  has_spam fs es = any (λ e. any (λ f. not f.negativity && matches_entry rx p h f e) fs) es

  -- A negative rule matches no line, nor the normalised subject where there is a subject line.
  abbrev pub has_negative_spam : List (Filter R) → List Entry → Bool
  has_negative_spam fs es = any (λ f. f.negativity && misses_all (matches_entry rx p h f) es) fs

  abbrev pub is_large : Bool
  is_large = ltb_ℤ (pos 0) p.max_size && ltb_ℤ p.max_size h.msg_size

  deny_entry_status :
      (e : Entry) (fs : List (Filter R))
      → status_of (deny_entry rx p h e fs)
        ≡ when (any (λ f. not f.negativity && matches_entry rx p h f e) fs) (pos 1)
  unfolding deny_entry
  deny_entry_status e [] = refl
  deny_entry_status e (f ∷ fs) = ground (arith, deny_entry_status e fs)

  deny_entries_status :
      (fs : List (Filter R)) (es : List Entry)
      → status_of (deny_entries rx p h fs es) ≡ when (has_spam fs es) (pos 1)
  unfolding deny_entries
  deny_entries_status fs [] = refl
  deny_entries_status fs (e ∷ es) =
      ground (arith, deny_entry_status e fs, deny_entries_status fs es)

  deny_negative_status :
      (fs : List (Filter R)) (es : List Entry)
      → status_of (deny_negative rx p h fs es) ≡ when (has_negative_spam fs es) (pos 1)
  unfolding deny_negative
  deny_negative_status [] es = refl
  deny_negative_status (f ∷ fs) es =
      ground (arith, none_matches_lem (matches_entry rx p h f) es, deny_negative_status fs es)

  -- `check_deny_rules` returns 1 exactly if the message is larger than MAXSIZE_DENY, where that is
  -- set, or a positive rule matches a line or, under a line with the tag `Subject` and with
  -- normalisation on, the normalised subject; or if the counter of negative deny rules is positive
  -- and one of these matches none of that, on a header with a line at least. It returns 0 otherwise.
  pub check_deny_rules_status : (check_deny_rules rx p h).0 ≡ (
      if is_large
        || has_spam p.denies h.msg_entries
        || (ltb_ℤ (pos 0) p.negative_denies && has_negative_spam p.denies h.msg_entries)
      then pos 1
      else pos 0)
  unfolding check_deny_rules
  check_deny_rules_status = ground (
    arith,
    deny_entries_status p.denies h.msg_entries,
    deny_negative_status p.denies h.msg_entries,
  )
