-- ===== src/Verdicts/Allow.antt =====
-- The status of `check_allow_rules`.
use mailfilter.Base.Int.{ltb_ℤ, ℤ, pos}
use mailfilter.Base.{
  length, any, all, ◌==◌, if◌then◌else◌, when, ◌≡◌, refl, Bool, not, ◌&&◌, Option, none, some, List,
  [], ◌∷◌, arith,
}
use mailfilter.Text.{Text}
use mailfilter.Header.{Entry, Header}
use mailfilter.Filter.{Regex, Filter, matches}
use mailfilter.Weeder.Report.{none_matches, Verdict, line_of}
use mailfilter.Preferences.{Preferences}
use mailfilter.Weeder.Allow.{allow_negative, allow_entries, allow_line, check_allow_rules, allowed}

-- No line is hit, and there is a line.
abbrev pub misses_all : (Entry → Bool) → List Entry → Bool
misses_all hit es = not (length es == 0) && all (λ e. not (hit e)) es

pub none_matches_lem :
    (hit : Entry → Bool) (es : List Entry) → none_matches hit es ≡ misses_all hit es
none_matches_lem hit [] = refl
none_matches_lem hit (e ∷ []) = ground arith
none_matches_lem hit (e ∷ d ∷ es) = ground (arith, none_matches_lem hit (d ∷ es))

module _ {R : Type 0} (rx : Regex R) (p : Preferences R) (h : Header) where
  -- A positive rule matches some line.
  abbrev pub has_friend : List (Filter R) → List Entry → Bool
  has_friend fs es = any (λ e. any (λ f. not f.negativity && matches rx f (line_of e)) fs) es

  -- A negative rule matches no line.
  abbrev pub has_negative_friend : List (Filter R) → List Entry → Bool
  has_negative_friend fs es =
      any (λ f. f.negativity && misses_all (λ e. matches rx f (line_of e)) es) fs

  abbrev pub is_large_friend : Bool
  is_large_friend = ltb_ℤ (pos 0) p.max_size_friends && ltb_ℤ p.max_size_friends h.msg_size

  abbrev status_of : Option Verdict → Option ℤ
  status_of none = none
  status_of (some v) = some v.0

  allow_line_status :
      (line : Text) (fs : List (Filter R))
      → status_of (allow_line rx p h line fs)
        ≡ when
            (any (λ f. not f.negativity && matches rx f line) fs)
            (if is_large_friend then pos 1 else pos 0)
  unfolding allow_line allowed
  allow_line_status line [] = refl
  allow_line_status line (f ∷ fs) = ground (arith, allow_line_status line fs)

  allow_entries_status :
      (fs : List (Filter R)) (es : List Entry)
      → status_of (allow_entries rx p h fs es)
        ≡ when (has_friend fs es) (if is_large_friend then pos 1 else pos 0)
  unfolding allow_entries
  allow_entries_status fs [] = refl
  allow_entries_status fs (e ∷ es) =
      ground (arith, allow_line_status (line_of e) fs, allow_entries_status fs es)

  allow_negative_status :
      (fs : List (Filter R)) (es : List Entry)
      → status_of (allow_negative rx p h fs es) ≡ when (has_negative_friend fs es) (pos 0)
  unfolding allow_negative
  allow_negative_status [] es = refl
  allow_negative_status (f ∷ fs) es =
      ground
        (arith, none_matches_lem (λ e. matches rx f (line_of e)) es, allow_negative_status fs es)

  -- `check_allow_rules` returns 1 if a positive rule matches a line and the message is larger than
  -- MAXSIZE_ALLOW, where that is set; 0 if a positive rule matches and it is not; else 0 if the
  -- counter of negative allow rules is positive and one of these matches none of the lines, of
  -- which there is one at least; and 2 otherwise.
  pub check_allow_rules_status : (check_allow_rules rx p h).0 ≡ (
      if has_friend p.allows h.msg_entries
      then (if is_large_friend then pos 1 else pos 0)
      else if ltb_ℤ (pos 0) p.negative_allows && has_negative_friend p.allows h.msg_entries
      then pos 0
      else pos 2)
  unfolding check_allow_rules
  check_allow_rules_status = ground (
    arith,
    allow_entries_status p.allows h.msg_entries,
    allow_negative_status p.allows h.msg_entries,
  )
