-- ===== src/Weeder/Allow.antt =====
-- `check_allow_rules` of src/weeder.cc. Regular expressions are matched by `rx`.
use mailfilter.Filter.{Regex, Filter, matches}
use mailfilter.Preferences.{Preferences}
use mailfilter.Header.{Header, Entry}
use mailfilter.Text.{Text, codes}
use mailfilter.Weeder.Report.{
  Verdict, report, line_of, none_matches, matches_reason, negative_reason,
}
use mailfilter.Base.{List, some, Option, none, if◌then◌else◌, when, ◌<|>◌, not, ◌&&◌, [], ◌∷◌}
use mailfilter.Base.Int.{ltb_ℤ, pos}

module _ {R : Type 0} (rx : Regex R) (p : Preferences R) (h : Header) where
  -- What a matching allow rule returns: the size limit for friends is checked last.
  unfoldable pub allowed : Filter R → Text → Verdict
  allowed f line =
      let allow = report (codes "Allow: ") h (matches_reason f.expr line []) 4 in
      if ltb_ℤ (pos 0) p.max_size_friends && ltb_ℤ p.max_size_friends h.msg_size
      then (pos 1, allow ∷ report (codes "Deny: ") h (codes " [Maxsize_Allow exceeded].") 2 ∷ [])
      else (pos 0, allow ∷ [])

  -- The positive allow rules on one line, and on all lines.
  unfoldable pub allow_line : Text → List (Filter R) → Option Verdict
  allow_line line [] = none
  allow_line line (f ∷ fs) =
      when (not f.negativity && matches rx f line) (allowed f line) <|> allow_line line fs

  unfoldable pub allow_entries : List (Filter R) → List Entry → Option Verdict
  allow_entries fs [] = none
  allow_entries fs (e ∷ es) = allow_line (line_of e) fs <|> allow_entries fs es

  unfoldable pub allow_negative : List (Filter R) → List Entry → Option Verdict
  allow_negative [] es = none
  allow_negative (f ∷ fs) es =
      when (f.negativity && none_matches (λ e. matches rx f (line_of e)) es)
        (pos 0, report (codes "Allow: ") h (negative_reason (codes "allow") f) 4 ∷ [])
      <|> allow_negative fs es

  -- Weeder :: check_allow_rules, on a header that is there
  unfoldable pub check_allow_rules : Verdict
  unfolding allow_entries allow_line allow_negative
  check_allow_rules = elim (allow_entries p.allows h.msg_entries) [
    | some v ↦ v
    | none ↦
        let negative =
          if ltb_ℤ (pos 0) p.negative_allows then allow_negative p.allows h.msg_entries else none in
        elim negative [ some v ↦ v | none ↦ (pos 2, []) ]
  ]
