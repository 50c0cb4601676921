-- ===== src/Weeder/Deny.antt =====
-- `check_maxlength` and `check_deny_rules` of src/weeder.cc.
use mailfilter.Filter.{Regex, Filter, matches}
use mailfilter.Preferences.{Preferences}
use mailfilter.Header.{Header, Entry}
use mailfilter.Weeder.Report.{
  Verdict, line_of, deny, none_matches, matches_entry, matches_reason, negative_reason,
}
use mailfilter.Base.{
  List, Option, if◌then◌else◌, none, length, ltb, when, ◌<|>◌, not, ◌&&◌, some, [], ◌∷◌, ◌++◌,
}
use mailfilter.Base.Int.{ltb_ℤ, eq_ℤ, to_unsigned, pos}
use mailfilter.Text.{codes, str_eq}

module _ {R : Type 0} (rx : Regex R) (p : Preferences R) (h : Header) where
  -- The loop of `check_maxlength`; the limit is compared as an `unsigned int`.
  unfoldable pub maxlength_entries : List Entry → Option Verdict
  maxlength_entries [] = none
  maxlength_entries (e ∷ es) =
      when (ltb (to_unsigned p.max_line_length) (length (line_of e)))
        (deny h (codes " [\"" ++ e.tag ++ codes "\" exceeded maxlength].") 2)
      <|> maxlength_entries es

  -- Weeder :: check_maxlength
  unfoldable pub check_maxlength : Verdict
  unfolding maxlength_entries
  check_maxlength =
      if eq_ℤ p.max_line_length (pos 0)
      then (pos 0, [])
      else (elim (maxlength_entries h.msg_entries) [ some v ↦ v | none ↦ (pos 0, []) ])

  -- The positive deny rules on one entry: first its line, then the normalised subject.
  unfoldable pub deny_entry : Entry → List (Filter R) → Option Verdict
  deny_entry e [] = none
  deny_entry e (f ∷ fs) =
      when (not f.negativity && matches rx f (line_of e))
        (deny h (matches_reason f.expr (line_of e) []) 2)
      <|> when
          (p.norm
            && not f.negativity
            && str_eq e.tag (codes "Subject")
            && matches rx f h.msg_normal_subject)
          (deny h (matches_reason f.expr (line_of e) (codes " (normalised)")) 2)
      <|> deny_entry e fs

  unfoldable pub deny_entries : List (Filter R) → List Entry → Option Verdict
  deny_entries fs [] = none
  deny_entries fs (e ∷ es) = deny_entry e fs <|> deny_entries fs es

  unfoldable pub deny_negative : List (Filter R) → List Entry → Option Verdict
  deny_negative [] es = none
  deny_negative (f ∷ fs) es =
      when (f.negativity && none_matches (matches_entry rx p h f) es)
        (deny h (negative_reason (codes "deny") f) 4)
      <|> deny_negative fs es

  -- Weeder :: check_deny_rules, on a header that is there
  unfoldable pub check_deny_rules : Verdict
  unfolding deny_entries deny_entry deny_negative
  check_deny_rules =
      if ltb_ℤ (pos 0) p.max_size && ltb_ℤ p.max_size h.msg_size
      then deny h (codes " [Maxsize_Deny exceeded].") 2
      else (elim (deny_entries p.denies h.msg_entries) [
        | some v ↦ v
        | none ↦
            let negative =
              if ltb_ℤ (pos 0) p.negative_denies
              then deny_negative p.denies h.msg_entries
              else none in
            elim negative [ some v ↦ v | none ↦ (pos 0, []) ]
      ])
