-- ===== src/Weeder/Report.antt =====
-- What the checks of src/weeder.cc share: a status with the messages printed, the line of an entry
-- that rules are matched against, the reports, and the loop of a negative rule. The status of a
-- check is returned with the calls of `print_msg` that it made, in order.
use mailfilter.Header.{Header, Entry}
use mailfilter.Text.{Text, codes, str_eq}
use mailfilter.Base.Int.{ℤ, negsuc, pos}
use mailfilter.Filter.{Regex, Filter, matches}
use mailfilter.Base.{◌++◌, ℕ, Bool, List, false, ◌∷◌, ◌||◌, ◌&&◌, not, []}
use mailfilter.Preferences.{Preferences}
use mailfilter.Feedback.{Message, message}

abbrev pub Verdict : Type 0
Verdict = ℤ × List Message

-- GEN_FAILURE_FLAG
abbrev pub gen_failure : ℤ
gen_failure = negsuc 0

-- `cur_entry->tag + ": " + cur_entry->body`
abbrev pub line_of : Entry → Text
line_of e = e.tag ++ codes ": " ++ e.body

-- `verb: from: subject, date` with a reason, at a level of verbosity.
unfoldable pub report : Text → Header → Text → ℕ → Message
report verb h reason level =
    message
      (verb ++ h.msg_from ++ codes ": " ++ h.msg_subject ++ codes ", " ++ h.msg_date ++ reason)
      (pos level)

abbrev pub deny : Header → Text → ℕ → Verdict
deny h reason level = (pos 1, report (codes "Deny: ") h reason level ∷ [])

unfoldable pub matches_reason : Text → Text → Text → Text
matches_reason expression line end =
    codes " [\"" ++ expression ++ codes "\" matches \"" ++ line ++ codes "\"" ++ end ++ codes "]."

-- The loop of a negative rule over the lines of a header: it stops at a line that matches, and
-- acts behind the last line. An empty header has no last line.
abbrev pub none_matches : (Entry → Bool) → List Entry → Bool
none_matches hit [] = false
none_matches hit (e ∷ []) = not (hit e)
none_matches hit (e ∷ d ∷ es) = not (hit e) && none_matches hit (d ∷ es)

module _ {R : Type 0} (rx : Regex R) (p : Preferences R) (h : Header) where
  -- The test on a line that also looks at the normalised subject.
  abbrev pub matches_entry : Filter R → Entry → Bool
  matches_entry f e =
      matches rx f (line_of e)
      || (p.norm && str_eq e.tag (codes "Subject") && matches rx f h.msg_normal_subject)

unfoldable pub negative_reason : {R : Type 0} → Text → Filter R → Text
negative_reason kind f =
    codes " [Negative " ++ kind ++ codes " rule \"" ++ f.expr ++ codes "\" did not match]."
