-- ===== src/Weeder/Scores.antt =====
-- `check_scores` of src/weeder.cc: the score of a message, as an `int`, against the high score.
use mailfilter.Filter.{Regex, Score}
use mailfilter.Preferences.{Preferences}
use mailfilter.Header.{Header, Entry}
use mailfilter.Weeder.Report.{Verdict, matches_entry, report, none_matches, line_of}
use mailfilter.Base.{[], List, if◌then◌else◌, ◌∷◌, ◌&&◌, not, ◌++◌}
use mailfilter.Base.Int.{ℤ, add_int, ltb_ℤ, eq_ℤ, pos}
use mailfilter.Text.{Text, codes, int_to_string}
use mailfilter.Feedback.{Message, message}

module _ {R : Type 0} (rx : Regex R) (p : Preferences R) (h : Header) where
  -- The score of MAXSIZE_SCORE.
  unfoldable pub size_points : ℤ
  size_points =
      if not (eq_ℤ p.size_score.score (pos 0))
        && ltb_ℤ (pos 0) p.size_score.size
        && ltb_ℤ p.size_score.size h.msg_size
      then p.size_score.score
      else pos 0

  abbrev pub Tally : Type 0
  Tally = ℤ × List Message

  -- A rule that applies adds its score and prints.
  unfoldable pub add_points : Tally → Score R → Text → Tally
  add_points (n, ms) s reason = (
    add_int n s.scr,
    ms
        ++ message (codes "Score: " ++ reason ++ codes "[" ++ int_to_string s.scr ++ codes "].")
            (pos 5)
          ∷ [],
  )

  -- One rule against one entry; and a negative rule against all entries.
  unfoldable pub apply_rule : Entry → Score R → Tally → Tally
  unfolding add_points
  apply_rule e s t =
      if not s.filter.negativity && matches_entry rx p h s.filter e
      then add_points t s
          (codes "\"" ++ s.filter.expr ++ codes "\" matches \"" ++ line_of e ++ codes "\" ")
      else t

  unfoldable pub apply_negative_rule : List Entry → Score R → Tally → Tally
  unfolding add_points
  apply_negative_rule es s t =
      if s.filter.negativity && none_matches (matches_entry rx p h s.filter) es
      then add_points t s (codes "<> \"" ++ s.filter.expr ++ codes "\" did not match ")
      else t

  -- The loops over the rules for one entry, over the entries, and over the negative rules.
  unfoldable pub score_entry : Entry → List (Score R) → Tally → Tally
  score_entry e [] t = t
  score_entry e (s ∷ ss) t = score_entry e ss (apply_rule e s t)

  unfoldable pub score_entries : List (Score R) → List Entry → Tally → Tally
  score_entries ss [] t = t
  score_entries ss (e ∷ es) t = score_entries ss es (score_entry e ss t)

  unfoldable pub score_negative : List Entry → List (Score R) → Tally → Tally
  score_negative es [] t = t
  score_negative es (s ∷ ss) t = score_negative es ss (apply_negative_rule es s t)

  unfoldable pub tally : Tally
  unfolding size_points score_entries score_entry score_negative apply_rule apply_negative_rule
  tally =
      score_negative h.msg_entries p.scores (score_entries p.scores h.msg_entries (size_points, []))

  -- Weeder :: check_scores
  unfoldable pub check_scores : Verdict
  check_scores =
      let (msg_score, ms) = tally in
      let reason = codes " [Score: " ++ int_to_string msg_score ++ codes "]." in
      if not (ltb_ℤ msg_score p.high_score)
      then (pos 1, ms ++ report (codes "Deny: ") h reason 2 ∷ [])
      else (pos 0, ms ++ report (codes "Pass: ") h reason 5 ∷ [])
