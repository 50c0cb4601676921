-- ===== src/Verdicts/Points.antt =====
-- The score of a message is a sum, and the status of `check_scores` compares it.
use mailfilter.Base.Int.{
  ◌+ℤ◌, +ℤ_assoc, sum, wrap, add_int-wrap, ℤ, pos, ltb_ℤ, IsInt, wrap_of_IsInt, +ℤ-zero,
}
use mailfilter.Base.{
  if◌then◌else◌, Bool-cases, ◌≡◌, inl, inr, not, ◌&&◌, List, [], ◌∷◌, map, sym, arith,
}
use mailfilter.Filter.{Regex, Score}
use mailfilter.Preferences.{Preferences}
use mailfilter.Header.{Header, Entry}
use mailfilter.Weeder.Scores.{
  size_points, score_entry, check_scores, score_negative, score_entries, apply_negative_rule,
  apply_rule, tally,
}
use mailfilter.Feedback.{Message}
use mailfilter.Verdicts.Allow.{misses_all, none_matches_lem}
use mailfilter.Weeder.Report.{matches_entry, none_matches}

module _ {R : Type 0} (rx : Regex R) (p : Preferences R) (h : Header) where
  -- What a rule adds for one entry, and what it adds once for the whole header.
  abbrev pub entry_points : Entry → Score R → ℤ
  entry_points e s =
      if not s.filter.negativity && matches_entry rx p h s.filter e then s.scr else pos 0

  abbrev pub negative_points : List Entry → Score R → ℤ
  negative_points es s =
      if s.filter.negativity && misses_all (matches_entry rx p h s.filter) es then s.scr else pos 0

  abbrev pub all_entry_points : List (Score R) → List Entry → ℤ
  all_entry_points ss es = sum (map (λ e. sum (map (entry_points e) ss)) es)

  -- The sum over the integers.
  abbrev pub total_points : ℤ
  total_points =
      size_points rx p h
      +ℤ all_entry_points p.scores h.msg_entries
      +ℤ sum (map (negative_points h.msg_entries) p.scores)

  size_points-IsInt : IsInt p.size_score.score → IsInt (size_points rx p h)
  unfolding size_points
  size_points-IsInt i = ground arith

  apply_rule_status :
      (e : Entry) (s : Score R) (t : ℤ × List Message) (a : ℤ)
      → t.0 ≡ wrap a
      → (apply_rule rx p h e s t).0 ≡ wrap (a +ℤ entry_points e s)
  unfolding apply_rule
  apply_rule_status e s (n, ms) a q =
      elim (Bool-cases (not s.filter.negativity && matches_entry rx p h s.filter e)) [
        | inl b ↦ rw (b, q) (add_int-wrap a s.scr)
        | inr b ↦ rw (b, +ℤ-zero) q
      ]

  apply_negative_rule_status :
      (es : List Entry) (s : Score R) (t : ℤ × List Message) (a : ℤ)
      → t.0 ≡ wrap a
      → (apply_negative_rule rx p h es s t).0 ≡ wrap (a +ℤ negative_points es s)
  unfolding apply_negative_rule
  apply_negative_rule_status es s (n, ms) a q =
      rw (← none_matches_lem (matches_entry rx p h s.filter) es)
        (elim (Bool-cases
          (s.filter.negativity && none_matches (matches_entry rx p h s.filter) es)) [
            | inl b ↦ rw (b, q) (add_int-wrap a s.scr)
            | inr b ↦ rw (b, +ℤ-zero) q
          ])

  score_entry_status :
      (e : Entry) (ss : List (Score R)) (t : ℤ × List Message) (a : ℤ)
      → t.0 ≡ wrap a
      → (score_entry rx p h e ss t).0 ≡ wrap (a +ℤ sum (map (entry_points e) ss))
  unfolding score_entry sum
  score_entry_status e [] t a q = rw +ℤ-zero q
  score_entry_status e (s ∷ ss) t a q =
      let b = entry_points e s in
      rw (← +ℤ_assoc a b (sum (map (entry_points e) ss)))
        (score_entry_status e ss (apply_rule rx p h e s t) (a +ℤ b) (apply_rule_status e s t a q))

  score_entries_status :
      (ss : List (Score R)) (es : List Entry) (t : ℤ × List Message) (a : ℤ)
      → t.0 ≡ wrap a
      → (score_entries rx p h ss es t).0 ≡ wrap (a +ℤ all_entry_points ss es)
  unfolding score_entries sum
  score_entries_status ss [] t a q = rw +ℤ-zero q
  score_entries_status ss (e ∷ es) t a q =
      let b = sum (map (entry_points e) ss) in
      rw (← +ℤ_assoc a b (all_entry_points ss es)) (
        score_entries_status ss es (score_entry rx p h e ss t) (a +ℤ b)
          (score_entry_status e ss t a q))

  score_negative_status :
      (es : List Entry) (ss : List (Score R)) (t : ℤ × List Message) (a : ℤ)
      → t.0 ≡ wrap a
      → (score_negative rx p h es ss t).0 ≡ wrap (a +ℤ sum (map (negative_points es) ss))
  unfolding score_negative sum
  score_negative_status es [] t a q = rw +ℤ-zero q
  score_negative_status es (s ∷ ss) t a q =
      let b = negative_points es s in
      rw (← +ℤ_assoc a b (sum (map (negative_points es) ss))) (
        score_negative_status es ss (apply_negative_rule rx p h es s t) (a +ℤ b)
          (apply_negative_rule_status es s t a q))

  tally_status : IsInt p.size_score.score → (tally rx p h).0 ≡ wrap total_points
  unfolding tally
  tally_status i =
      let a = size_points rx p h in
      let b = all_entry_points p.scores h.msg_entries in
      score_negative_status h.msg_entries p.scores
        (score_entries rx p h p.scores h.msg_entries (a, [])) (a +ℤ b)
        (score_entries_status p.scores h.msg_entries (a, []) a
          (sym (wrap_of_IsInt a (size_points-IsInt i))))

  compare_status :
      (check_scores rx p h).0 ≡ (if not (ltb_ℤ (tally rx p h).0 p.high_score) then pos 1 else pos 0)
  unfolding check_scores
  compare_status = ground arith

  -- The score that `check_scores` compares is the points of MAXSIZE_SCORE, if they apply, and of
  -- every positive rule for every line that it matches (or under whose tag `Subject` it matches the
  -- normalised subject), and of every negative rule that matches nothing, once: their sum over the
  -- integers, wrapped to an `int` at the end. It returns 1 if this reaches the high score and 0
  -- otherwise. The points of MAXSIZE_SCORE are assumed to be an `int`.
  pub check_scores_status :
      IsInt p.size_score.score
      → (check_scores rx p h).0
        ≡ (if not (ltb_ℤ (wrap total_points) p.high_score) then pos 1 else pos 0)
  check_scores_status i = rw (← tally_status i) compare_status
