-- ===== src/Precompile.antt =====
-- `precompile_expressions` of src/mailfilter.cc: the rules are compiled in place before any message
-- is looked at.
use mailfilter.Base.{
  ℕ, [], ◌∷◌, all, ◌==◌, if◌then◌else◌, ◌≡◌, refl, Bool, not, ◌&&◌, List, map, arith,
}
use mailfilter.Text.{Text, codes}
use mailfilter.Filter.{Regex, Score, Filter, compile}
use mailfilter.Preferences.{Preferences}
use Prim.Native.Nat.{bit_or}

-- Every element up to the first whose compilation fails is replaced; the code is that of the
-- failure, and 0 if there is none.
abbrev pub compile_all : {A : Type 0} → (A → ℕ × A) → List A → ℕ × List A
compile_all comp [] = (0, [])
compile_all comp (x ∷ xs) =
    let (comp_err, x') = comp x in
    let (rest_err, xs') = compile_all comp xs in
    if comp_err == 0 then (rest_err, x' ∷ xs') else (comp_err, x' ∷ xs)

module _ {R : Type 0} (rx : Regex R) where
  -- A score is a filter, and is compiled as one.
  unfoldable pub compile_score : ℕ → Score R → ℕ × Score R
  compile_score reg_type s =
      let (comp_err, f) = compile rx reg_type s.filter in (comp_err, record s { filter = f })

  -- The code, the preferences, and the message that is written on a failure.
  unfoldable pub precompile_expressions : Preferences R → ℕ × Preferences R × Text
  precompile_expressions p =
      let (allow_err, allows) = compile_all (compile rx p.rreg_type) p.allows in
      let (deny_err, denies) = compile_all (compile rx p.rreg_type) p.denies in
      let (score_err, scores) = compile_all (compile_score p.rreg_type) p.scores in
      if not (allow_err == 0)
      then (
        allow_err,
        record p { allows = allows },
        codes "Could not compile regular expression (allow).",
      )
      else if not (deny_err == 0)
      then (
        deny_err,
        record p { allows = allows; denies = denies },
        codes "Could not compile regular expression (deny).",
      )
      else if not (score_err == 0)
      then (
        score_err,
        record p { allows = allows; denies = denies; scores = scores },
        codes "Could not compile regular expression (score).",
      )
      else (0, record p { allows = allows; denies = denies; scores = scores }, [])

-- What is left when nothing fails.
abbrev pub compile_each : {A : Type 0} → (A → ℕ × A) → List A → List A
compile_each comp xs = map (λ x. (comp x).1) xs

compile_all-zero_iff :
    {A : Type 0} (comp : A → ℕ × A) (xs : List A)
    → (compile_all comp xs).0 == 0 ≡ all (λ x. (comp x).0 == 0) xs
compile_all-zero_iff comp [] = refl
compile_all-zero_iff comp (x ∷ xs) = ground (arith, compile_all-zero_iff comp xs)

compile_all-each :
    {A : Type 0} (comp : A → ℕ × A) (xs : List A)
    → (compile_all comp xs).0 ≡ 0
    → (compile_all comp xs).1 ≡ compile_each comp xs
compile_all-each comp [] h = refl
compile_all-each comp (x ∷ xs) h = ground (arith, compile_all-each comp xs)

module _ {R : Type 0} (rx : Regex R) where
  -- The expressions of a list that `regcomp` accepts with the type and the case flag given.
  abbrev pub all_accepted : ℕ → List (Filter R) → Bool
  all_accepted reg_type fs =
      all (λ f. (rx.regcomp f.expr (bit_or reg_type f.case_sensitivity)).0 == 0) fs

  abbrev pub all_scores_accepted : ℕ → List (Score R) → Bool
  all_scores_accepted reg_type ss =
      all (λ s. (rx.regcomp s.filter.expr (bit_or reg_type s.filter.case_sensitivity)).0 == 0) ss

-- `precompile_expressions` returns 0 exactly if `regcomp` accepts the expression of every allow,
-- deny and score rule, with the expression type and the rule's case flag.
pub precompile_expressions-zero_iff :
    {R : Type 0} (rx : Regex R) (p : Preferences R)
    → ((precompile_expressions rx p).0 == 0) ≡ (
        all_accepted rx p.rreg_type p.allows
        && all_accepted rx p.rreg_type p.denies
        && all_scores_accepted rx p.rreg_type p.scores)
unfolding precompile_expressions compile compile_score
precompile_expressions-zero_iff rx p =
    let t = p.rreg_type in
    ground (
      arith,
      compile_all-zero_iff (compile rx t) p.allows,
      compile_all-zero_iff (compile rx t) p.denies,
      compile_all-zero_iff (compile_score rx t) p.scores,
    )

-- When `precompile_expressions` returns 0, it has written nothing, every rule has been compiled, and
-- the other settings are as they were.
pub precompile_expressions_lem :
    {R : Type 0} (rx : Regex R) (p : Preferences R)
    → (precompile_expressions rx p).0 ≡ 0
    → precompile_expressions rx p ≡ (
      0,
      record p {
        allows = compile_each (compile rx p.rreg_type) p.allows;
        denies = compile_each (compile rx p.rreg_type) p.denies;
        scores = compile_each (compile_score rx p.rreg_type) p.scores;
      },
      [],
    )
unfolding precompile_expressions compile compile_score
precompile_expressions_lem rx p h =
    let t = p.rreg_type in
    ground (
      arith,
      compile_all-each (compile rx t) p.allows,
      compile_all-each (compile rx t) p.denies,
      compile_all-each (compile_score rx t) p.scores,
    )
