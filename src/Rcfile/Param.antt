-- ===== src/Rcfile/Param.antt =====
-- Which rule of src/rcfile.ll is taken within a string.
use mailfilter.Rcfile.Patterns.{
  newline, control, text, env_variable, closing_quote, env_match, shell_match, run_match,
  closing_match, param_patterns, common_patterns, Pattern, is_blank, shell_command,
}
use mailfilter.Base.{
  length, all, ltb, ◌==◌, ℕ, suc, ◌≡◌, refl, Bool, true, false, ◌||◌, none, some, List, [], ◌∷◌,
  ◌++◌, arith, if◌then◌else◌, Bool-cases, inl, inr, Option, ◌∙◌,
}
use mailfilter.Text.{Text, is_lower, isalpha, isdigit}
use mailfilter.Flex.{longest, run, is_dot, Candidate, byte_match, Match}

abbrev pub is_alnum : ℕ → Bool
is_alnum c = isalpha c || isdigit c

abbrev pub is_env : ℕ → Bool
is_env c = isalpha c || isdigit c || c == b'_'

-- The end of a string, and what is behind it.
abbrev pub ending : Text → Text
ending rest = 34 ∷ 10 ∷ rest

run-append :
    (p : ℕ → Bool) (s : Text) (d : ℕ) (rest : Text)
    → p d ≡ false
    → run p (s ++ d ∷ rest) ≡ ((run p s).0, (run p s).1 ++ d ∷ rest)
unfolding run
run-append p [] d rest h = rw h refl
run-append p (c ∷ s) d rest h = ground (arith, run-append p s d rest h)

-- A single byte, which every rule has to exceed.
control_taken :
    (c : ℕ) (s : Text)
    → is_dot c ≡ true
    → longest ((control, byte_match is_dot (c ∷ s)) ∷ common_patterns (c ∷ s))
      ≡ some (control, c ∷ [], s)
unfolding longest common_patterns byte_match
control_taken c s h = ground (arith, h)

longest-skip :
    (r : Pattern) (o : Option Match) (cs : List (Candidate Pattern))
    → o ≡ none
    → longest ((r, o) ∷ cs) ≡ longest cs
unfolding longest
longest-skip r o cs h = rw h refl

longest-first :
    (r : Pattern) (o : Option Match) (cs : List (Candidate Pattern)) {c d : ℕ} {m t u : Text}
    {q : Pattern}
    → o ≡ some (c ∷ m, t)
    → longest cs ≡ some (q, d ∷ [], u)
    → longest ((r, o) ∷ cs) ≡ some (r, c ∷ m, t)
unfolding longest
longest-first r o cs {m = m} e h =
    let same : ltb (suc (length m)) 1 ≡ false = ground arith in rw (e, h) (rw same refl)

shell_match-none : (c : ℕ) (s : Text) → (c == 96) ≡ false → shell_match (c ∷ s) ≡ none
unfolding shell_match
shell_match-none c s h = rw h refl

pub env_match-none : (c : ℕ) (s : Text) → (c == 36) ≡ false → env_match (c ∷ s) ≡ none
unfolding env_match
env_match-none c s h = rw h refl

text_match-none : (c : ℕ) (s : Text) → is_alnum c ≡ false → run_match is_alnum (c ∷ s) ≡ none
unfolding run_match
text_match-none c s h = rw h refl

pub run_rest : (q p : ℕ → Bool) (s : Text) → all q s ≡ true → all q (run p s).1 ≡ true
unfolding run
run_rest q p [] h = refl
run_rest q p (c ∷ s) h = ground (arith, h, run_rest q p s)

-- What `closing_match` does with the text behind the blanks.
behind_blanks :
    (c : ℕ) (blanks t rest : Text)
    → all is_dot t ≡ true
    → (elim (t ++ 34 ∷ rest) as (λ x. Option Match) [
      | [] ↦ none
      | ◌∷◌ d u ↦ if d == 10 then some (c ∷ (blanks ++ d ∷ []), u) else none
    ])
      ≡ none
behind_blanks c blanks [] rest h = refl
behind_blanks c blanks (d ∷ t) rest h = ground (arith, h)

-- A quotation mark closes the string only in front of a line feed.
closing_match-none :
    (c : ℕ) (s rest : Text) → all is_dot s ≡ true → closing_match (c ∷ (s ++ 34 ∷ rest)) ≡ none
unfolding closing_match
closing_match-none c s rest h = elim (Bool-cases (c == 34)) [
  | inl e ↦
      rw (e, run-append is_blank s 34 rest refl)
        (behind_blanks c (run is_blank (s ++ 34 ∷ rest)).0 (run is_blank s).1 rest
          (run_rest is_dot is_blank s h))
  | inr e ↦ rw e refl
]

pub end_taken :
    (rest : Text)
    → longest (param_patterns (ending rest)) ≡ some (closing_quote, 34 ∷ 10 ∷ [], rest)
unfolding longest param_patterns common_patterns shell_match env_match run_match closing_match
    byte_match run isalpha isdigit is_lower
end_taken rest = refl

run_match_lem :
    (p : ℕ → Bool) (c : ℕ) (s : Text) (d : ℕ) (rest : Text)
    → p c ≡ true
    → p d ≡ false
    → run_match p (c ∷ (s ++ d ∷ rest)) ≡ some (c ∷ (run p s).0, (run p s).1 ++ d ∷ rest)
unfolding run_match
run_match_lem p c s d rest h k = let e = run-append p s d rest k in rw (h, e) refl

env_match_lem :
    (c : ℕ) (s rest : Text)
    → is_env c ≡ true
    → env_match (36 ∷ c ∷ (s ++ 34 ∷ rest))
      ≡ some (36 ∷ c ∷ (run is_env s).0, (run is_env s).1 ++ 34 ∷ rest)
unfolding env_match isalpha isdigit is_lower
env_match_lem c s rest h = let e = run_match_lem is_env c s 34 rest h refl in rw e refl

alnum_lem :
    (c : ℕ) → is_alnum c ≡ true → ((c == 96) ≡ false) × ((c == 36) ≡ false) × (is_dot c ≡ true)
unfolding isalpha isdigit is_lower
alnum_lem c h = ground (arith, h)

-- A letter or a digit begins a text, as far as letters and digits go.
pub text_taken :
    (c : ℕ) (s rest : Text)
    → is_alnum c ≡ true
    → all is_dot s ≡ true
    → longest (param_patterns (c ∷ (s ++ 34 ∷ rest)))
      ≡ some (text, c ∷ (run is_alnum s).0, (run is_alnum s).1 ++ 34 ∷ rest)
unfolding param_patterns isalpha isdigit
text_taken c s rest h d =
    let (no_tick, no_dollar, dot) = alnum_lem c h in
    let u = s ++ 34 ∷ rest in
    longest-skip shell_command _ _ (shell_match-none c u no_tick)
    ∙ longest-skip env_variable _ _ (env_match-none c u no_dollar)
    ∙ longest-first text _ _ (run_match_lem is_alnum c s 34 rest h refl)
        (longest-skip closing_quote _ _ (closing_match-none c s rest d) ∙ control_taken c u dot)

-- A dollar sign with a name behind it begins a variable, as far as the name goes.
pub env_taken :
    (c : ℕ) (s rest : Text)
    → is_env c ≡ true
    → all is_dot (c ∷ s) ≡ true
    → longest (param_patterns (36 ∷ c ∷ (s ++ 34 ∷ rest)))
      ≡ some (env_variable, 36 ∷ c ∷ (run is_env s).0, (run is_env s).1 ++ 34 ∷ rest)
unfolding param_patterns isalpha isdigit
env_taken c s rest h d =
    let u = c ∷ (s ++ 34 ∷ rest) in
    longest-skip shell_command _ _ (shell_match-none 36 u refl)
    ∙ longest-first env_variable _ _ (env_match_lem c s rest h) (
        longest-skip text _ _ (text_match-none 36 u refl)
        ∙ longest-skip closing_quote _ _ (closing_match-none 36 (c ∷ s) rest d)
        ∙ control_taken 36 u refl)

-- Any other byte but a back quote is taken on its own.
pub other_taken :
    (c : ℕ) (s rest : Text)
    → is_alnum c ≡ false
    → (c == 96) ≡ false
    → all is_dot (c ∷ s) ≡ true
    → env_match (c ∷ (s ++ 34 ∷ rest)) ≡ none
    → longest (param_patterns (c ∷ (s ++ 34 ∷ rest))) ≡ some (control, c ∷ [], s ++ 34 ∷ rest)
unfolding param_patterns
other_taken c s rest h no_tick d no_env =
    let u = s ++ 34 ∷ rest in
    longest-skip shell_command _ _ (shell_match-none c u no_tick)
    ∙ longest-skip env_variable _ _ no_env
    ∙ longest-skip text _ _ (text_match-none c u h)
    ∙ longest-skip closing_quote _ _ (closing_match-none c s rest (ground (arith, d)))
    ∙ control_taken c u (ground (arith, d))

-- A dollar sign without a name begins no variable.
pub env_match-no_name :
    (s rest : Text)
    → ((c : ℕ) (t : Text) → s ≡ c ∷ t → is_env c ≡ false)
    → env_match (36 ∷ (s ++ 34 ∷ rest)) ≡ none
unfolding env_match run_match isalpha isdigit is_lower
env_match-no_name [] rest h = refl
env_match-no_name (c ∷ s) rest h = rw (h c s refl) refl

pub newline_taken :
    (rest : Text) → longest (param_patterns (10 ∷ rest)) ≡ some (newline, 10 ∷ [], rest)
unfolding longest param_patterns common_patterns shell_match env_match run_match closing_match
    byte_match isalpha isdigit is_lower
newline_taken rest = refl

pub unclosed_taken : longest (param_patterns (34 ∷ [])) ≡ some (control, 34 ∷ [], [])
unfolding longest param_patterns common_patterns shell_match env_match run_match closing_match
    byte_match run isalpha isdigit is_lower
unclosed_taken = refl
