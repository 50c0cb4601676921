-- ===== src/Rcfile/Strings.antt =====
-- What the scanner of src/rcfile.ll makes of the strings of a configuration file.
use mailfilter.Rcfile.Patterns.{Pattern, patterns, initial_state, param, env_match, run_match}
use mailfilter.Rcfile.Scanner.{
  read_all, Lexer, Reaction, rclex_from, Outcome, put_back, react, proceed,
}
use mailfilter.Rcfile.{part, ConfigToken, quote}
use mailfilter.Config.Strings.{env_var, text_id, ctrl_char, exps, Exp, exp, Popen}
use mailfilter.Base.{
  length, ℕ, zero, suc, ◌<◌, ◌≡◌, refl, sym, ap, ◌∙◌, some, List, [], ◌∷◌, ◌++◌, append-nil,
  append_assoc, arith, all, ◌==◌, ◌+◌, Bool, true, false, not, none, map, length-append, ==_iff,
  Bool-cases, inl, inr,
}
use mailfilter.Text.{Text, is_lower, isalpha, isdigit}
use mailfilter.Base.Result.{ok}
use mailfilter.Flex.{Taken, longest, ends_line, run, is_dot}
use mailfilter.Rcfile.Param.{
  ending, end_taken, is_alnum, is_env, newline_taken, env_taken, text_taken, other_taken, run_rest,
  env_match-none,
}
use mathlib.Core.Path.{subst}
use mailfilter.Flex.Splits.{run_lem}

-- The parts of a string without a command, and their text.
pub data Literal : List Exp → Text → Type 0 where
  no_part : Literal [] []
  a_text : (m t : Text) (es : List Exp) → Literal es t → Literal (text_id m ∷ es) (m ++ t)
  a_variable : (m t : Text) (es : List Exp) → Literal es t → Literal (env_var m ∷ es) (m ++ t)
  a_byte : (m t : Text) (es : List Exp) → Literal es t → Literal (ctrl_char m ∷ es) (m ++ t)

pub exps-Literal :
    {W : Type 0} (sh : Popen W) (s t : Text) (es : List Exp) (w : W)
    → Literal es t
    → exps sh s es w ≡ (some (ok (s ++ t)), w)
unfolding exps exp
exps-Literal sh s _ _ w no_part = ap (λ x. (some (ok x), w)) (sym (append-nil s))
exps-Literal sh s _ _ w (a_text m t es l) =
    exps-Literal sh (s ++ m) t es w l ∙ ap (λ x. (some (ok x), w)) (append_assoc s m t)
exps-Literal sh s _ _ w (a_variable m t es l) =
    exps-Literal sh (s ++ m) t es w l ∙ ap (λ x. (some (ok x), w)) (append_assoc s m t)
exps-Literal sh s _ _ w (a_byte m t es l) =
    exps-Literal sh (s ++ m) t es w l ∙ ap (λ x. (some (ok x), w)) (append_assoc s m t)

module _ (include : Text → Lexer → Reaction) where
  -- The scanner gets from a state through a text with any fuel beyond its length.
  abbrev pub Lexes : Lexer → Text → Reaction → Type 0
  Lexes x s r = (f : ℕ) → length s < f → rclex_from include f x s ≡ r

  pub lex_match :
      (x : Lexer) (c : ℕ) (s : Text) {taken : Taken Pattern} {r : Pattern} {m rest : Text}
      {ts us : List ConfigToken} {y : Lexer} {o : Outcome}
      → longest (patterns x.yy_start x.at_bol (c ∷ s)) ≡ some taken
      → put_back taken ≡ (r, m, rest)
      → react include (record x { at_bol = ends_line m }) r m ≡ (ts, read_all y)
      → length rest < length (c ∷ s)
      → Lexes y rest (us, o)
      → Lexes x (c ∷ s) (ts ++ us, o)
  unfolding rclex_from
  lex_match x c s e b a l go zero h = absurd (omega arith)
  lex_match x c s {taken} {r} {m} {rest} {ts} {us} {y} {o} e b a l go (suc f) h =
      let next : Taken Pattern → Reaction = λ k.
        proceed (react include (record x { at_bol = ends_line k.1 }) k.0 k.1)
          (λ z. rclex_from include f z k.2) in
      let start : rclex_from include (suc f) x (c ∷ s) ≡ next (put_back taken) =
        rw (rclex_from, e) refl in
      start
      ∙ ap next b
      ∙ ap (λ z. proceed z (λ z. rclex_from include f z rest)) a
      ∙ ap (λ z. (ts ++ z.0, z.1)) (go f (omega (arith, l)))

run_shorter : (p : ℕ → Bool) (s t : Text) → length ((run p s).1 ++ t) < suc (length (s ++ t))
run_shorter p s t = omega (
  arith,
  length-append (run p s).1 t,
  length-append s t,
  length-append (run p s).0 (run p s).1,
  ap length (run_lem p s),
)

abbrev pub no_tick : ℕ → Bool
no_tick c = not (c == 96)

-- Within a string; and behind the line feed that follows on it.
abbrev pub in_string : Lexer → Bool → Lexer
in_string x b = record x { yy_start = param; at_bol = b }

abbrev pub next_line : Lexer → Lexer
next_line x = record x { yy_start = initial_state; at_bol = true; num_lines = x.num_lines + 1 }

module _ (include : Text → Lexer → Reaction) (x : Lexer) (rest : Text) (vs : List ConfigToken)
    (o : Outcome) where
  -- The string is scanned into parts that are literally its text, in front of the tokens `vs` of a
  -- quotation mark and what is behind it.
  abbrev pub StringLexes : Bool → Text → Type 0
  StringLexes b s =
      (es : List Exp) × Literal es s
      × Lexes include (in_string x b) (s ++ 34 ∷ rest) (map part es ++ vs, o)

  text_step :
      (b : Bool) (c : ℕ) (s : Text)
      → is_alnum c ≡ true
      → all is_dot s ≡ true
      → StringLexes (ends_line (c ∷ (run is_alnum s).0)) (run is_alnum s).1
      → StringLexes b (c ∷ s)
  unfolding react patterns
  text_step b c s h d (es, l, go) =
      let (m, t) = run is_alnum s in
      (
        text_id (c ∷ m) ∷ es,
        subst (Literal (text_id (c ∷ m) ∷ es)) (ap (λ u. c ∷ u) (run_lem is_alnum s))
            (a_text (c ∷ m) t es l),
        lex_match include (in_string x b) c (s ++ 34 ∷ rest) (text_taken c s rest h d) refl refl
            (run_shorter is_alnum s (34 ∷ rest)) go,
      )

  env_step :
      (b : Bool) (c : ℕ) (s : Text)
      → is_env c ≡ true
      → all is_dot (c ∷ s) ≡ true
      → StringLexes (ends_line (36 ∷ c ∷ (run is_env s).0)) (run is_env s).1
      → StringLexes b (36 ∷ c ∷ s)
  unfolding react patterns
  env_step b c s h d (es, l, go) =
      let (m, t) = run is_env s in
      (
        env_var (36 ∷ c ∷ m) ∷ es,
        subst (Literal (env_var (36 ∷ c ∷ m) ∷ es)) (ap (λ u. 36 ∷ c ∷ u) (run_lem is_env s))
            (a_variable (36 ∷ c ∷ m) t es l),
        lex_match include (in_string x b) 36 (c ∷ (s ++ 34 ∷ rest)) (env_taken c s rest h d) refl
            refl (omega (arith, run_shorter is_env s (34 ∷ rest))) go,
      )

  byte_step :
      (b : Bool) (c : ℕ) (s : Text)
      → is_alnum c ≡ false
      → no_tick c ≡ true
      → all is_dot (c ∷ s) ≡ true
      → env_match (c ∷ (s ++ 34 ∷ rest)) ≡ none
      → StringLexes (ends_line (c ∷ [])) s
      → StringLexes b (c ∷ s)
  unfolding react patterns
  byte_step b c s h k d no_env (es, l, go) = (
    ctrl_char (c ∷ []) ∷ es,
    a_byte (c ∷ []) s es l,
    lex_match include (in_string x b) c (s ++ 34 ∷ rest)
        (other_taken c s rest h (ground (arith, k)) d no_env) refl refl (omega arith) go,
  )

  -- A dollar sign begins a variable, or stands for itself.
  dollar_step :
      (n : ℕ) (b : Bool) (c : ℕ) (s : Text)
      → (c == 36) ≡ true
      → length (c ∷ s) < suc n
      → all is_dot (c ∷ s) ≡ true
      → all no_tick (c ∷ s) ≡ true
      → is_alnum c ≡ false
      → ((b' : Bool) (t : Text)
          → length t < n
          → all is_dot t ≡ true
          → all no_tick t ≡ true
          → StringLexes b' t)
      → StringLexes b (c ∷ s)
  unfolding env_match run_match isalpha isdigit is_lower
  dollar_step n b c [] same h d k e again =
      byte_step b c [] e (ground (arith, k)) d (rw same refl) (again _ [] (omega arith) refl refl)
  dollar_step n b c (v ∷ s) same h d k e again = elim (Bool-cases (is_env v)) [
    | inl name ↦
        subst (λ u. StringLexes b (u ∷ v ∷ s)) (sym ((==_iff c 36).0 same))
          (env_step b v s name (ground (arith, d)) (
            again _ (run is_env s).1
              (omega (
                arith,
                length-append (run is_env s).0 (run is_env s).1,
                ap length (run_lem is_env s),
              ))
              (run_rest is_dot is_env s (ground (arith, d)))
              (run_rest no_tick is_env s (ground (arith, k)))))
    | inr no_name ↦
        byte_step b c (v ∷ s) e (ground (arith, k)) d (rw (same, no_name) refl)
          (again _ (v ∷ s) (omega arith) (ground (arith, d)) (ground (arith, k)))
  ]

  pub string_lexes :
      (n : ℕ) (b : Bool) (s : Text)
      → length s < n
      → all is_dot s ≡ true
      → all no_tick s ≡ true
      → ((b' : Bool) → Lexes include (in_string x b') (34 ∷ rest) (vs, o))
      → StringLexes b s
  string_lexes zero b s h d k go = absurd (omega arith)
  string_lexes (suc n) b [] h d k go = ([], no_part, go b)
  string_lexes (suc n) b (c ∷ s) h d k go = elim (Bool-cases (is_alnum c)) [
    | inl e ↦ text_step b c s e (ground (arith, d)) (
        string_lexes n _ (run is_alnum s).1
          (omega (
            arith,
            length-append (run is_alnum s).0 (run is_alnum s).1,
            ap length (run_lem is_alnum s),
          ))
          (run_rest is_dot is_alnum s (ground (arith, d)))
          (run_rest no_tick is_alnum s (ground (arith, k))) go)
    | inr e ↦ elim (Bool-cases (c == 36)) [
      | inl dollar ↦
          dollar_step n b c s dollar h d k e
            (λ b' t shorter dots ticks. string_lexes n b' t shorter dots ticks go)
      | inr other ↦
          byte_step b c s e (ground (arith, k)) d (env_match-none c (s ++ 34 ∷ rest) other)
            (string_lexes n _ s (omega arith) (ground (arith, d)) (ground (arith, k)) go)
    ]
  ]

-- A string that is closed at the end of its line.
pub closed_string :
    (include : Text → Lexer → Reaction) (x : Lexer) (rest : Text) (us : List ConfigToken)
    (o : Outcome) (b : Bool)
    → Lexes include (next_line x) rest (us, o)
    → Lexes include (in_string x b) (ending rest) (quote ∷ us, o)
unfolding react patterns
closed_string include x rest us o b go =
    lex_match include (in_string x b) 34 (10 ∷ rest) (end_taken rest) refl refl (omega arith) (
      lex_match include (in_string x false) 10 rest (newline_taken rest) refl refl (omega arith) go)

pub at_end : (include : Text → Lexer → Reaction) (x : Lexer) → Lexes include x [] ([], read_all x)
unfolding rclex_from
at_end include x zero h = absurd (omega arith)
at_end include x (suc f) h = refl
