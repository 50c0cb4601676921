-- ===== src/Rcfile/Matches.antt =====
-- Every match of a pattern of src/rcfile.ll, but for that of `[ \t]*`, is a part of the input that is
-- not empty.
use mailfilter.Rcfile.Patterns.{
  to_last_apostrophe, run_match, include_match, word_match, remark_match, closing_match,
  number_match, env_match, is_blank, shell_match, is_graph,
}
use mailfilter.Base.{
  length, ◌==◌, if◌then◌else◌, ℕ, ◌<◌, ◌≡◌, ap, ◌∙◌, Bool, true, false, ◌||◌, none, some, [], ◌∷◌,
  ◌++◌, append_assoc, arith, length-append, refl, sym, Option,
}
use mailfilter.Text.{Text, isalpha, isdigit, codes, toupper}
use mailfilter.Flex.{Match, run, prefixed, further, is_dot}
use mailfilter.Flex.Splits.{Splits, if-Splits, run_lem, further-Splits}

-- A match that may be empty.
abbrev pub Joins : Text → Option Match → Type 0
Joins s none = Unit {0}
Joins s (some (m, rest)) = m ++ rest ≡ s

further-Joins : (c : ℕ) (s : Text) (x : Option Match) → Joins s x → Splits (c ∷ s) (further c x)
further-Joins c s none p = tt
further-Joins c s (some (m, rest)) p = (ap (λ t. c ∷ t) p, omega arith)

pub Splits-Joins : (s : Text) (x : Option Match) → Splits s x → Joins s x
Splits-Joins s none p = tt
Splits-Joins s (some (m, rest)) p = p.0

word_match-Joins : (w s : Text) → Joins s (word_match w s)
unfolding word_match
word_match-Joins [] s = refl
word_match-Joins (d ∷ w) [] = tt
word_match-Joins (d ∷ w) (c ∷ s) = Splits-Joins (c ∷ s) _ (
    if-Splits (toupper d == toupper c) (c ∷ s) (further c (word_match w s)) none
      (λ h. further-Joins c s (word_match w s) (word_match-Joins w s)) (λ h. tt))

pub word_match-Splits : (d : ℕ) (w s : Text) → Splits s (word_match (d ∷ w) s)
unfolding word_match
word_match-Splits d w [] = tt
word_match-Splits d w (c ∷ s) =
    if-Splits (toupper d == toupper c) (c ∷ s) (further c (word_match w s)) none
      (λ h. further-Joins c s (word_match w s) (word_match-Joins w s)) (λ h. tt)

pub run_match-Splits : (p : ℕ → Bool) (s : Text) → Splits s (run_match p s)
unfolding run_match
run_match-Splits p [] = tt
run_match-Splits p (c ∷ s) =
    if-Splits (p c) (c ∷ s) (some (prefixed c (run p s))) none
      (λ h. (ap (λ t. c ∷ t) (run_lem p s), omega arith)) (λ h. tt)

pub number_match-Splits : (s : Text) → Splits s (number_match s)
unfolding number_match
number_match-Splits [] = tt
number_match-Splits (c ∷ s) =
    if-Splits (c == b'+' || c == b'-' || isdigit c) (c ∷ s) (some (prefixed c (run isdigit s))) none
      (λ h. (ap (λ t. c ∷ t) (run_lem isdigit s), omega arith)) (λ h. tt)

-- What is found behind a run of bytes, as far as a byte of it and what `more` finds behind that.
after_run-Splits :
    (blanks rest s : Text) (p : ℕ → Bool) (more : ℕ → Text → Match)
    → blanks ++ rest ≡ s
    → ((d : ℕ) (t : Text) → (more d t).0 ++ (more d t).1 ≡ d ∷ t)
    → ((d : ℕ) (t : Text) → 0 < length (more d t).0)
    → Splits s (elim rest [
      | [] ↦ none
      | ◌∷◌ d t ↦ if p d then some (blanks ++ (more d t).0, (more d t).1) else none
    ])
after_run-Splits blanks [] s p more e whole long = tt
after_run-Splits blanks (d ∷ t) s p more e whole long =
    if-Splits (p d) s (some (blanks ++ (more d t).0, (more d t).1)) none
      (λ h. (
        append_assoc blanks (more d t).0 (more d t).1 ∙ ap (λ u. blanks ++ u) (whole d t) ∙ e,
        omega (arith, long d t, length-append blanks (more d t).0),
      ))
      (λ h. tt)

pub remark_match-Splits : (bol : Bool) (s : Text) → Splits s (remark_match bol s)
unfolding remark_match
remark_match-Splits false s = tt
remark_match-Splits true s =
    let (blanks, rest) = run is_blank s in
    after_run-Splits blanks rest s (λ c. c == b'#')
      (λ c t. (c ∷ (run is_dot t).0, (run is_dot t).1)) (run_lem is_blank s)
      (λ c t. ap (λ u. c ∷ u) (run_lem is_dot t)) (λ c t. omega arith)

pub closing_match-Splits : (s : Text) → Splits s (closing_match s)
unfolding closing_match
closing_match-Splits [] = tt
closing_match-Splits (c ∷ s) =
    let (blanks, rest) = run is_blank s in
    if-Splits (c == 34) (c ∷ s)
      (elim rest [
        | [] ↦ none
        | ◌∷◌ d t ↦ if d == 10 then some (c ∷ (blanks ++ d ∷ []), t) else none
      ])
      none
      (λ h.
        after_run-Splits (c ∷ blanks) rest (c ∷ s) (λ d. d == 10) (λ d t. (d ∷ [], t))
          (ap (λ u. c ∷ u) (run_lem is_blank s)) (λ d t. refl) (λ d t. omega arith))
      (λ h. tt)

-- What `include_match` does with the text behind the word, and behind the blanks.
include_sign-Splits :
    (m blanks rest s : Text)
    → m ++ (blanks ++ rest) ≡ s
    → Splits s (elim rest [
      | [] ↦ none
      | ◌∷◌ c last ↦ if c == b'=' then some (m ++ (blanks ++ c ∷ []), last) else none
    ])
include_sign-Splits m blanks [] s e = tt
include_sign-Splits m blanks (c ∷ last) s e =
    if-Splits (c == b'=') s (some (m ++ (blanks ++ c ∷ []), last)) none
      (λ h. (
        append_assoc m (blanks ++ c ∷ []) last
            ∙ ap (λ u. m ++ u) (append_assoc blanks (c ∷ []) last)
            ∙ e,
        omega (arith, length-append m (blanks ++ c ∷ []), length-append blanks (c ∷ [])),
      ))
      (λ h. tt)

include_rest-Splits :
    (o : Option Match) (s : Text)
    → Joins s o
    → Splits s (elim o [
      | none ↦ none
      | some (m, t) ↦
          let (blanks, rest) = run is_blank t in
          elim rest [
            | [] ↦ none
            | ◌∷◌ c last ↦ if c == b'=' then some (m ++ (blanks ++ c ∷ []), last) else none
          ]
    ])
include_rest-Splits none s e = tt
include_rest-Splits (some (m, t)) s e =
    include_sign-Splits m (run is_blank t).0 (run is_blank t).1 s
      (ap (λ u. m ++ u) (run_lem is_blank t) ∙ e)

pub include_match-Splits : (s : Text) → Splits s (include_match s)
unfolding include_match
include_match-Splits s =
    include_rest-Splits (word_match (codes "include") s) s (word_match-Joins (codes "include") s)

last_byte-Splits :
    (c : ℕ) (s : Text) (o : Option Match)
    → Splits s o
    → Splits (c ∷ s) (elim o [
      | some (m, rest) ↦ some (c ∷ m, rest)
      | none ↦ if c == 39 then some (c ∷ [], s) else none
    ])
last_byte-Splits c s none p =
    if-Splits (c == 39) (c ∷ s) (some (c ∷ [], s)) none (λ h. (refl, omega arith)) (λ h. tt)
last_byte-Splits c s (some (m, rest)) p = (ap (λ t. c ∷ t) p.0, omega arith)

to_last_apostrophe-Splits : (s : Text) → Splits s (to_last_apostrophe s)
unfolding to_last_apostrophe
to_last_apostrophe-Splits [] = tt
to_last_apostrophe-Splits (c ∷ s) =
    last_byte-Splits c s (to_last_apostrophe s) (to_last_apostrophe-Splits s)

-- What `shell_match` does with a line and what is behind it.
command-Splits :
    (c d : ℕ) (t rest s : Text) (o : Option Match)
    → Splits t o
    → d ∷ (t ++ rest) ≡ s
    → Splits (c ∷ s) (elim o [ none ↦ none | some (m, last) ↦ some (c ∷ d ∷ m, last ++ rest) ])
command-Splits c d t rest s none p e = tt
command-Splits c d t rest s (some (m, last)) p e = (
  ap (λ u. c ∷ u) (ap (λ u. d ∷ u) (sym (append_assoc m last rest) ∙ ap (λ u. u ++ rest) p.0) ∙ e),
  omega arith,
)

shell_line-Splits :
    (c : ℕ) (line rest s : Text)
    → line ++ rest ≡ s
    → Splits (c ∷ s) (elim line [
      | [] ↦ none
      | ◌∷◌ d t ↦ elim (to_last_apostrophe t) [
        | none ↦ none
        | some (m, last) ↦ some (c ∷ d ∷ m, last ++ rest)
      ]
    ])
shell_line-Splits c [] rest s e = tt
shell_line-Splits c (d ∷ t) rest s e =
    command-Splits c d t rest s (to_last_apostrophe t) (to_last_apostrophe-Splits t) e

pub shell_match-Splits : (s : Text) → Splits s (shell_match s)
unfolding shell_match
shell_match-Splits [] = tt
shell_match-Splits (c ∷ s) =
    let (line, rest) = run (λ d. is_graph d || is_blank d) s in
    if-Splits (c == b'`') (c ∷ s)
      (elim line [
        | [] ↦ none
        | ◌∷◌ d t ↦ elim (to_last_apostrophe t) [
          | none ↦ none
          | some (m, last) ↦ some (c ∷ d ∷ m, last ++ rest)
        ]
      ])
      none (λ h. shell_line-Splits c line rest s (run_lem (λ d. is_graph d || is_blank d) s))
      (λ h. tt)

pub env_match-Splits : (s : Text) → Splits s (env_match s)
unfolding env_match
env_match-Splits [] = tt
env_match-Splits (c ∷ s) =
    let m = run_match (λ d. isalpha d || isdigit d || d == b'_') s in
    if-Splits (c == b'$') (c ∷ s) (further c m) none
      (λ h. further-Splits c s m (run_match-Splits _ s)) (λ h. tt)
