-- ===== src/Rcfile/Candidates.antt =====
-- src/rcfile.ll: the rules of each start state split the input, and one of them matches a byte at
-- least.
use mailfilter.Rcfile.Patterns.{
  incl_name, other, initial_state, incl, param, param_num, param_bool, keyword_pattern,
  closing_quote, equals_sign, not_equal_sign, quote_mark, number, yes_no, open_patterns, patterns,
  closing_match, common_patterns, Pattern, word_match, param_patterns, StartState, is_blank,
  keywords, number_match, run_match, shell_command, shell_match, env_variable, env_match, text,
  control, include_begin, include_match, remark, remark_match, blank, newline, incl_blanks,
}
use mailfilter.Base.{
  length, all, All, All-append, ltb, ◌==◌, if◌then◌else◌, Bool-cases, ℕ, ◌<◌, ◌≡◌, refl, inl, inr,
  Bool, true, false, none, some, List, [], ◌∷◌, ◌++◌, map, arith, ==_iff, not, ◌||◌,
}
use mailfilter.Text.{Text, codes, isalpha, isdigit}
use mailfilter.Flex.{Candidate, Match, run, is_dot, byte_match}
use mailfilter.Rcfile.{Keyword}
use mailfilter.Flex.Splits.{byte_match-Splits, Splits, run_lem, Covers, Covers-append}
use mailfilter.Rcfile.Matches.{
  word_match-Splits, include_match-Splits, run_match-Splits, remark_match-Splits,
  shell_match-Splits, env_match-Splits, closing_match-Splits, number_match-Splits, Joins,
  Splits-Joins,
}

-- A closing quotation mark is matched with its line feed, which is put back.
abbrev IsLong : Candidate Pattern → Type 0
IsLong (closing_quote, some (m, rest)) = (c : ℕ) × (blanks : Text) × (m ≡ c ∷ (blanks ++ 10 ∷ []))
IsLong _ = Unit {0}

abbrev IsGood : Text → Candidate Pattern → Type 0
IsGood s c = Splits s c.1 × IsLong c

closing_blanks-IsLong :
    (c : ℕ) (blanks rest : Text)
    → IsLong (
      closing_quote,
      elim rest [
        | [] ↦ none
        | ◌∷◌ d t ↦ if d == 10 then some (c ∷ (blanks ++ d ∷ []), t) else none
      ],
    )
closing_blanks-IsLong c blanks [] = tt
closing_blanks-IsLong c blanks (d ∷ t) = elim (Bool-cases (d == 10)) [
  | inl h ↦ rw h (c, blanks, rw ((==_iff d 10).0 h) refl)
  | inr h ↦ rw h tt
]

closing_match-IsLong : (s : Text) → IsLong (closing_quote, closing_match s)
unfolding closing_match
closing_match-IsLong [] = tt
closing_match-IsLong (c ∷ s) = elim (Bool-cases (c == 34)) [
  | inl h ↦ rw h (closing_blanks-IsLong c (run is_blank s).0 (run is_blank s).1)
  | inr h ↦ rw h tt
]

common_patterns-AllGood : (s : Text) → All (IsGood s) (common_patterns s)
unfolding common_patterns
common_patterns-AllGood s = (
  (byte_match-Splits is_blank s, tt),
  ((byte_match-Splits _ s, tt), ((byte_match-Splits is_dot s, tt), tt)),
)

keywords-AllGood :
    (s : Text) (ks : List (Keyword × Text))
    → all (λ k. ltb 0 (length k.1)) ks ≡ true
    → All (IsGood s) (map (λ k. (keyword_pattern k.0, word_match k.1 s)) ks)
keywords-AllGood s [] h = tt
keywords-AllGood s ((k, []) ∷ ks) h = absurd (ground (arith, h))
keywords-AllGood s ((k, c ∷ w) ∷ ks) h =
    ((word_match-Splits c w s, tt), keywords-AllGood s ks (ground (arith, h)))

open_patterns-AllGood :
    (bol : Bool) (own : List (Candidate Pattern)) (s : Text)
    → All (IsGood s) own
    → All (IsGood s) (open_patterns bol own s)
unfolding open_patterns
open_patterns-AllGood bol own s h =
    let end : List (Candidate Pattern) = own ++ common_patterns s in
    let last : All (IsGood s) end =
      All-append (IsGood s) own (common_patterns s) h (common_patterns-AllGood s) in
    let signs : List (Candidate Pattern) =
      (equals_sign, byte_match (λ c. c == b'=') s)
      ∷ (not_equal_sign, word_match (codes "<>") s)
      ∷ (quote_mark, byte_match (λ c. c == 34) s)
      ∷ end in
    let behind : All (IsGood s) signs = (
      (byte_match-Splits _ s, tt),
      ((word_match-Splits b'<' (codes ">") s, tt), ((byte_match-Splits _ s, tt), last)),
    ) in
    (
      (include_match-Splits s, tt),
      (
        (remark_match-Splits bol s, tt),
        All-append (IsGood s) (map (λ k. (keyword_pattern k.0, word_match k.1 s)) keywords) signs
            (keywords-AllGood s keywords refl) behind,
      ),
    )

-- What holds of every candidate, also of the one that may be empty.
abbrev pub IsFair : Text → Candidate Pattern → Type 0
IsFair s c = Joins s c.1 × IsLong c

Good-Fair : (s : Text) (cs : List (Candidate Pattern)) → All (IsGood s) cs → All (IsFair s) cs
Good-Fair s [] h = tt
Good-Fair s (c ∷ cs) h = ((Splits-Joins s c.1 h.0.0, h.0.1), Good-Fair s cs h.1)

pub patterns-AllFair : (k : StartState) (bol : Bool) (s : Text) → All (IsFair s) (patterns k bol s)
unfolding patterns param_patterns
patterns-AllFair incl bol s = (
  (run_lem is_blank s, tt),
  Good-Fair s ((incl_name, run_match (λ c. not (is_blank c || c == 10)) s) ∷ common_patterns s)
      ((run_match-Splits _ s, tt), common_patterns-AllGood s),
)
patterns-AllFair param bol s = Good-Fair s (param_patterns s) (
  (shell_match-Splits s, tt),
  (
    (env_match-Splits s, tt),
    (
      (run_match-Splits _ s, tt),
      (
        (closing_match-Splits s, closing_match-IsLong s),
        ((byte_match-Splits is_dot s, tt), common_patterns-AllGood s),
      ),
    ),
  ),
)
patterns-AllFair initial_state bol s =
    Good-Fair s (open_patterns bol [] s) (open_patterns-AllGood bol [] s tt)
patterns-AllFair param_num bol s =
    let own : List (Candidate Pattern) = (number, number_match s) ∷ [] in
    Good-Fair s (open_patterns bol own s)
      (open_patterns-AllGood bol own s ((number_match-Splits s, tt), tt))
patterns-AllFair param_bool bol s =
    let own : List (Candidate Pattern) =
      (yes_no, word_match (codes "yes") s)
      ∷ (yes_no, word_match (codes "no") s)
      ∷ (closing_quote, closing_match s)
      ∷ [] in
    let good : All (IsGood s) own = (
      (word_match-Splits b'y' (codes "es") s, tt),
      (
        (word_match-Splits b'n' (codes "o") s, tt),
        ((closing_match-Splits s, closing_match-IsLong s), tt),
      ),
    ) in
    Good-Fair s (open_patterns bol own s) (open_patterns-AllGood bol own s good)

some_byte-Covers :
    (a b : Bool) (m : Match)
    → 0 < length m.0
    → Covers {R = Pattern} (
        (blank, if a then some m else none)
        ∷ (newline, if b then some m else none)
        ∷ (other, if not b then some m else none)
        ∷ [])
some_byte-Covers true b m h = inl h
some_byte-Covers false true m h = inl h
some_byte-Covers false false m h = inl h

-- The rules that every state has match any byte.
common_patterns-Covers : (c : ℕ) (s : Text) → Covers (common_patterns (c ∷ s))
unfolding common_patterns byte_match
common_patterns-Covers c s = some_byte-Covers (is_blank c) (c == 10) (c ∷ [], s) (omega arith)

open_patterns-Covers :
    (bol : Bool) (own : List (Candidate Pattern)) (c : ℕ) (s : Text)
    → Covers (open_patterns bol own (c ∷ s))
unfolding open_patterns
open_patterns-Covers bol own c s =
    let start : List (Candidate Pattern) =
      (include_begin, include_match (c ∷ s)) ∷ (remark, remark_match bol (c ∷ s)) ∷ [] in
    let words = map (λ k. (keyword_pattern k.0, word_match k.1 (c ∷ s))) keywords in
    let signs : List (Candidate Pattern) =
      (equals_sign, byte_match (λ d. d == b'=') (c ∷ s))
      ∷ (not_equal_sign, word_match (codes "<>") (c ∷ s))
      ∷ (quote_mark, byte_match (λ d. d == 34) (c ∷ s))
      ∷ [] in
    let end = own ++ common_patterns (c ∷ s) in
    Covers-append start (words ++ signs ++ end) (
      Covers-append words (signs ++ end) (
        Covers-append signs end
          (Covers-append own (common_patterns (c ∷ s)) (common_patterns-Covers c s))))

-- In every state some rule matches a byte at least.
pub patterns-Covers :
    (k : StartState) (bol : Bool) (c : ℕ) (s : Text) → Covers (patterns k bol (c ∷ s))
unfolding patterns param_patterns
patterns-Covers incl bol c s =
    Covers-append
      ((incl_blanks, some (run is_blank (c ∷ s)))
        ∷ (incl_name, run_match (λ d. not (is_blank d || d == 10)) (c ∷ s))
        ∷ [])
      (common_patterns (c ∷ s)) (common_patterns-Covers c s)
patterns-Covers param bol c s =
    Covers-append
      ((shell_command, shell_match (c ∷ s))
        ∷ (env_variable, env_match (c ∷ s))
        ∷ (text, run_match (λ d. isalpha d || isdigit d) (c ∷ s))
        ∷ (closing_quote, closing_match (c ∷ s))
        ∷ (control, byte_match is_dot (c ∷ s))
        ∷ [])
      (common_patterns (c ∷ s)) (common_patterns-Covers c s)
patterns-Covers initial_state bol c s = open_patterns-Covers bol [] c s
patterns-Covers param_num bol c s =
    open_patterns-Covers bol ((number, number_match (c ∷ s)) ∷ []) c s
patterns-Covers param_bool bol c s =
    open_patterns-Covers bol
      ((yes_no, word_match (codes "yes") (c ∷ s))
        ∷ (yes_no, word_match (codes "no") (c ∷ s))
        ∷ (closing_quote, closing_match (c ∷ s))
        ∷ [])
      c s
