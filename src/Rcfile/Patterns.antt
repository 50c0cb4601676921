-- ===== src/Rcfile/Patterns.antt =====
-- src/rcfile.ll: the states and patterns of the scanner of the configuration file, which does not tell
-- upper from lower case.
use mailfilter.Rcfile.{Keyword}
use mailfilter.Base.{
  ℕ, ltb, ◌==◌, if◌then◌else◌, Bool, true, false, not, ◌&&◌, ◌||◌, Option, none, some, List, [],
  ◌∷◌, ◌++◌, map,
}
use mailfilter.Text.{Text, codes, isalpha, isdigit, toupper}
use mailfilter.Flex.{Match, Candidate, byte_match, further, run, prefixed, is_dot}

-- The states in YY_START; CTRL is never entered.
pub data StartState : Type 0 where
  initial_state incl param param_num param_bool : StartState

pub data Pattern : Type 0 where
  include_begin incl_blanks incl_name remark equals_sign not_equal_sign quote_mark number
        shell_command env_variable yes_no text closing_quote control blank newline other :
      Pattern
  keyword_pattern : Keyword → Pattern

-- A word in upper or lower case.
unfoldable pub word_match : Text → Text → Option Match
word_match [] s = some ([], s)
word_match (w ∷ ws) [] = none
word_match (w ∷ ws) (c ∷ s) =
    let more = word_match ws s in if toupper w == toupper c then further c more else none

abbrev pub is_blank : ℕ → Bool
is_blank c = c == 32 || c == 9

abbrev pub is_graph : ℕ → Bool
is_graph c = ltb 32 c && ltb c 127

-- `include[ \t]*=`
unfoldable pub include_match : Text → Option Match
include_match s = elim (word_match (codes "include") s) [
  | none ↦ none
  | some (m, t) ↦
      let (blanks, rest) = run is_blank t in
      elim rest [
        | [] ↦ none
        | ◌∷◌ c last ↦ if c == b'=' then some (m ++ (blanks ++ c ∷ []), last) else none
      ]
]

-- `^[[:blank:]]*#.*`
unfoldable pub remark_match : Bool → Text → Option Match
remark_match false s = none
remark_match true s =
    let (blanks, rest) = run is_blank s in
    elim rest [
      | [] ↦ none
      | ◌∷◌ c t ↦
          let (m, last) = run is_dot t in if c == b'#' then some (blanks ++ c ∷ m, last) else none
    ]

-- A class of bytes, once or more.
unfoldable pub run_match : (ℕ → Bool) → Text → Option Match
run_match p [] = none
run_match p (c ∷ s) = if p c then some (prefixed c (run p s)) else none

-- `(\+|\-|[0-9])[0-9]*`
unfoldable pub number_match : Text → Option Match
number_match [] = none
number_match (c ∷ s) =
    if c == b'+' || c == b'-' || isdigit c then some (prefixed c (run isdigit s)) else none

-- Up to the last apostrophe.
unfoldable pub to_last_apostrophe : Text → Option Match
to_last_apostrophe [] = none
to_last_apostrophe (c ∷ s) = elim (to_last_apostrophe s) [
  | some (m, rest) ↦ some (c ∷ m, rest)
  | none ↦ if c == 39 then some (c ∷ [], s) else none
]

-- A back quote, `([[:graph:]]|[[:blank:]])+` and an apostrophe.
unfoldable pub shell_match : Text → Option Match
shell_match [] = none
shell_match (c ∷ s) =
    let (line, rest) = run (λ d. is_graph d || is_blank d) s in
    if c == b'`'
    then (elim line [
      | [] ↦ none
      | ◌∷◌ d t ↦ elim (to_last_apostrophe t) [
        | none ↦ none
        | some (m, last) ↦ some (c ∷ d ∷ m, last ++ rest)
      ]
    ])
    else none

-- `[\$]([[:alnum:]]|_)+`
unfoldable pub env_match : Text → Option Match
env_match [] = none
env_match (c ∷ s) =
    let m = run_match (λ d. isalpha d || isdigit d || d == b'_') s in
    if c == b'$' then further c m else none

-- `\"[[:blank:]]*$`, with the line feed that has to follow on it.
unfoldable pub closing_match : Text → Option Match
closing_match [] = none
closing_match (c ∷ s) =
    let (blanks, rest) = run is_blank s in
    if c == 34
    then (elim rest [
      | [] ↦ none
      | ◌∷◌ d t ↦ if d == 10 then some (c ∷ (blanks ++ d ∷ []), t) else none
    ])
    else none

-- The keywords, in the order of the rules.
abbrev pub keywords : List (Keyword × Text)
keywords =
    (Keyword.allow, codes "allow")
    ∷ (Keyword.allow_case, codes "allow_case")
    ∷ (Keyword.allow_nocase, codes "allow_nocase")
    ∷ (Keyword.del_duplicates, codes "del_duplicates")
    ∷ (Keyword.deny, codes "deny")
    ∷ (Keyword.deny_case, codes "deny_case")
    ∷ (Keyword.deny_nocase, codes "deny_nocase")
    ∷ (Keyword.highscore, codes "highscore")
    ∷ (Keyword.logfile, codes "logfile")
    ∷ (Keyword.maxlength, codes "maxlength")
    ∷ (Keyword.maxsize_allow, codes "maxsize_allow")
    ∷ (Keyword.maxsize_deny, codes "maxsize_deny")
    ∷ (Keyword.maxsize_score, codes "maxsize_score")
    ∷ (Keyword.normal, codes "normal")
    ∷ (Keyword.server, codes "server")
    ∷ (Keyword.user, codes "user")
    ∷ (Keyword.pass, codes "pass")
    ∷ (Keyword.protocol, codes "protocol")
    ∷ (Keyword.port, codes "port")
    ∷ (Keyword.reg_case, codes "reg_case")
    ∷ (Keyword.reg_type, codes "reg_type")
    ∷ (Keyword.show_headers, codes "show_headers")
    ∷ (Keyword.score, codes "score")
    ∷ (Keyword.score_case, codes "score_case")
    ∷ (Keyword.score_nocase, codes "score_nocase")
    ∷ (Keyword.test, codes "test")
    ∷ (Keyword.timeout, codes "timeout")
    ∷ (Keyword.verbose, codes "verbose")
    ∷ []

-- The rules that every state has, at their end.
unfoldable pub common_patterns : Text → List (Candidate Pattern)
common_patterns s =
    (blank, byte_match is_blank s)
    ∷ (newline, byte_match (λ c. c == 10) s)
    ∷ (other, byte_match is_dot s)
    ∷ []

unfoldable pub param_patterns : Text → List (Candidate Pattern)
unfolding common_patterns
param_patterns s =
    (shell_command, shell_match s)
    ∷ (env_variable, env_match s)
    ∷ (text, run_match (λ c. isalpha c || isdigit c) s)
    ∷ (closing_quote, closing_match s)
    ∷ (control, byte_match is_dot s)
    ∷ common_patterns s

-- The rules of INITIAL, PARAM_NUM and PARAM_BOOL, with `own` as those that only one of them has.
unfoldable pub open_patterns : Bool → List (Candidate Pattern) → Text → List (Candidate Pattern)
unfolding common_patterns
open_patterns bol own s =
    (include_begin, include_match s)
    ∷ (remark, remark_match bol s)
    ∷ (map (λ k. (keyword_pattern k.0, word_match k.1 s)) keywords
        ++ (equals_sign, byte_match (λ c. c == b'=') s)
          ∷ (not_equal_sign, word_match (codes "<>") s)
          ∷ (quote_mark, byte_match (λ c. c == 34) s)
          ∷ (own ++ common_patterns s))

unfoldable pub patterns : StartState → Bool → Text → List (Candidate Pattern)
unfolding open_patterns param_patterns common_patterns
patterns incl bol s =
    (incl_blanks, some (run is_blank s))
    ∷ (incl_name, run_match (λ c. not (is_blank c || c == 10)) s)
    ∷ common_patterns s
patterns param bol s = param_patterns s
patterns initial_state bol s = open_patterns bol [] s
patterns param_num bol s = open_patterns bol ((number, number_match s) ∷ []) s
patterns param_bool bol s =
    open_patterns bol
      ((yes_no, word_match (codes "yes") s)
        ∷ (yes_no, word_match (codes "no") s)
        ∷ (closing_quote, closing_match s)
        ∷ [])
      s
