-- ===== src/Rfc822/Scanner.antt =====
-- src/rfc822.ll: the scanner of a message header. As flex does, it takes the longest match among the
-- rules of its start condition, the first such rule if several are as long, and copies a byte that
-- begins no match to standard output.
use mailfilter.Base.{
  ◌==◌, if◌then◌else◌, ℕ, Bool, ◌&&◌, ◌||◌, Option, none, some, List, [], ◌∷◌, ◌++◌, map, length,
  zero, suc, true, false,
}
use mailfilter.Text.{Text, codes, str_eq, isalpha, isdigit, isspace, toupper}
use mailfilter.Pop3.{HeaderParser}
use mailfilter.Rfc822.{Token, at_entry, body, header_end, reduce, tag, topline}
use mailfilter.Flex.{
  Candidate, longest, Match, further, byte_match, ends_line, run, is_dot, prefixed,
}

pub data Condition : Type 0 where
  initial body_ready tag_ready : Condition

pub data Rule : Type 0 where
  topline_rule tag_rule body_rule more_rule end_rule blank_rule newline_rule : Rule

-- `.*{NL}`, where `{NL}` is a carriage return and a line feed.
unfoldable pub line_match : Text → Option Match
line_match [] = none
line_match (c ∷ []) = none
line_match (c ∷ d ∷ s) =
    let more = line_match (d ∷ s) in
    if c == 10 then none else if c == 13 && d == 10 then some (13 ∷ 10 ∷ [], s) else further c more

-- `^From[[:space:]].*{NL}`, where the scanner does not tell upper from lower case.
abbrev pub is_from : Text → Bool
is_from t = str_eq (map toupper t) (codes "FROM")

unfoldable pub topline_match : Bool → Text → Option Match
topline_match bol (f ∷ r ∷ o ∷ m ∷ c ∷ s) =
    if bol && is_from (f ∷ r ∷ o ∷ m ∷ []) && isspace c
    then further f (further r (further o (further m (further c (line_match s)))))
    else none
topline_match bol s = none

abbrev pub is_tag_byte : ℕ → Bool
is_tag_byte c = isalpha c || isdigit c || c == b'-'

-- `^[[:alpha:]]+([[:alnum:]]|\-)*\:[[:space:]]*`
unfoldable pub tag_match : Bool → Text → Option Match
tag_match bol [] = none
tag_match bol (c ∷ s) =
    let (name, rest) = run is_tag_byte s in
    if bol && isalpha c
    then (elim rest [
      | [] ↦ none
      | ◌∷◌ d t ↦
          let (spaces, last) = run isspace t in
          if d == b':' then some (c ∷ (name ++ d ∷ spaces), last) else none
    ])
    else none

-- `(.*|[[:space:]]){NL}`: its second part is longer only for a line feed.
unfoldable pub body_match : Text → Option Match
body_match (c ∷ d ∷ e ∷ s) =
    if c == 10 && d == 13 && e == 10
    then some (10 ∷ 13 ∷ 10 ∷ [], s)
    else line_match (c ∷ d ∷ e ∷ s)
body_match s = line_match s

-- `^[[:space:]].*`
unfoldable pub more_match : Bool → Text → Option Match
more_match bol [] = none
more_match bol (c ∷ s) = if bol && isspace c then some (prefixed c (run is_dot s)) else none

-- `{NL}\.{NL}`
abbrev pub dot_line : Text
dot_line = 13 ∷ 10 ∷ b'.' ∷ 13 ∷ 10 ∷ []

unfoldable pub end_match : Text → Option Match
end_match (a ∷ b ∷ c ∷ d ∷ e ∷ s) =
    if str_eq (a ∷ b ∷ c ∷ d ∷ e ∷ []) dot_line then some (dot_line, s) else none
end_match s = none

-- The rules of a start condition, in the order of the file, with their longest matches. INITIAL and
-- TAG_READY have those without a condition as well.
unfoldable pub open_candidates : Bool → Text → List (Candidate Rule)
open_candidates bol s =
    (tag_rule, tag_match bol s)
    ∷ (more_rule, more_match bol s)
    ∷ (end_rule, end_match s)
    ∷ (blank_rule, byte_match (λ c. c == 32 || c == 9) s)
    ∷ (newline_rule, byte_match (λ c. c == 10) s)
    ∷ []

unfoldable pub candidates : Condition → Bool → Text → List (Candidate Rule)
unfolding open_candidates
candidates body_ready bol s =
    (body_rule, body_match s)
    ∷ (blank_rule, byte_match (λ c. c == 32 || c == 9) s)
    ∷ (newline_rule, byte_match (λ c. c == 10) s)
    ∷ []
candidates tag_ready bol s = open_candidates bol s
candidates initial bol s = (topline_rule, topline_match bol s) ∷ open_candidates bol s

-- `substr (0, find_last_of (":"))`, on a text that has a colon.
unfoldable pub before_last_colon : Text → Option Text
before_last_colon [] = none
before_last_colon (c ∷ s) = elim (before_last_colon s) [
  | some t ↦ some (c ∷ t)
  | none ↦ if c == b':' then some [] else none
]

-- What `snprintf` keeps of a body: all but its last two bytes.
unfoldable pub without_end : Text → Text
without_end [] = []
without_end (c ∷ []) = []
without_end (c ∷ d ∷ []) = []
without_end (c ∷ d ∷ e ∷ s) = c ∷ without_end (d ∷ e ∷ s)

abbrev pub blank_spaces : Text → Text
blank_spaces = map (λ c. if isspace c then 32 else c)

-- The action of a rule on `yytext`: the token that it returns, if any, and the next start condition.
-- The text that TAG matches has a colon, so that `substr` is within bounds.
unfoldable pub action : Rule → Condition → Text → Option Token × Condition
action topline_rule k yytext = (some (topline yytext), k)
action tag_rule k yytext = elim (before_last_colon yytext) [
  | some the_tag ↦ (some (tag the_tag), body_ready)
  | none ↦ (some (tag yytext), body_ready)
]
action body_rule k yytext = (some (body (without_end yytext)), initial)
action more_rule k yytext = (some (body (blank_spaces yytext)), tag_ready)
action end_rule k yytext = (some (header_end yytext), k)
action blank_rule k yytext = (none, k)
action newline_rule k yytext = (none, initial)

-- The tokens, and what was copied to standard output.
abbrev pub Scanned : Type 0
Scanned = List Token × Text

abbrev pub with_token : Option Token → Option Scanned → Option Scanned
with_token t none = none
with_token none (some (ts, out)) = some (ts, out)
with_token (some t) (some (ts, out)) = some (t ∷ ts, out)

abbrev pub with_echo : ℕ → Option Scanned → Option Scanned
with_echo c none = none
with_echo c (some (ts, out)) = some (ts, c ∷ out)

-- Up to the end of the input; `none` if the fuel runs out.
unfoldable pub scan_from : ℕ → Condition → Bool → Text → Option Scanned
scan_from zero k bol s = none
scan_from (suc f) k bol [] = some ([], [])
scan_from (suc f) k bol (c ∷ s) = elim (longest (candidates k bol (c ∷ s))) [
  | none ↦ with_echo c (scan_from f k (c == 10) s)
  | some (r, yytext, rest) ↦
      let (token, next) = action r k yytext in
      with_token token (scan_from f next (ends_line yytext) rest)
]

unfoldable pub scan_header : Text → Option Scanned
scan_header s = scan_from (suc (length s)) initial true s

-- rfcparse: the entries in the order in which they are added, and whether the header is accepted.
unfoldable pub rfcparse : HeaderParser
rfcparse s = elim (scan_header s) [ none ↦ ([], false) | some (ts, out) ↦ reduce at_entry ts ]
