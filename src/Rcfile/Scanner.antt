-- ===== src/Rcfile/Scanner.antt =====
-- src/rcfile.ll: the actions of the scanner of the configuration file, the files that it includes,
-- and the parser behind it.
use mailfilter.Rcfile.{
  Keyword, ConfigToken, keyword, equals, not_equal, yes_no_id, quote, num_id, part, rcparse_from,
}
use mailfilter.Config.Strings.{shell_cmd, env_var, text_id, ctrl_char, Popen, unsnoc}
use mailfilter.Rcfile.Patterns.{
  initial_state, incl, param, param_num, param_bool, include_begin, incl_blanks, incl_name, remark,
  equals_sign, not_equal_sign, quote_mark, number, shell_command, env_variable, yes_no, text,
  closing_quote, control, blank, newline, other, keyword_pattern, Pattern, StartState, patterns,
}
use mailfilter.Base.{
  length, ◌==◌, ℕ, zero, suc, ◌+◌, Bool, true, false, Option, none, some, List, [], ◌∷◌, ◌++◌,
}
use mailfilter.Base.Result.{Result}
use mailfilter.Text.{Text}
use mailfilter.Flex.{longest, Taken, ends_line}
use mailfilter.Pop3.Replies.{atoi}
use mailfilter.Preferences.Setters.{Host}
use mailfilter.Filter.{Regex}
use mailfilter.Preferences.{Preferences}

-- What the scanner keeps: whether it is at the beginning of a line, and its variables.
pub record Lexer : Type 0 where
  pub yy_start : StartState
  pub at_bol : Bool
  pub num_lines : ℕ
  pub temp_num_lines : ℕ
  pub sub_file : Text

-- Why the scanner leaves the process, with what stands in its message, which is left out; and a lack
-- of fuel, which does not occur.
pub data Failure : Type 0 where
  lexical_error : ℕ → Text → Text → Failure
  nested_too_deep out_of_fuel : Failure
  not_found not_opened : Text → Failure

-- How scanning a file ends.
pub data Outcome : Type 0 where
  read_all : Lexer → Outcome
  stopped : Failure → Outcome

abbrev pub enter : StartState → Lexer → Lexer
enter k x = record x { yy_start = k }

-- The start state behind a keyword.
unfoldable pub keyword_state : Keyword → StartState → StartState
keyword_state Keyword.del_duplicates k = param_bool
keyword_state Keyword.normal k = param_bool
keyword_state Keyword.reg_case k = param_bool
keyword_state Keyword.test k = param_bool
keyword_state Keyword.highscore k = param_num
keyword_state Keyword.maxlength k = param_num
keyword_state Keyword.maxsize_allow k = param_num
keyword_state Keyword.maxsize_deny k = param_num
keyword_state Keyword.maxsize_score k = param_num
keyword_state Keyword.port k = param_num
keyword_state Keyword.score k = param_num
keyword_state Keyword.score_case k = param_num
keyword_state Keyword.score_nocase k = param_num
keyword_state Keyword.timeout k = param_num
keyword_state Keyword.verbose k = param_num
keyword_state _ k = k

abbrev pub quote_state : StartState → StartState
quote_state param_bool = param_bool
quote_state _ = param

-- A quote at the end of a line leaves the line feed alone.
abbrev pub put_back : Taken Pattern → Taken Pattern
put_back (closing_quote, c ∷ m, rest) = (closing_quote, (unsnoc c m).0, 10 ∷ rest)
put_back taken = taken

abbrev pub Reaction : Type 0
Reaction = List ConfigToken × Outcome

-- The action of a rule on `yytext`; `include` is what the action for a file's name does.
unfoldable pub react : (Text → Lexer → Reaction) → Lexer → Pattern → Text → Reaction
unfolding keyword_state
react include x include_begin yytext =
    ([], read_all (enter incl (record x { temp_num_lines = x.num_lines; num_lines = 0 })))
react include x incl_blanks yytext = ([], read_all x)
react include x incl_name yytext = include yytext x
react include x remark yytext = ([], read_all x)
react include x (keyword_pattern k) yytext =
    (keyword k yytext ∷ [], read_all (enter (keyword_state k x.yy_start) x))
react include x equals_sign yytext = (equals yytext ∷ [], read_all x)
react include x not_equal_sign yytext = (not_equal yytext ∷ [], read_all x)
react include x quote_mark yytext = (quote ∷ [], read_all (enter (quote_state x.yy_start) x))
react include x number yytext = (num_id (atoi yytext) ∷ [], read_all x)
react include x shell_command yytext = (part (shell_cmd yytext) ∷ [], read_all x)
react include x env_variable yytext = (part (env_var yytext) ∷ [], read_all x)
react include x yes_no yytext = (yes_no_id yytext ∷ [], read_all x)
react include x text yytext = (part (text_id yytext) ∷ [], read_all x)
react include x closing_quote yytext = (quote ∷ [], read_all x)
react include x control yytext = (part (ctrl_char yytext) ∷ [], read_all x)
react include x blank yytext = ([], read_all x)
react include x newline yytext =
    ([], read_all (enter initial_state (record x { num_lines = x.num_lines + 1 })))
react include x other yytext = ([], stopped (lexical_error (x.num_lines + 1) x.sub_file yytext))

-- What follows on an action.
abbrev pub proceed : Reaction → (Lexer → Reaction) → Reaction
proceed (ts, read_all y) next = let (us, outcome) = next y in (ts ++ us, outcome)
proceed (ts, stopped failure) next = (ts, stopped failure)

-- A file from `s` on.
unfoldable pub rclex_from : (Text → Lexer → Reaction) → ℕ → Lexer → Text → Reaction
rclex_from include zero x s = ([], stopped out_of_fuel)
rclex_from include (suc f) x [] = ([], read_all x)
rclex_from include (suc f) x (c ∷ s) = elim (longest (patterns x.yy_start x.at_bol (c ∷ s))) [
  | none ↦ rclex_from include f (record x { at_bol = c == 10 }) s
  | some taken ↦
      let (r, yytext, rest) = put_back taken in
      proceed (react include (record x { at_bol = ends_line yytext }) r yytext)
        (λ y. rclex_from include f y rest)
]

abbrev pub first_lexer : Lexer
first_lexer = record {
  yy_start = initial_state;
  at_bol = true;
  num_lines = 0;
  temp_num_lines = 0;
  sub_file = [];
}

-- Behind the included file the lines are counted as before.
abbrev pub leave_file : Lexer → Reaction → Reaction
leave_file x (ts, read_all y) =
    (ts, read_all (record y { at_bol = x.at_bol; num_lines = y.temp_num_lines; sub_file = [] }))
leave_file x (ts, stopped failure) = (ts, stopped failure)

-- The included file, if it can be opened; none may be included in it.
unfoldable pub read_file : Lexer → Text → Option Text → Reaction
read_file x file none = ([], stopped (not_opened file))
read_file x file (some s) = leave_file x (
    rclex_from (λ name y. ([], stopped nested_too_deep)) (suc (length s))
      (record x { yy_start = initial_state; at_bol = true; sub_file = file }) s)

module _ (host : Host) (open_file : Text → Option Text) where
  -- The action for a file's name in the main file.
  unfoldable pub include_file : Text → Lexer → Reaction
  include_file name x = elim (host.expand name) [
    | none ↦ ([], stopped (not_found name))
    | some file ↦ read_file x file (open_file file)
  ]

  -- The whole of the main file.
  unfoldable pub rclex : Text → Reaction
  rclex s = rclex_from include_file (suc (length s)) first_lexer s

abbrev pub is_read : Outcome → Bool
is_read (read_all x) = true
is_read (stopped failure) = false

-- RCParser :: parse, on a file that has been opened; `open_file` opens those that are included.
unfoldable pub rcparse :
    {W R : Type 0}
    → Popen W
    → Regex R
    → Host
    → (Text → Option Text)
    → Preferences R
    → Text
    → W
    → Option (Result (Preferences R)) × W
rcparse sh rx host open_file p s w =
    let (ts, outcome) = rclex host open_file s in
    rcparse_from sh rx host (suc (length ts)) p ts (is_read outcome) w
