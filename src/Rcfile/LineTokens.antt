-- ===== src/Rcfile/LineTokens.antt =====
-- What the scanner of src/rcfile.ll makes of a line with a string.
use mailfilter.Config.Strings.{ctrl_char, Exp}
use mailfilter.Rcfile.Scanner.{read_all, Lexer, Reaction, react, Outcome, keyword_state}
use mailfilter.Rcfile.{keyword, equals, not_equal, quote, part, ConfigToken}
use mailfilter.Rcfile.Patterns.{
  keyword_pattern, blank, equals_sign, not_equal_sign, quote_mark, initial_state, patterns,
  open_patterns, common_patterns, include_match, remark_match, word_match,
}
use mailfilter.Base.{
  length, if◌then◌else◌, suc, ◌≡◌, refl, Bool, true, false, some, List, [], ◌∷◌, ◌++◌, map, arith,
}
use mailfilter.Text.{Text, codes, is_lower, toupper}
use mailfilter.Flex.{longest, byte_match, run}
use mailfilter.Rcfile.Lines.{Line, keyword_of, IsStringLine, written, sign_text, Key, put_line}
use mailfilter.Rcfile.Strings.{
  Lexes, in_string, next_line, Literal, lex_match, string_lexes, closed_string, at_end,
}
use mailfilter.Rcfile.Param.{unclosed_taken}

key_taken :
    (k : Key) (rest : Text)
    → longest (patterns initial_state true (written k ++ 32 ∷ rest))
      ≡ some (keyword_pattern (keyword_of k), written k, 32 ∷ rest)
unfolding longest patterns open_patterns common_patterns include_match remark_match word_match
    byte_match run toupper is_lower
key_taken Key.allow rest = refl
key_taken Key.allow_case rest = refl
key_taken Key.allow_nocase rest = refl
key_taken Key.deny rest = refl
key_taken Key.deny_case rest = refl
key_taken Key.deny_nocase rest = refl
key_taken Key.logfile rest = refl
key_taken Key.server rest = refl
key_taken Key.user rest = refl
key_taken Key.pass rest = refl
key_taken Key.protocol rest = refl
key_taken Key.reg_type rest = refl
key_taken Key.show_headers rest = refl

blank_taken :
    (u : Bool) (rest : Text)
    → longest (patterns initial_state false (32 ∷ (sign_text u ++ rest)))
      ≡ some (blank, 32 ∷ [], sign_text u ++ rest)
unfolding longest patterns open_patterns common_patterns include_match remark_match word_match
    byte_match run toupper is_lower
blank_taken true rest = refl
blank_taken false rest = refl

sign_taken :
    (u : Bool) (rest : Text)
    → longest (patterns initial_state false (sign_text u ++ 32 ∷ rest))
      ≡ some (if u then not_equal_sign else equals_sign, sign_text u, 32 ∷ rest)
unfolding longest patterns open_patterns common_patterns include_match remark_match word_match
    byte_match run toupper is_lower
sign_taken true rest = refl
sign_taken false rest = refl

second_blank_taken :
    (rest : Text)
    → longest (patterns initial_state false (32 ∷ 34 ∷ rest)) ≡ some (blank, 32 ∷ [], 34 ∷ rest)
unfolding longest patterns open_patterns common_patterns include_match remark_match word_match
    byte_match run toupper is_lower
second_blank_taken rest = refl

quote_taken :
    (rest : Text)
    → longest (patterns initial_state false (34 ∷ rest)) ≡ some (quote_mark, 34 ∷ [], rest)
unfolding longest patterns open_patterns common_patterns include_match remark_match word_match
    byte_match run toupper is_lower
quote_taken rest = refl

-- At the beginning of a line, and within one.
abbrev pub fresh : Lexer → Lexer
fresh x = record x { yy_start = initial_state; at_bol = true }

abbrev pub calm : Lexer → Lexer
calm x = record x { yy_start = initial_state; at_bol = false }

abbrev pub sign_token : Bool → ConfigToken
sign_token true = not_equal (codes "<>")
sign_token false = equals (codes "=")

module _ (include : Text → Lexer → Reaction) (x : Lexer) where
  key_step :
      (us : List ConfigToken) (o : Outcome) (k : Key) (rest : Text)
      → Lexes include (calm x) (32 ∷ rest) (us, o)
      → Lexes include
          (fresh x)
          (written k ++ 32 ∷ rest)
          (keyword (keyword_of k) (written k) ∷ us, o)
  unfolding react keyword_state
  key_step us o Key.allow rest go =
      lex_match include (fresh x) _ _ (key_taken Key.allow rest) refl refl (omega arith) go
  key_step us o Key.allow_case rest go =
      lex_match include (fresh x) _ _ (key_taken Key.allow_case rest) refl refl (omega arith) go
  key_step us o Key.allow_nocase rest go =
      lex_match include (fresh x) _ _ (key_taken Key.allow_nocase rest) refl refl (omega arith) go
  key_step us o Key.deny rest go =
      lex_match include (fresh x) _ _ (key_taken Key.deny rest) refl refl (omega arith) go
  key_step us o Key.deny_case rest go =
      lex_match include (fresh x) _ _ (key_taken Key.deny_case rest) refl refl (omega arith) go
  key_step us o Key.deny_nocase rest go =
      lex_match include (fresh x) _ _ (key_taken Key.deny_nocase rest) refl refl (omega arith) go
  key_step us o Key.logfile rest go =
      lex_match include (fresh x) _ _ (key_taken Key.logfile rest) refl refl (omega arith) go
  key_step us o Key.server rest go =
      lex_match include (fresh x) _ _ (key_taken Key.server rest) refl refl (omega arith) go
  key_step us o Key.user rest go =
      lex_match include (fresh x) _ _ (key_taken Key.user rest) refl refl (omega arith) go
  key_step us o Key.pass rest go =
      lex_match include (fresh x) _ _ (key_taken Key.pass rest) refl refl (omega arith) go
  key_step us o Key.protocol rest go =
      lex_match include (fresh x) _ _ (key_taken Key.protocol rest) refl refl (omega arith) go
  key_step us o Key.reg_type rest go =
      lex_match include (fresh x) _ _ (key_taken Key.reg_type rest) refl refl (omega arith) go
  key_step us o Key.show_headers rest go =
      lex_match include (fresh x) _ _ (key_taken Key.show_headers rest) refl refl (omega arith) go

  sign_step :
      (us : List ConfigToken) (o : Outcome) (u : Bool) (rest : Text)
      → Lexes include (calm x) (32 ∷ rest) (us, o)
      → Lexes include (calm x) (sign_text u ++ 32 ∷ rest) (sign_token u ∷ us, o)
  unfolding react
  sign_step us o true rest go =
      lex_match include (calm x) _ _ (sign_taken true rest) refl refl (omega arith) go
  sign_step us o false rest go =
      lex_match include (calm x) _ _ (sign_taken false rest) refl refl (omega arith) go

  -- The sign with the blanks around it, and the quotation mark behind them.
  to_quote :
      (us : List ConfigToken) (o : Outcome) (u : Bool) (rest : Text)
      → Lexes include (in_string x false) rest (us, o)
      → Lexes include (calm x) (32 ∷ (sign_text u ++ 32 ∷ 34 ∷ rest)) (sign_token u ∷ quote ∷ us, o)
  unfolding react
  to_quote us o u rest go =
      let at_quote : Lexes include (calm x) (34 ∷ rest) (quote ∷ us, o) =
        lex_match include (calm x) _ _ (quote_taken rest) refl refl (omega arith) go in
      let at_blank : Lexes include (calm x) (32 ∷ 34 ∷ rest) (quote ∷ us, o) =
        lex_match include (calm x) _ _ (second_blank_taken rest) refl refl (omega arith) at_quote in
      lex_match include (calm x) 32 (sign_text u ++ 32 ∷ 34 ∷ rest) (blank_taken u (32 ∷ 34 ∷ rest))
        refl refl (omega arith) (sign_step (quote ∷ us) o u (34 ∷ rest) at_blank)

-- The tokens of a line are its keyword, its sign and the parts of its string between quotation
-- marks.
abbrev pub line_tokens : Line → List Exp → List ConfigToken → List ConfigToken
line_tokens l es us =
    keyword (keyword_of l.key) (written l.key)
    ∷ sign_token l.unequal
    ∷ quote
    ∷ (map part es ++ quote ∷ us)

-- A line up to its closing quotation mark, with `rest` behind that, and the tokens `vs` of both.
put_open-Lexes :
    (include : Text → Lexer → Reaction) (x : Lexer) (rest : Text) (vs : List ConfigToken)
    (o : Outcome) (l : Line)
    → IsStringLine l
    → ((b : Bool) → Lexes include (in_string x b) (34 ∷ rest) (vs, o))
    → (es : List Exp) × Literal es l.value
      × Lexes include
          (fresh x)
          (written l.key ++ 32 ∷ (sign_text l.unequal ++ 32 ∷ 34 ∷ (l.value ++ 34 ∷ rest)))
          (
            keyword (keyword_of l.key) (written l.key)
                ∷ sign_token l.unequal
                ∷ quote
                ∷ (map part es ++ vs),
            o,
          )
put_open-Lexes include x rest vs o l h go =
    let (es, literal, lexed) =
      string_lexes include x rest vs o (suc (length l.value)) false l.value (omega arith) h.one_line
        h.no_command go in
    let later = map part es ++ vs in
    (
      es,
      literal,
      key_step include x (sign_token l.unequal ∷ quote ∷ later) o l.key
          (sign_text l.unequal ++ 32 ∷ 34 ∷ (l.value ++ 34 ∷ rest))
          (to_quote include x later o l.unequal (l.value ++ 34 ∷ rest) lexed),
    )

pub put_line-Lexes :
    (include : Text → Lexer → Reaction) (x : Lexer) (rest : Text) (us : List ConfigToken)
    (o : Outcome) (l : Line)
    → IsStringLine l
    → Lexes include (next_line x) rest (us, o)
    → (es : List Exp) × Literal es l.value
      × Lexes include (fresh x) (put_line l rest) (line_tokens l es us, o)
put_line-Lexes include x rest us o l h go =
    put_open-Lexes include x (10 ∷ rest) (quote ∷ us) o l h
      (λ b. closed_string include x rest us o b go)

-- At the end of the file a quotation mark closes no string.
unclosed :
    (include : Text → Lexer → Reaction) (x : Lexer) (b : Bool)
    → Lexes include
        (in_string x b)
        (34 ∷ [])
        (part (ctrl_char (34 ∷ [])) ∷ [], read_all (in_string x false))
unfolding react patterns
unclosed include x b =
    lex_match include (in_string x b) 34 [] unclosed_taken refl refl (omega arith)
      (at_end include (in_string x false))

-- The same line without its line feed.
abbrev pub put_unended : Line → Text
put_unended l = written l.key ++ 32 ∷ (sign_text l.unequal ++ 32 ∷ 34 ∷ (l.value ++ 34 ∷ []))

pub put_unended-Lexes :
    (include : Text → Lexer → Reaction) (x : Lexer) (l : Line)
    → IsStringLine l
    → (es : List Exp) × Literal es l.value
      × Lexes include (fresh x) (put_unended l) (
        keyword (keyword_of l.key) (written l.key)
            ∷ sign_token l.unequal
            ∷ quote
            ∷ (map part es ++ part (ctrl_char (34 ∷ [])) ∷ []),
        read_all (in_string x false),
      )
put_unended-Lexes include x l h =
    put_open-Lexes include x [] (part (ctrl_char (34 ∷ [])) ∷ []) (read_all (in_string x false)) l h
      (unclosed include x)
