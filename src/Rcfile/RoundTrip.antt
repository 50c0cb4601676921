-- ===== src/Rcfile/RoundTrip.antt =====
-- Settings with strings: written to a file, read by the scanner of src/rcfile.ll and the grammar of
-- src/rcfile.yy, and executed.
use mailfilter.Rcfile.{
  quote, part, command, str_arg, production, ConfigToken, parts, derive, Production, string_value,
  filtered, rcparse_from, with_str, executed, reduced,
}
use mailfilter.Rcfile.Scanner.{
  read_all, Lexer, rcparse, Reaction, rclex, include_file, first_lexer, is_read,
}
use mailfilter.Rcfile.Strings.{
  no_part, a_text, a_variable, a_byte, Literal, exps-Literal, Lexes, at_end,
}
use mailfilter.Config.{allow_rule, deny_rule, Command, run_commands, run_command}
use mailfilter.Base.{
  length, All, ◌==◌, ℕ, zero, suc, ◌+◌, ◌<◌, ◌≡◌, refl, sym, ap, ◌∙◌, Bool, true, false, not, ◌&&◌,
  Option, some, List, [], ◌∷◌, ◌++◌, map, arith, length-append,
}
use mailfilter.Base.Result.{Result, ok, ◌>>=◌, exit, throw}
use mailfilter.Text.{Text, codes}
use mailfilter.Rcfile.Lines.{
  Line, Key, IsStringLine, has_not_equal, keyword_of, put_lines, command_of, written, sign_text,
  line_command,
}
use mailfilter.Config.Strings.{Popen, Exp}
use mailfilter.Filter.{Regex}
use mailfilter.Preferences.Setters.{Host}
use mailfilter.Preferences.{Preferences}
use mailfilter.Rcfile.LineTokens.{line_tokens, fresh, sign_token, put_line-Lexes}
use mathlib.Core.Bool.{false≢true}
use mathlib.Core.Path.{fun_ext}

-- The tokens of lines.
data TokensOf : List Line → List ConfigToken → Type 0 where
  no_line : TokensOf [] []
  a_line :
      (l : Line) (ls : List Line) (es : List Exp) (us : List ConfigToken)
      → Literal es l.value
      → TokensOf ls us
      → TokensOf (l ∷ ls) (line_tokens l es us)

lines_lex :
    (include : Text → Lexer → Reaction) (x : Lexer) (ls : List Line)
    → All IsStringLine ls
    → (us : List ConfigToken) × TokensOf ls us
      × ((y : Lexer) × Lexes include (fresh x) (put_lines ls) (us, read_all y))
lines_lex include x [] h = ([], no_line, (fresh x, at_end include (fresh x)))
lines_lex include x (l ∷ ls) h =
    let (us, tokens, (y, lexed)) =
      lines_lex include (record x { num_lines = x.num_lines + 1 }) ls h.1 in
    let (es, literal, whole) =
      put_line-Lexes include x (put_lines ls) us (read_all y) l h.0 lexed in
    (line_tokens l es us, a_line l ls es us literal tokens, (y, whole))

module _ {W : Type 0} (sh : Popen W) where
  parts_lem :
      (es : List Exp) (us : List ConfigToken) → parts (map part es ++ quote ∷ us) ≡ (es, quote ∷ us)
  unfolding parts
  parts_lem [] us = refl
  parts_lem (e ∷ es) us = rw (parts, parts_lem es us) refl

  value_lem :
      (es : List Exp) (v : Text) (us : List ConfigToken)
      → Literal es v
      → (length v == 0) ≡ false
      → string_value (some (ok v)) es (quote ∷ us) ≡ some (ok (v, us))
  value_lem _ _ us no_part h = absurd (ground (arith, h))
  value_lem _ _ us (a_text m t es l) h = refl
  value_lem _ _ us (a_variable m t es l) h = refl
  value_lem _ _ us (a_byte m t es l) h = refl

  derive_string :
      (next : Text → Production) (es : List Exp) (v : Text) (us : List ConfigToken) (w : W)
      → Literal es v
      → (length v == 0) ≡ false
      → derive sh (str_arg next) (quote ∷ (map part es ++ quote ∷ us)) w ≡ derive sh (next v) us w
  unfolding derive
  derive_string next es v us w l h =
      let e = parts_lem es us in
      let value = exps-Literal sh [] v es w l in
      let closed = value_lem es v us l h in
      rw (derive, e) (rw value (rw closed (rw e (rw value refl))))

  derive-filtered :
      (c : Text → Text → Command) (u : Bool) (es : List Exp) (v : Text) (us : List ConfigToken)
      (w : W)
      → Literal es v
      → (length v == 0) ≡ false
      → derive sh (filtered c) (sign_token u ∷ quote ∷ (map part es ++ quote ∷ us)) w
        ≡ (some (ok (c (sign_text u) v, us)), w)
  unfolding derive
  derive-filtered c true es v us w l h =
      derive_string (λ s. command (c (codes "<>") s)) es v us w l h
  derive-filtered c false es v us w l h =
      derive_string (λ s. command (c (codes "=") s)) es v us w l h

  derive-with_str :
      (c : Text → Command) (u : Bool) (es : List Exp) (v : Text) (us : List ConfigToken) (w : W)
      → u ≡ false
      → Literal es v
      → (length v == 0) ≡ false
      → derive sh (with_str c) (sign_token u ∷ quote ∷ (map part es ++ quote ∷ us)) w
        ≡ (some (ok (c v, us)), w)
  unfolding derive
  derive-with_str c true es v us w k l h = absurd (false≢true (sym k))
  derive-with_str c false es v us w k l h = derive_string (λ s. command (c s)) es v us w l h

  -- The tokens of a line are reduced to its command.
  pub derive_line :
      (k : Key) (u : Bool) (es : List Exp) (v : Text) (us : List ConfigToken) (w : W)
      → u && not (has_not_equal k) ≡ false
      → Literal es v
      → (length v == 0) ≡ false
      → derive sh
          (production (keyword_of k) (written k))
          (sign_token u ∷ quote ∷ (map part es ++ quote ∷ us))
          w
        ≡ (some (ok (line_command k (sign_text u) v, us)), w)
  unfolding production
  derive_line Key.allow u es v us w s l h =
      derive-filtered (allow_rule (written Key.allow)) u es v us w l h
  derive_line Key.allow_case u es v us w s l h =
      derive-filtered (allow_rule (written Key.allow_case)) u es v us w l h
  derive_line Key.allow_nocase u es v us w s l h =
      derive-filtered (allow_rule (written Key.allow_nocase)) u es v us w l h
  derive_line Key.deny u es v us w s l h =
      derive-filtered (deny_rule (written Key.deny)) u es v us w l h
  derive_line Key.deny_case u es v us w s l h =
      derive-filtered (deny_rule (written Key.deny_case)) u es v us w l h
  derive_line Key.deny_nocase u es v us w s l h =
      derive-filtered (deny_rule (written Key.deny_nocase)) u es v us w l h
  derive_line Key.logfile u es v us w s l h =
      derive-with_str Command.logfile u es v us w (ground (arith, s)) l h
  derive_line Key.server u es v us w s l h =
      derive-with_str Command.server u es v us w (ground (arith, s)) l h
  derive_line Key.user u es v us w s l h =
      derive-with_str Command.user u es v us w (ground (arith, s)) l h
  derive_line Key.pass u es v us w s l h =
      derive-with_str Command.pass u es v us w (ground (arith, s)) l h
  derive_line Key.protocol u es v us w s l h =
      derive-with_str Command.protocol u es v us w (ground (arith, s)) l h
  derive_line Key.reg_type u es v us w s l h =
      derive-with_str Command.reg_type u es v us w (ground (arith, s)) l h
  derive_line Key.show_headers u es v us w s l h =
      derive-with_str Command.show_headers u es v us w (ground (arith, s)) l h

module _ {W R : Type 0} (sh : Popen W) (rx : Regex R) (host : Host) where
  executed_lem :
      (r : Result (Preferences R)) (next : Preferences R → Result (Preferences R)) (w : W)
      → executed r (λ q. (some (next q), w)) w ≡ (some (r >>= next), w)
  executed_lem (ok q) next w = refl
  executed_lem (exit status text) next w = refl
  executed_lem (throw what) next w = refl

  parse_lines :
      (f : ℕ) (p : Preferences R) (ls : List Line) (us : List ConfigToken) (w : W)
      → All IsStringLine ls
      → TokensOf ls us
      → length us < f
      → rcparse_from sh rx host f p us true w
        ≡ (some (run_commands rx host p (map command_of ls)), w)
  unfolding rcparse_from run_commands
  parse_lines zero p ls us w h t enough = absurd (omega arith)
  parse_lines (suc f) p _ _ w h no_line enough = refl
  parse_lines (suc f) p _ _ w h (a_line l ls es us literal t) enough =
      let e = derive_line sh l.key l.unequal es l.value us w h.0.signed literal h.0.filled in
      let fewer : length us < f = omega (arith, length-append (map part es) (quote ∷ us), enough) in
      ap
        (λ d. reduced d (λ c vs w1.
          executed (run_command rx host p c) (λ q. rcparse_from sh rx host f q vs true w1) w1))
        e
      ∙ ap (λ next. executed (run_command rx host p (command_of l)) next w)
          (fun_ext (λ q. parse_lines f q ls us w h.1 t fewer))
      ∙ executed_lem (run_command rx host p (command_of l))
          (λ q. run_commands rx host q (map command_of ls)) w

-- A configuration file whose lines are settings with a string between quotation marks, each with
-- its keyword in capitals, `=` or, for an allow or deny rule, `<>`, and a string that is not empty
-- and has neither a line feed nor a back quote, does to the preferences what the commands of its
-- lines do, in their order, each with its string byte for byte, whatever files there are to include;
-- the state behind `popen` is as it was. Where the commands succeed, `wordexp`, which may run a
-- command of its own, has been called with the same names in the same order.
pub rcparse-put_lines :
    {W R : Type 0} (sh : Popen W) (rx : Regex R) (host : Host) (open_file : Text → Option Text)
    (p : Preferences R) (ls : List Line) (w : W)
    → All IsStringLine ls
    → rcparse sh rx host open_file p (put_lines ls) w
      ≡ (some (run_commands rx host p (map command_of ls)), w)
unfolding rcparse rclex
rcparse-put_lines sh rx host open_file p ls w h =
    let (us, tokens, (y, lexed)) = lines_lex (include_file host open_file) first_lexer ls h in
    let e = lexed (suc (length (put_lines ls))) (omega arith) in
    ap (λ r. rcparse_from sh rx host (suc (length r.0)) p r.0 (is_read r.1) w) e
    ∙ parse_lines sh rx host (suc (length us)) p ls us w h tokens (omega arith)
