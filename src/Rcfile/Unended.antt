-- ===== src/Rcfile/Unended.antt =====
-- Settings with strings of which the last has no line feed behind it.
use mailfilter.Rcfile.{
  keyword, quote, part, command, str_arg, parts, derive, ConfigToken, string_value, Production,
  production, rcparse_from, rcerror, executed, reduced,
}
use mailfilter.Rcfile.Scanner.{
  read_all, Lexer, rcparse, rclex, Reaction, include_file, first_lexer, is_read,
}
use mailfilter.Rcfile.Strings.{
  no_part, a_text, a_variable, a_byte, Literal, Lexes, exps-Literal, in_string,
}
use mailfilter.Config.Strings.{ctrl_char, Exp, Popen, text_id, env_var}
use mailfilter.Config.{allow_rule, deny_rule, run_commands, run_command, Command}
use mailfilter.Base.Int.{negsuc}
use mailfilter.Base.{
  length, All, ℕ, zero, suc, ◌+◌, ◌<◌, ◌≡◌, refl, sym, ap, ◌∙◌, Bool, true, false, not, ◌&&◌,
  Option, some, List, [], ◌∷◌, ◌++◌, map, append-nil, append_assoc, arith, length-append,
}
use mailfilter.Base.Result.{Result, ok, exit, ◌>>=◌, throw}
use mailfilter.Text.{Text, codes}
use mailfilter.Rcfile.Lines.{
  Line, keyword_of, IsStringLine, put_line, Key, written, has_not_equal, command_of,
}
use mailfilter.Rcfile.LineTokens.{
  put_unended, fresh, sign_token, put_unended-Lexes, line_tokens, put_line-Lexes,
}
use mailfilter.Filter.{Regex}
use mathlib.Core.Path.{subst, fun_ext}
use mailfilter.Preferences.Setters.{Host}
use mailfilter.Preferences.{Preferences}
use mathlib.Core.Bool.{false≢true}
use mailfilter.Rcfile.RoundTrip.{derive_line}

-- The lines, in front of one without its line feed.
abbrev pub put_unended_lines : List Line → Line → Text
put_unended_lines [] l = put_unended l
put_unended_lines (k ∷ ks) l = put_line k (put_unended_lines ks l)

-- The tokens of such lines: the last string is not closed.
data UnendedTokens (l : Line) : List Line → List ConfigToken → Type 0 where
  last_line :
      (es : List Exp) (t : Text)
      → Literal es t
      → UnendedTokens l []
          (keyword (keyword_of l.key) (written l.key) ∷ sign_token l.unequal ∷ quote ∷ map part es)
  a_line :
      (k : Line) (ks : List Line) (es : List Exp) (us : List ConfigToken)
      → Literal es k.value
      → UnendedTokens l ks us
      → UnendedTokens l (k ∷ ks) (line_tokens k es us)

Literal-snoc :
    (es : List Exp) (t m : Text) → Literal es t → Literal (es ++ ctrl_char m ∷ []) (t ++ m)
Literal-snoc _ _ m no_part =
    subst (Literal (ctrl_char m ∷ [])) (append-nil m) (a_byte m [] [] no_part)
Literal-snoc _ _ m (a_text n t es l) =
    subst (Literal (text_id n ∷ (es ++ ctrl_char m ∷ []))) (sym (append_assoc n t m))
      (a_text n (t ++ m) (es ++ ctrl_char m ∷ []) (Literal-snoc es t m l))
Literal-snoc _ _ m (a_variable n t es l) =
    subst (Literal (env_var n ∷ (es ++ ctrl_char m ∷ []))) (sym (append_assoc n t m))
      (a_variable n (t ++ m) (es ++ ctrl_char m ∷ []) (Literal-snoc es t m l))
Literal-snoc _ _ m (a_byte n t es l) =
    subst (Literal (ctrl_char n ∷ (es ++ ctrl_char m ∷ []))) (sym (append_assoc n t m))
      (a_byte n (t ++ m) (es ++ ctrl_char m ∷ []) (Literal-snoc es t m l))

map_part : (es : List Exp) (e : Exp) → map part es ++ part e ∷ [] ≡ map part (es ++ e ∷ [])
map_part [] e = refl
map_part (d ∷ es) e = ap (λ us. part d ∷ us) (map_part es e)

abbrev opening : Line → List ConfigToken → List ConfigToken
opening l us = keyword (keyword_of l.key) (written l.key) ∷ sign_token l.unequal ∷ quote ∷ us

unended_lex :
    (include : Text → Lexer → Reaction) (x : Lexer) (ks : List Line) (l : Line)
    → All IsStringLine ks
    → IsStringLine l
    → (us : List ConfigToken) × UnendedTokens l ks us
      × ((y : Lexer) × Lexes include (fresh x) (put_unended_lines ks l) (us, read_all y))
unended_lex include x [] l h last =
    let (es, literal, lexed) = put_unended-Lexes include x l last in
    let c = ctrl_char (34 ∷ []) in
    let start = opening l in
    (
      start (map part (es ++ c ∷ [])),
      last_line (es ++ c ∷ []) (l.value ++ 34 ∷ []) (Literal-snoc es l.value (34 ∷ []) literal),
      (
        in_string x false,
        subst
            (λ us. Lexes include (fresh x) (put_unended l) (start us, read_all (in_string x false)))
            (map_part es c) lexed,
      ),
    )
unended_lex include x (k ∷ ks) l h last =
    let (us, tokens, (y, lexed)) =
      unended_lex include (record x { num_lines = x.num_lines + 1 }) ks l h.1 last in
    let (es, literal, whole) =
      put_line-Lexes include x (put_unended_lines ks l) us (read_all y) k h.0 lexed in
    (line_tokens k es us, a_line k ks es us literal tokens, (y, whole))

module _ {W : Type 0} (sh : Popen W) where
  parts-unended : (es : List Exp) → parts (map part es) ≡ (es, [])
  unfolding parts
  parts-unended [] = refl
  parts-unended (e ∷ es) = rw (parts, parts-unended es) refl

  string_value-unended : (es : List Exp) (t : Text) → string_value (some (ok t)) es [] ≡ rcerror
  string_value-unended [] t = refl
  string_value-unended (e ∷ es) t = refl

  derive-str_arg :
      (next : Text → Production) (es : List Exp) (t : Text) (w : W)
      → Literal es t
      → derive sh (str_arg next) (quote ∷ map part es) w ≡ (rcerror, w)
  unfolding derive
  derive-str_arg next es t w l =
      let e = parts-unended es in
      let value = exps-Literal sh [] t es w l in
      let closed = string_value-unended es t in
      rw (derive, e) (rw value (rw closed (rw e (rw value refl))))

  derive-unended :
      (k : Key) (u : Bool) (es : List Exp) (t : Text) (w : W)
      → u && not (has_not_equal k) ≡ false
      → Literal es t
      → derive sh (production (keyword_of k) (written k)) (sign_token u ∷ quote ∷ map part es) w
        ≡ (rcerror, w)
  unfolding derive production
  derive-unended Key.allow true es t w s l =
      derive-str_arg (λ s. command (allow_rule (written Key.allow) (codes "<>") s)) es t w l
  derive-unended Key.allow false es t w s l =
      derive-str_arg (λ s. command (allow_rule (written Key.allow) (codes "=") s)) es t w l
  derive-unended Key.allow_case true es t w s l =
      derive-str_arg (λ s. command (allow_rule (written Key.allow_case) (codes "<>") s)) es t w l
  derive-unended Key.allow_case false es t w s l =
      derive-str_arg (λ s. command (allow_rule (written Key.allow_case) (codes "=") s)) es t w l
  derive-unended Key.allow_nocase true es t w s l =
      derive-str_arg (λ s. command (allow_rule (written Key.allow_nocase) (codes "<>") s)) es t w l
  derive-unended Key.allow_nocase false es t w s l =
      derive-str_arg (λ s. command (allow_rule (written Key.allow_nocase) (codes "=") s)) es t w l
  derive-unended Key.deny true es t w s l =
      derive-str_arg (λ s. command (deny_rule (written Key.deny) (codes "<>") s)) es t w l
  derive-unended Key.deny false es t w s l =
      derive-str_arg (λ s. command (deny_rule (written Key.deny) (codes "=") s)) es t w l
  derive-unended Key.deny_case true es t w s l =
      derive-str_arg (λ s. command (deny_rule (written Key.deny_case) (codes "<>") s)) es t w l
  derive-unended Key.deny_case false es t w s l =
      derive-str_arg (λ s. command (deny_rule (written Key.deny_case) (codes "=") s)) es t w l
  derive-unended Key.deny_nocase true es t w s l =
      derive-str_arg (λ s. command (deny_rule (written Key.deny_nocase) (codes "<>") s)) es t w l
  derive-unended Key.deny_nocase false es t w s l =
      derive-str_arg (λ s. command (deny_rule (written Key.deny_nocase) (codes "=") s)) es t w l
  derive-unended Key.logfile true es t w s l = absurd (false≢true (sym s))
  derive-unended Key.logfile false es t w s l =
      derive-str_arg (λ s. command (Command.logfile s)) es t w l
  derive-unended Key.server true es t w s l = absurd (false≢true (sym s))
  derive-unended Key.server false es t w s l =
      derive-str_arg (λ s. command (Command.server s)) es t w l
  derive-unended Key.user true es t w s l = absurd (false≢true (sym s))
  derive-unended Key.user false es t w s l = derive-str_arg (λ s. command (Command.user s)) es t w l
  derive-unended Key.pass true es t w s l = absurd (false≢true (sym s))
  derive-unended Key.pass false es t w s l = derive-str_arg (λ s. command (Command.pass s)) es t w l
  derive-unended Key.protocol true es t w s l = absurd (false≢true (sym s))
  derive-unended Key.protocol false es t w s l =
      derive-str_arg (λ s. command (Command.protocol s)) es t w l
  derive-unended Key.reg_type true es t w s l = absurd (false≢true (sym s))
  derive-unended Key.reg_type false es t w s l =
      derive-str_arg (λ s. command (Command.reg_type s)) es t w l
  derive-unended Key.show_headers true es t w s l = absurd (false≢true (sym s))
  derive-unended Key.show_headers false es t w s l =
      derive-str_arg (λ s. command (Command.show_headers s)) es t w l

module _ {W R : Type 0} (sh : Popen W) (rx : Regex R) (host : Host) where
  abbrev pub leaves : Preferences R → Result (Preferences R)
  leaves q = exit (negsuc 0) []

  executed_then :
      (r : Result (Preferences R)) (next : Preferences R → Result (Preferences R)) (w : W)
      → executed r (λ q. (some (next q >>= leaves), w)) w ≡ (some ((r >>= next) >>= leaves), w)
  executed_then (ok q) next w = refl
  executed_then (exit status text) next w = refl
  executed_then (throw what) next w = refl

  parse_unended :
      (f : ℕ) (p : Preferences R) (ks : List Line) (l : Line) (us : List ConfigToken) (w : W)
      → All IsStringLine ks
      → IsStringLine l
      → UnendedTokens l ks us
      → length us < f
      → rcparse_from sh rx host f p us true w
        ≡ (some (run_commands rx host p (map command_of ks) >>= leaves), w)
  unfolding rcparse_from run_commands
  parse_unended zero p ks l us w h last t enough = absurd (omega arith)
  parse_unended (suc f) p _ l _ w h last (last_line es t literal) enough =
      ap
        (λ d. reduced d (λ c vs w1.
          executed (run_command rx host p c) (λ q. rcparse_from sh rx host f q vs true w1) w1))
        (derive-unended sh l.key l.unequal es t w last.signed literal)
  parse_unended (suc f) p _ l _ w h last (a_line k ks es us literal t) enough =
      let e = derive_line sh k.key k.unequal es k.value us w h.0.signed literal h.0.filled in
      let fewer : length us < f = omega (arith, length-append (map part es) (quote ∷ us), enough) in
      ap
        (λ d. reduced d (λ c vs w1.
          executed (run_command rx host p c) (λ q. rcparse_from sh rx host f q vs true w1) w1))
        e
      ∙ ap (λ next. executed (run_command rx host p (command_of k)) next w)
          (fun_ext (λ q. parse_unended f q ks l us w h.1 last t fewer))
      ∙ executed_then (run_command rx host p (command_of k))
          (λ q. run_commands rx host q (map command_of ks)) w

-- If the last line of such a file has no line feed behind its closing quotation mark, the file is
-- refused: the commands of the lines before it are executed, in their order, and then, if they
-- return, the process is left with exit status -1.
pub rcparse-put_unended_lines :
    {W R : Type 0} (sh : Popen W) (rx : Regex R) (host : Host) (open_file : Text → Option Text)
    (p : Preferences R) (ks : List Line) (l : Line) (w : W)
    → All IsStringLine ks
    → IsStringLine l
    → rcparse sh rx host open_file p (put_unended_lines ks l) w
      ≡ (some (run_commands rx host p (map command_of ks) >>= λ q. exit (negsuc 0) []), w)
unfolding rcparse rclex
rcparse-put_unended_lines sh rx host open_file p ks l w h last =
    let (us, tokens, (y, lexed)) =
      unended_lex (include_file host open_file) first_lexer ks l h last in
    let e = lexed (suc (length (put_unended_lines ks l))) (omega arith) in
    ap (λ r. rcparse_from sh rx host (suc (length r.0)) p r.0 (is_read r.1) w) e
    ∙ parse_unended sh rx host (suc (length us)) p ks l us w h last tokens (omega arith)
