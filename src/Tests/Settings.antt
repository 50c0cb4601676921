-- ===== src/Tests/Settings.antt =====
-- Examples for the text of a configuration file.
use mailfilter.Base.Result.{◌>>=◌, exit}
use mailfilter.Rcfile.Lines.{Key, Line, IsStringLine}
use mailfilter.Base.{All, ◌≡◌, refl, true, false, none, some, List, [], ◌∷◌, ◌≢◌}
use mailfilter.Text.{codes, Text}
use mailfilter.Rcfile.Scanner.{
  rcparse, rclex, stopped, out_of_fuel, include_file, first_lexer, Reaction, read_file, leave_file,
}
use mailfilter.Config.Strings.{Popen}
use mailfilter.Preferences.Setters.{Host}
use mailfilter.Tests.Samples.{toy_regex}
use mailfilter.Preferences.{new_preferences}
use mailfilter.Config.{run_commands, Command, deny_rule}
use mailfilter.Rcfile.RoundTrip.{rcparse-put_lines}
use mailfilter.Rcfile.Progress.{rclex_total, Reads, too_deep, entered}
use mailfilter.Base.Int.{negsuc}
use mailfilter.Rcfile.Unended.{rcparse-put_unended_lines}

abbrev settings_host : Host
settings_host = record {
  can_open = λ name. true;
  home = none;
  expand = λ name. some name;
  use_ssl = true;
}

-- No command can be executed.
abbrev no_shell : Popen (Unit {0})
no_shell = record { popen = λ command w. (none, w); pclose = λ w. (false, w) }

abbrev two_lines : List Line
two_lines =
    record { key = Key.user; unequal = false; value = codes "me $x" }
    ∷ record { key = Key.deny; unequal = true; value = codes "\"^To: a.b\"" }
    ∷ []

two_lines-AllLines : All IsStringLine two_lines
two_lines-AllLines = (
  record { filled = refl; one_line = refl; no_command = refl; signed = refl },
  (record { filled = refl; one_line = refl; no_command = refl; signed = refl }, tt),
)

rcparse-put_lines_example :
    rcparse no_shell toy_regex settings_host
      (λ name. none)
      new_preferences
      (codes "USER = \"me $x\"\nDENY <> \"\"^To: a.b\"\"\n")
      tt
    ≡ (
      some (
          run_commands toy_regex settings_host new_preferences (
            Command.user (codes "me $x")
            ∷ deny_rule (codes "DENY") (codes "<>") (codes "\"^To: a.b\"")
            ∷ [])),
      tt,
    )
rcparse-put_lines_example =
    rcparse-put_lines no_shell toy_regex settings_host (λ name. none) new_preferences two_lines tt
      two_lines-AllLines

-- A file that includes another, and that one.
abbrev including : Text
including = codes "include = x\nUSER = \"me\"\n"

abbrev included : Text
included = codes "PORT = 1\n"

rclex_total_example :
    Reads
      (include_file settings_host (λ name. some included))
      first_lexer
      including
      (rclex settings_host (λ name. some included) including)
    × ((rclex settings_host (λ name. some included) including).1 ≢ stopped out_of_fuel)
    × ((o : Reaction) × Reads too_deep (entered first_lexer (codes "x")) included o
        × (read_file first_lexer (codes "x") (some included) ≡ leave_file first_lexer o))
rclex_total_example =
    rclex_total settings_host (λ name. some included) including first_lexer (codes "x") included

rcparse-put_unended_lines_example :
    rcparse no_shell toy_regex settings_host
      (λ name. none)
      new_preferences
      (codes "USER = \"me $x\"\nDENY <> \"\"^To: a.b\"\"\nPASS = \"x\"")
      tt
    ≡ (
      some (
          run_commands toy_regex settings_host new_preferences (
            Command.user (codes "me $x")
            ∷ deny_rule (codes "DENY") (codes "<>") (codes "\"^To: a.b\"")
            ∷ [])
          >>= λ q. exit (negsuc 0) []),
      tt,
    )
rcparse-put_unended_lines_example =
    rcparse-put_unended_lines no_shell toy_regex settings_host (λ name. none) new_preferences
      two_lines (record { key = Key.pass; unequal = false; value = codes "x" }) tt
      two_lines-AllLines
      (record { filled = refl; one_line = refl; no_command = refl; signed = refl })
