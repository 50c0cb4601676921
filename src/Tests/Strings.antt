-- ===== src/Tests/Strings.antt =====
-- Examples for the strings of the configuration file, and for the log file.
use mailfilter.Text.{codes}
use mailfilter.Base.{ℕ, suc, ◌≡◌, refl, true, some, List, [], ◌∷◌, ◌++◌, arith, none}
use mailfilter.Config.Strings.{Exp, Popen, exps, exec_shell, text_id, shell_cmd, ctrl_char}
use mailfilter.Config.Strings.Parts.{AllYield, part, word, exps-AllYield, command, sign, no_part}
use mailfilter.Base.Result.{ok}
use mailfilter.Config.Strings.Shell.{exec_shell_lem}
use mailfilter.Base.Int.{pos}
use mailfilter.Feedback.{Feedback, Message, message, error}
use mailfilter.Feedback.Log.{print_each, with_messages, print_each_lem}

-- Every command prints a line, and another one; the state counts the commands.
abbrev toy_popen : Popen ℕ
toy_popen = record {
  popen = λ command w. (some (codes "secret\nmore\n"), w);
  pclose = λ w. (true, suc w);
}

exec_shell_lem_example :
    (exec_shell toy_popen (codes "cat pw") 0).0 ≡ some (ok (codes "secret" ++ 0 ∷ []))
exec_shell_lem_example =
    exec_shell_lem toy_popen (codes "cat pw") (codes "secret") (codes "more\n") 0 refl refl refl

abbrev toy_parts : List Exp
toy_parts = text_id (codes "a") ∷ shell_cmd (codes "`cat pw'") ∷ ctrl_char (codes "!") ∷ []

toy_yields : AllYield toy_popen 0 toy_parts (codes "asecret!") 1
toy_yields = part (word (codes "a")) (
    part
      (command b'`' b'\'' (codes "cat pw") (codes "secret") (codes "more\n") (refl, refl) refl refl
        refl (omega arith))
      (part (sign (codes "!")) no_part))

exps-AllYield_example : exps toy_popen [] toy_parts 0 ≡ (some (ok (codes "asecret!")), 1)
exps-AllYield_example = exps-AllYield toy_popen 0 1 [] (codes "asecret!") toy_parts toy_yields

abbrev open_feedback : Feedback
open_feedback = record { cout = []; cerr = []; log_file = some []; header_file = none }

abbrev three_messages : List Message
three_messages =
    message (codes "hello") (pos 3)
    ∷ message (codes "debugging") (pos 6)
    ∷ error (codes "failed") (pos 1)
    ∷ []

print_each_lem_example :
    print_each (pos 3) (codes "now") open_feedback three_messages
    ≡ with_messages (pos 3) (codes "now") open_feedback three_messages
print_each_lem_example = print_each_lem (pos 3) (codes "now") open_feedback three_messages
