-- ===== src/Feedback.antt =====
-- src/feedback.cc and src/feedback.hh: what is printed to the terminal and to the log file.
pub mod Log
use mailfilter.Base.{Bool, true, false, Option, none, some, List, [], ◌∷◌, ◌++◌, not, if◌then◌else◌}
use mailfilter.Base.Int.{ℤ, ltb_ℤ}
use mailfilter.Text.{Text, codes}

-- A call of `print_msg` (message) or of `print_err` (error), with its minimal level of verbosity.
pub data Message : Type 0 where
  message error : Text → ℤ → Message

-- The two output streams by lines, and the two files, if they are open.
pub record Feedback : Type 0 where
  pub cout : List Text
  pub cerr : List Text
  pub log_file : Option (List Text)
  pub header_file : Option (List Text)

abbrev append_line : Option (List Text) → Text → Option (List Text)
append_line none line = none
append_line (some ls) line = some (ls ++ line ∷ [])

abbrev is_open : Option (List Text) → Bool
is_open none = false
is_open (some ls) = true

-- `verbosity` is that of the preferences, and `ts` the time stamp of the moment.
unfoldable pub print_msg : ℤ → Text → Feedback → Text → ℤ → Bool × Feedback
print_msg verbosity ts fb msg min_verbose_level =
    let line = ts ++ codes " mailfilter: " ++ msg in
    if not (ltb_ℤ verbosity min_verbose_level)
    then (
      is_open fb.log_file,
      record fb { cout = fb.cout ++ line ∷ []; log_file = append_line fb.log_file line },
    )
    else (true, fb)

unfoldable pub print_err : ℤ → Text → Feedback → Text → ℤ → Bool × Feedback
print_err verbosity ts fb msg min_verbose_level =
    let line = ts ++ codes " mailfilter: Error: " ++ msg in
    if not (ltb_ℤ verbosity min_verbose_level)
    then (
      is_open fb.log_file,
      record fb { cerr = fb.cerr ++ line ∷ []; log_file = append_line fb.log_file line },
    )
    else (true, fb)

-- The message goes to the headers file, which is opened where it can be.
unfoldable pub print_header : Bool → Feedback → Text → Bool × Feedback
print_header can_open fb msg =
    let file =
      if is_open fb.header_file then fb.header_file else if can_open then some [] else none in
    (is_open file, record fb { header_file = append_line file msg })
