-- ===== src/Config.antt =====
-- src/rcfile.yy and `get_opts` of src/mailfilter.cc: the commands of the configuration file, each
-- with the action of its grammar rule, and the options of the command line. How the commands are
-- read from the text of the file is in Rcfile; `getopt_long` is not modelled, and the list of
-- options is its result.
pub mod Precedence
pub mod Counted
pub mod Counters
pub mod Strings
use mailfilter.Base.{ℕ, Bool, true, false, List, [], ◌∷◌, ◌++◌}
use mailfilter.Base.Int.{ℤ, pos, to_unsigned}
use mailfilter.Base.Result.{Result, ok, exit, die, ◌>>=◌}
use mailfilter.Text.{Text, codes}
use mailfilter.Filter.{Regex}
use mailfilter.Preferences.{Preferences}
use mailfilter.Preferences.Setters.{
  Host, set_ignore_time_stamp, set_rc_file, set_log_file, set_headers_file, set_verbose_level,
  set_test_mode, set_default_case, set_reg_type, set_server, set_usr, set_passwd, set_protocol,
  set_connection, set_port, set_del_duplicates, set_time_out, set_max_size_allow, set_max_size_deny,
  set_max_size_score, set_highscore, set_normal, set_maxlength, set_return_status,
  set_skip_ssl_verify,
}
use mailfilter.Preferences.Rules.{add_deny_rule, add_allow_rule, add_score}

-- The rules of the grammar, with the values of their symbols: the keyword as written, the operator
-- `=` or `<>`, and the argument.
pub data Command : Type 0 where
  allow_rule deny_rule : Text → Text → Text → Command
  score : Text → ℤ → Text → Text → Command
  highscore maxlength maxsize_allow maxsize_deny port timeout verbose : ℤ → Command
  maxsize_score : ℤ → ℤ → Command
  del_duplicates normal reg_case test : Text → Command
  logfile server user pass protocol reg_type show_headers : Text → Command

-- The options of the command line, whose texts for `--help` and `--version` are not modelled;
-- `unknown` is one that `getopt_long` does not recognise.
pub data Opt : Type 0 where
  help version ignore_time_stamps test_mode return_value skip_ssl_verify unknown : Opt
  logfile mailfilterrc : Text → Opt
  verbose : ℤ → Opt

module _ {R : Type 0} (rx : Regex R) (host : Host) where
  unfoldable pub run_command : Preferences R → Command → Result (Preferences R)
  run_command p (allow_rule keyword operat id) = ok (add_allow_rule rx p keyword operat id)
  run_command p (deny_rule keyword operat id) = ok (add_deny_rule rx p keyword operat id)
  run_command p (score keyword n operat id) = ok (add_score rx p keyword n operat id)
  run_command p (highscore n) = ok (set_highscore p n)
  run_command p (maxlength n) = ok (set_maxlength p n)
  run_command p (maxsize_allow n) = ok (set_max_size_allow p n)
  run_command p (maxsize_deny n) = ok (set_max_size_deny p n)
  run_command p (port n) = ok (set_port p (to_unsigned n))
  run_command p (timeout n) = ok (set_time_out p (to_unsigned n))
  run_command p (Command.verbose n) = ok (set_verbose_level p n)
  run_command p (maxsize_score n m) = ok (set_max_size_score p n m)
  run_command p (del_duplicates arg) = ok (set_del_duplicates p arg)
  run_command p (normal arg) = ok (set_normal p arg)
  run_command p (reg_case arg) = ok (set_default_case p arg)
  run_command p (test arg) = ok (set_test_mode p arg)
  run_command p (Command.logfile arg) = set_log_file host p arg
  run_command p (server arg) = ok (set_server p arg)
  run_command p (user arg) = ok (set_usr p arg)
  run_command p (pass arg) = ok (set_passwd p arg)
  run_command p (protocol arg) = do q ← set_protocol host p arg; ok (set_connection q)
  run_command p (reg_type arg) = set_reg_type p arg
  run_command p (show_headers arg) = set_headers_file host p arg

  -- `commands`, the start symbol of the grammar.
  unfoldable pub run_commands : Preferences R → List Command → Result (Preferences R)
  run_commands p [] = ok p
  run_commands p (c ∷ cs) = do q ← run_command p c; run_commands q cs

module _ {R : Type 0} (host : Host) (argv0 : Text) where
  unfoldable pub run_option : Preferences R → Opt → Result (Preferences R)
  run_option p help = exit (pos 0) []
  run_option p version = exit (pos 0) []
  run_option p ignore_time_stamps = ok (set_ignore_time_stamp p true)
  run_option p test_mode = ok (set_test_mode p (codes "yes"))
  run_option p return_value = ok (set_return_status p true)
  run_option p skip_ssl_verify = ok (set_skip_ssl_verify p true)
  run_option p unknown = die (codes "Try '" ++ argv0 ++ codes " --help' for more information.")
  run_option p (Opt.logfile arg) = set_log_file host p arg
  run_option p (mailfilterrc arg) = ok (set_rc_file p arg)
  run_option p (Opt.verbose n) = ok (set_verbose_level p n)

  unfoldable pub get_opts : Preferences R → List Opt → Result (Preferences R)
  get_opts p [] = ok p
  get_opts p (o ∷ os) = do q ← run_option p o; get_opts q os
