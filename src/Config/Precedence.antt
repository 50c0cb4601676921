-- ===== src/Config/Precedence.antt =====
-- What the command line sets and the configuration file cannot change.
use mailfilter.Base.{
  ◌≡◌, refl, true, arith, length, ap, List, ◌∷◌, Bool, if◌then◌else◌, [], ◌++◌, ◌∙◌, false, ◌==◌,
  not, ◌&&◌,
}
use mailfilter.Base.Result.{ok, returned}
use mailfilter.Filter.{Regex}
use mailfilter.Preferences.{Preferences, new_preferences}
use mailfilter.Preferences.Setters.{
  Host, said, set_log_file, set_headers_file, set_verbose_level, set_test_mode, set_default_case,
  set_reg_type, set_server, set_usr, set_passwd, set_protocol, set_connection, set_port,
  set_del_duplicates, set_time_out, set_max_size_allow, set_max_size_deny, set_max_size_score,
  set_highscore, set_normal, set_maxlength, set_rc_file, set_ignore_time_stamp, set_return_status,
  set_skip_ssl_verify,
}
use mailfilter.Preferences.Rules.{add_deny_rule, add_allow_rule, add_score}
use mailfilter.Config.{Command, allow_rule, run_command, run_commands, run_option, Opt, get_opts}
use mailfilter.Text.{cmp_no_case, Text, codes}
use mailfilter.Base.Int.{ℤ, pos}

-- Settings that are only ever set once, and the flags that only the command line sets.
pub record Kept {R : Type 0} (p q : Preferences R) : Type 0 where
  pub verbosity_changed : (p.verbosity_changed && not q.verbosity_changed) ≡ false
  pub verbosity : (if p.verbosity_changed then q.verbosity else p.verbosity) ≡ p.verbosity
  pub test_changed : (p.test_changed && not q.test_changed) ≡ false
  pub test : (if p.test_changed then q.test else p.test) ≡ p.test
  pub ignore_time_stamp : q.ignore_time_stamp ≡ p.ignore_time_stamp
  pub ret_status : q.ret_status ≡ p.ret_status
  pub skip_ssl_verify : q.skip_ssl_verify ≡ p.skip_ssl_verify
  pub prefs_file_name : q.prefs_file_name ≡ p.prefs_file_name
  pub log_file_name :
      (if length p.log_file_name == 0 then p.log_file_name else q.log_file_name) ≡ p.log_file_name

module _ {R : Type 0} (rx : Regex R) (host : Host) where
  run_command-Kept : (p q : Preferences R) (c : Command) → run_command rx host p c ≡ ok q → Kept p q
  unfolding run_command set_log_file set_headers_file set_verbose_level set_test_mode
      set_default_case set_reg_type set_server set_usr set_passwd set_protocol set_connection
      set_port set_del_duplicates set_time_out set_max_size_allow set_max_size_deny
      set_max_size_score set_highscore set_normal set_maxlength add_deny_rule add_allow_rule
      add_score
  run_command-Kept p q (allow_rule keyword operat id) h = ground arith
  run_command-Kept p q c h = ground arith

  Kept-trans : (p q r : Preferences R) → Kept p q → Kept q r → Kept p r
  Kept-trans p q r k l = record {
    verbosity_changed = ground arith;
    verbosity = ground arith;
    test_changed = ground arith;
    test = ground arith;
    ignore_time_stamp = ground arith;
    ret_status = ground arith;
    skip_ssl_verify = ground arith;
    prefs_file_name = ground arith;
    log_file_name = ground arith;
  }

  -- Whatever the configuration file says, reading it leaves alone the flags that only the command
  -- line sets and the name of the file, and it cannot change a verbosity, a test mode or a log
  -- file name that was already set.
  pub run_commands-Kept :
      (p q : Preferences R) (cs : List Command) → run_commands rx host p cs ≡ ok q → Kept p q
  unfolding run_commands
  run_commands-Kept p q [] h = ground arith
  run_commands-Kept p q (c ∷ cs) h =
      let (m, first, rest) =
        returned (run_command rx host p c) (λ m. run_commands rx host m cs) h in
      Kept-trans p m q (run_command-Kept p m c first) (run_commands-Kept m q cs rest)

abbrev pub head_or {ℓ} : {A : Type ℓ} → A → List A → A
head_or d [] = d
head_or d (x ∷ xs) = x

-- The levels that a command or an option asks for, in order, and the test modes.
abbrev pub command_levels : List Command → List ℤ
command_levels [] = []
command_levels (Command.verbose n ∷ cs) = n ∷ command_levels cs
command_levels (_ ∷ cs) = command_levels cs

abbrev pub option_levels : List Opt → List ℤ
option_levels [] = []
option_levels (Opt.verbose n ∷ os) = n ∷ option_levels os
option_levels (_ ∷ os) = option_levels os

abbrev pub command_tests : List Command → List Bool
command_tests [] = []
command_tests (Command.test arg ∷ cs) = said arg (codes "yes") ∷ command_tests cs
command_tests (_ ∷ cs) = command_tests cs

abbrev pub option_tests : List Opt → List Bool
option_tests [] = []
option_tests (Opt.test_mode ∷ os) = true ∷ option_tests os
option_tests (_ ∷ os) = option_tests os

command_levels-cons :
    (c : Command) (cs : List Command)
    → command_levels (c ∷ []) ++ command_levels cs ≡ command_levels (c ∷ cs)
command_levels-cons (Command.verbose n) cs = refl
command_levels-cons _ cs = refl

command_tests-cons :
    (c : Command) (cs : List Command)
    → command_tests (c ∷ []) ++ command_tests cs ≡ command_tests (c ∷ cs)
command_tests-cons (Command.test arg) cs = refl
command_tests-cons _ cs = refl

option_levels-cons :
    (o : Opt) (os : List Opt) (l : List ℤ)
    → option_levels (o ∷ []) ++ (option_levels os ++ l) ≡ option_levels (o ∷ os) ++ l
option_levels-cons (Opt.verbose n) os l = refl
option_levels-cons _ os l = refl

option_tests-cons :
    (o : Opt) (os : List Opt) (l : List Bool)
    → option_tests (o ∷ []) ++ (option_tests os ++ l) ≡ option_tests (o ∷ os) ++ l
option_tests-cons Opt.test_mode os l = refl
option_tests-cons _ os l = refl

-- The value that a setting ends with if the given ones are still to come.
abbrev level_after : {R : Type 0} → Preferences R → List ℤ → ℤ
level_after p l = if p.verbosity_changed then p.verbosity else head_or p.verbosity l

abbrev test_after : {R : Type 0} → Preferences R → List Bool → Bool
test_after p l = if p.test_changed then p.test else head_or p.test l

said_yes_yes : said (codes "yes") (codes "yes") ≡ true
unfolding cmp_no_case
said_yes_yes = refl

module _ {R : Type 0} (rx : Regex R) (host : Host) where
  run_command-after :
      (p q : Preferences R) (c : Command) (l : List ℤ) (t : List Bool)
      → run_command rx host p c ≡ ok q
      → (level_after q l ≡ level_after p (command_levels (c ∷ []) ++ l))
        × (test_after q t ≡ test_after p (command_tests (c ∷ []) ++ t))
  unfolding run_command set_log_file set_headers_file set_verbose_level set_test_mode
      set_default_case set_reg_type set_server set_usr set_passwd set_protocol set_connection
      set_port set_del_duplicates set_time_out set_max_size_allow set_max_size_deny
      set_max_size_score set_highscore set_normal set_maxlength add_deny_rule add_allow_rule
      add_score
  run_command-after p q (allow_rule keyword operat id) l t h = ground arith
  run_command-after p q c l t h = ground arith

module _ {R : Type 0} (host : Host) (argv0 : Text) where
  run_option-after :
      (p q : Preferences R) (o : Opt) (l : List ℤ) (t : List Bool)
      → run_option host argv0 p o ≡ ok q
      → (level_after q l ≡ level_after p (option_levels (o ∷ []) ++ l))
        × (test_after q t ≡ test_after p (option_tests (o ∷ []) ++ t))
  unfolding run_option set_log_file set_verbose_level set_test_mode set_rc_file
      set_ignore_time_stamp set_return_status set_skip_ssl_verify
  run_option-after p q Opt.help l t h = ground arith
  run_option-after p q o l t h = ground (arith, said_yes_yes)

module _ {R : Type 0} (rx : Regex R) (host : Host) where
  run_commands-after :
      (p q : Preferences R) (cs : List Command)
      → run_commands rx host p cs ≡ ok q
      → (q.verbosity ≡ level_after p (command_levels cs))
        × (q.test ≡ test_after p (command_tests cs))
  unfolding run_commands
  run_commands-after p q [] h = ground arith
  run_commands-after p q (c ∷ cs) h =
      let (m, first, rest) =
        returned (run_command rx host p c) (λ m. run_commands rx host m cs) h in
      let (level, tests) =
        run_command-after rx host p m c (command_levels cs) (command_tests cs) first in
      let (later_level, later_tests) = run_commands-after m q cs rest in
      (
        later_level ∙ level ∙ ap (level_after p) (command_levels-cons c cs),
        later_tests ∙ tests ∙ ap (test_after p) (command_tests-cons c cs),
      )

module _ {R : Type 0} (host : Host) (argv0 : Text) where
  get_opts-after :
      (p q : Preferences R) (os : List Opt) (l : List ℤ) (t : List Bool)
      → get_opts host argv0 p os ≡ ok q
      → (level_after q l ≡ level_after p (option_levels os ++ l))
        × (test_after q t ≡ test_after p (option_tests os ++ t))
  unfolding get_opts
  get_opts-after p q [] l t h = ground arith
  get_opts-after p q (o ∷ os) l t h =
      let (m, first, rest) =
        returned (run_option host argv0 p o) (λ m. get_opts host argv0 m os) h in
      let (level, tests) =
        run_option-after host argv0 p m o (option_levels os ++ l) (option_tests os ++ t) first in
      let (later_level, later_tests) = get_opts-after m q os l t rest in
      (
        later_level ∙ level ∙ ap (level_after p) (option_levels-cons o os l),
        later_tests ∙ tests ∙ ap (test_after p) (option_tests-cons o os t),
      )

-- After the command line and then the configuration file have been read, the verbosity is the
-- level asked for first, on the command line before the file, and 3 if neither asks; and test mode
-- is on exactly as the first of them that mentions it says, and off if neither does.
pub first_setting_wins :
    {R : Type 0} (rx : Regex R) (host : Host) (argv0 : Text) (os : List Opt) (cs : List Command)
    (p q : Preferences R)
    → get_opts host argv0 new_preferences os ≡ ok p
    → run_commands rx host p cs ≡ ok q
    → (q.verbosity ≡ head_or (pos 3) (option_levels os ++ command_levels cs))
      × (q.test ≡ head_or false (option_tests os ++ command_tests cs))
unfolding new_preferences
first_setting_wins rx host argv0 os cs p q h k =
    let (level, tests) = run_commands-after rx host p q cs k in
    let (level', tests') =
      get_opts-after host argv0 new_preferences p os (command_levels cs) (command_tests cs) h in
    (level ∙ level', tests ∙ tests')
