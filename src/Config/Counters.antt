-- ===== src/Config/Counters.antt =====
-- The counters of negative rules, which the weeder uses as guards, agree with the stored rules.
use mailfilter.Base.{◌≡◌, refl, Bool, true, false, List, [], ◌∷◌, arith, inr}
use mailfilter.Base.Int.{wrap}
use mailfilter.Base.Result.{ok, ok-injective, returned}
use mailfilter.Text.{Text}
use mailfilter.Filter.{Regex}
use mailfilter.Preferences.{Preferences, new_preferences}
use mailfilter.Preferences.Setters.{
  Host, set_log_file, set_headers_file, set_verbose_level, set_test_mode, set_default_case,
  set_reg_type, set_server, set_usr, set_passwd, set_protocol, set_connection, set_port,
  set_del_duplicates, set_time_out, set_max_size_allow, set_max_size_deny, set_max_size_score,
  set_highscore, set_normal, set_maxlength, set_rc_file, set_ignore_time_stamp, set_return_status,
  set_skip_ssl_verify,
}
use mailfilter.Config.{
  Command, allow_rule, deny_rule, score, highscore, run_command, Opt, run_commands, get_opts,
  run_option,
}
use mailfilter.Config.Counted.{
  IsCounted, SameRules, SameRules-IsCounted, add_allow_rule-IsCounted, add_deny_rule-IsCounted,
  add_score-IsCounted,
}

module _ {R : Type 0} (rx : Regex R) (host : Host) where
  abbrev is_rule : Command → Bool
  is_rule (allow_rule _ _ _) = true
  is_rule (deny_rule _ _ _) = true
  is_rule (score _ _ _ _) = true
  is_rule _ = false

  run_command-SameRules :
      (p q : Preferences R) (c : Command)
      → is_rule c ≡ false
      → run_command rx host p c ≡ ok q
      → SameRules rx host p q
  unfolding run_command set_log_file set_headers_file set_verbose_level set_test_mode
      set_default_case set_reg_type set_server set_usr set_passwd set_protocol set_connection
      set_port set_del_duplicates set_time_out set_max_size_allow set_max_size_deny
      set_max_size_score set_highscore set_normal set_maxlength
  run_command-SameRules p q (highscore n) r h = ground arith
  run_command-SameRules p q c r h = ground arith

  run_command-IsCounted :
      (p q : Preferences R) (c : Command)
      → run_command rx host p c ≡ ok q
      → IsCounted p
      → IsCounted q
  unfolding run_command
  run_command-IsCounted p q (allow_rule keyword operat id) h k =
      rw (← ok-injective h) (add_allow_rule-IsCounted rx host p keyword operat id k)
  run_command-IsCounted p q (deny_rule keyword operat id) h k =
      rw (← ok-injective h) (add_deny_rule-IsCounted rx host p keyword operat id k)
  run_command-IsCounted p q (score keyword n operat id) h k =
      rw (← ok-injective h) (add_score-IsCounted rx host p keyword n operat id k)
  run_command-IsCounted p q c h k =
      SameRules-IsCounted rx host p q (run_command-SameRules p q c refl h) k

  run_commands-IsCounted :
      (p q : Preferences R) (cs : List Command)
      → run_commands rx host p cs ≡ ok q
      → IsCounted p
      → IsCounted q
  unfolding run_commands
  run_commands-IsCounted p q [] h k = rw (← ok-injective h) k
  run_commands-IsCounted p q (c ∷ cs) h k =
      let (m, first, rest) =
        returned (run_command rx host p c) (λ m. run_commands rx host m cs) h in
      run_commands-IsCounted m q cs rest (run_command-IsCounted p m c first k)

  run_option-SameRules :
      (argv0 : Text) (p q : Preferences R) (o : Opt)
      → run_option host argv0 p o ≡ ok q
      → SameRules rx host p q
  unfolding run_option set_log_file set_verbose_level set_test_mode set_rc_file
      set_ignore_time_stamp set_return_status set_skip_ssl_verify
  run_option-SameRules argv0 p q Opt.help h = ground arith
  run_option-SameRules argv0 p q o h = ground arith

  get_opts-IsCounted :
      (argv0 : Text) (p q : Preferences R) (os : List Opt)
      → get_opts host argv0 p os ≡ ok q
      → IsCounted p
      → IsCounted q
  unfolding get_opts
  get_opts-IsCounted argv0 p q [] h k = rw (← ok-injective h) k
  get_opts-IsCounted argv0 p q (o ∷ os) h k =
      let (m, first, rest) =
        returned (run_option host argv0 p o) (λ m. get_opts host argv0 m os) h in
      get_opts-IsCounted argv0 m q os rest
        (SameRules-IsCounted rx host p m (run_option-SameRules argv0 p m o first) k)

new_preferences-IsCounted : {R : Type 0} → IsCounted (new_preferences {R = R})
unfolding new_preferences wrap
new_preferences-IsCounted = record {
  allows = refl;
  denies = refl;
  scores = refl;
  default_case = inr refl;
  allow_cases = tt;
  deny_cases = tt;
}

-- After any command line and any configuration file that are accepted, the three counters of
-- negative rules are the numbers of negative rules stored, as `int`s, and the default case flag and
-- the case flag of every allow and deny rule are CASE_SENSITIVE or CASE_INSENSITIVE.
pub startup-IsCounted :
    {R : Type 0} (rx : Regex R) (host : Host) (argv0 : Text) (os : List Opt) (cs : List Command)
    (p q : Preferences R)
    → get_opts host argv0 new_preferences os ≡ ok p
    → run_commands rx host p cs ≡ ok q
    → IsCounted q
startup-IsCounted rx host argv0 os cs p q h k =
    run_commands-IsCounted rx host p q cs k
      (get_opts-IsCounted rx host argv0 new_preferences p os h new_preferences-IsCounted)
