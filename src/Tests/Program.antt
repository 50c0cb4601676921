-- ===== src/Tests/Program.antt =====
-- Examples for `main` with one account.
use mailfilter.Text.{isspace, isdigit, Text, codes, toupper, cmp_no_case}
use mailfilter.Pop3.{rounds, Connection, Session, HeaderParser, login, send, status, scan, logout}
use mailfilter.Precompile.{precompile_expressions}
use mailfilter.Base.Int.{pos, negsuc}
use mailfilter.Base.{
  length, if◌then◌else◌, ℕ, suc, ◌≡◌, refl, Bool, true, some, List, [], ◌∷◌, ◌≢◌, ◌↔◌, false, ◌++◌,
  ap, arith,
}
use mailfilter.Main.{
  configure, Setting, read_config, load, prepare, returns, main, Ending, check_accounts, conclude,
}
use mailfilter.Config.{
  Command, logfile, get_opts, server, user, pass, protocol, run_commands, port, run_command,
}
use mailfilter.Preferences.{Preferences, Account, new_preferences, pop3}
use mailfilter.Preferences.Setters.{
  Host, open_prefs, set_log_file, set_server, set_usr, set_passwd, set_protocol, set_connection,
  set_port,
}
use mailfilter.Tests.Samples.{toy_weeder, toy_regex}
use mailfilter.Main.Outcome.{all_pass, main_zero_iff}
use mailfilter.Main.Configured.{Configured, main_changes}
use mailfilter.Apop.{Md5}
use mailfilter.Main.Unreachable.{main_no_server}
use mailfilter.Base.Result.{ok}
use mailfilter.AccountCheck.{check, finish}
use mailfilter.Pop3.Replies.{atoi, second_word}

-- The only file that can be opened for reading is that in the home directory.
abbrev home_host : Host
home_host = record {
  can_open = λ name. true;
  home = some (codes "/home/user");
  expand = λ name. some name;
  use_ssl = true;
}

abbrev one_account : List Command
one_account =
    logfile (codes "log")
    ∷ server (codes "x")
    ∷ user (codes "me")
    ∷ pass (codes "pw")
    ∷ protocol (codes "pop3")
    ∷ port (pos 110)
    ∷ []

abbrev toy_setting : Setting
toy_setting = record {
  package_version = codes "0.8.9";
  rc_commands = λ name. (one_account, true);
  can_append = λ name. true;
  handler_set = true;
}

abbrev the_account : Account
the_account = record {
  serv = codes "x";
  user = codes "me";
  pass = codes "pw";
  the_port = 110;
  proto = some (pop3, 2);
  conn = true;
}

abbrev read_prefs : Preferences Text
read_prefs = record new_preferences {
  prefs_stream = some (codes "/home/user/.mailfilterrc");
  prefs_file_name = codes "/home/user/.mailfilterrc";
  log_file_name = codes "log";
  expanded = codes "log" ∷ [];
  cur_account = the_account;
  accnts = the_account ∷ [];
}

-- A server that answers everything with the same line, if a connection can be opened.
abbrev constant_server : Bool → Connection ℕ
constant_server reachable = record {
  c_open = λ host port time_out protocol net. (if reachable then pos 0 else negsuc 0, net);
  c_close = λ net. (pos 0, net);
  c_read = λ header net. (pos 7, suc net);
  c_write = λ cmd net. (pos (length cmd), net);
  c_reply = λ net. some (codes "+OK 0 0");
}

abbrev apop_md5 : Md5 Text
apop_md5 = record {
  md5_init = [];
  md5_update = λ context text. context ++ text;
  md5_final = λ context. context;
}

abbrev no_parser : HeaderParser
no_parser text = ([], true)

abbrev first_session : Session ℕ
first_session = record { net = 0; weeder = toy_weeder; events = [] }

is_configured : configure toy_regex home_host toy_setting (codes "mailfilter") [] ≡ ok read_prefs
unfolding configure get_opts read_config load prepare open_prefs run_commands run_command
    new_preferences set_log_file set_server set_usr set_passwd set_protocol set_connection set_port
    precompile_expressions cmp_no_case toupper
is_configured = refl

abbrev toy_main : Bool → Ending × Session ℕ
toy_main reachable =
    main toy_regex apop_md5 true no_parser (λ n. constant_server reachable) true home_host
      toy_setting (codes "mailfilter") [] first_session

main_zero_iff_example : ((toy_main true).0 ≡ returns (pos 0)) ↔ (
    all_pass toy_regex apop_md5 true no_parser
      (λ n. constant_server true)
      true
      toy_setting
      read_prefs
      0
      read_prefs.accnts
      (pos 0)
      first_session
    ≡ true)
unfolding new_preferences
main_zero_iff_example =
    main_zero_iff toy_regex apop_md5 true no_parser (λ n. constant_server true) true home_host
      toy_setting (codes "mailfilter") [] read_prefs first_session is_configured refl

main_no_server_example : (toy_main false).0 ≡ returns (negsuc 0)
unfolding new_preferences
main_no_server_example =
    main_no_server toy_regex apop_md5 true no_parser (λ n. constant_server false) true home_host
      toy_setting (codes "mailfilter") [] read_prefs first_session is_configured
      ((pop3, 2, refl), tt) (λ n host port time_out protocol net. refl)

changes_session : (toy_main false).1 ≢ first_session
unfolding configure get_opts read_config load prepare open_prefs run_commands run_command
    new_preferences set_log_file set_server set_usr set_passwd set_protocol set_connection set_port
    precompile_expressions cmp_no_case toupper main check_accounts check conclude login send status
    atoi second_word scan finish logout isspace isdigit rounds
changes_session =
    λ h. let many : 3 ≡ 0 = ap (λ (s : Session ℕ). length s.events) h in omega (arith, many)

main_changes_example : Configured toy_regex home_host toy_setting (codes "mailfilter") []
main_changes_example =
    main_changes toy_regex apop_md5 true no_parser (λ n. constant_server false) true home_host
      toy_setting (codes "mailfilter") [] first_session changes_session
