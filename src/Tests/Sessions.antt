-- ===== src/Tests/Sessions.antt =====
-- Examples for a session with a server that has one message.
use mailfilter.Text.{isspace, isdigit, isalpha, Text, codes, toupper, cmp_no_case, int_to_string}
use mailfilter.Weeder.Duplicates.{check_duplicates}
use mailfilter.Weeder.Allow.{check_allow_rules}
use mailfilter.Weeder.Deny.{check_maxlength, check_deny_rules}
use mailfilter.Base.{[], ◌∷◌, none, some, length, ◌≡◌, refl, true, false, Option, List, Bool, ◌⊎◌}
use mailfilter.Preferences.{new_preferences, Preferences, new_account}
use mailfilter.Pop3.{
  Connection, Session, HeaderParser, scan, status, send, rounds, examine, parse_reply,
  invoke_msg_parser, judge, remove_msg, show_header, login, logout, read, write_call,
}
use mailfilter.Pop3.History.{Adds}
use mailfilter.Pop3.Transcript.{scan_commands}
use mailfilter.Pop3.TestMode.{scan_test_mode, deletions}
use mailfilter.Tests.Samples.{toy_regex, toy_prefs, toy_weeder, spam}
use mailfilter.Base.Int.{ℤ, pos, negsuc, eq_ℤ, ltb_ℤ, wrap, add_int}
use mailfilter.Pop3.Replies.{atoi, second_word, behind_last_blank, below_first_line}
use mailfilter.Header.{set_normal_subject, add_entry}
use mailfilter.Weeder.{is_weed}
use mailfilter.Base.Result.{ok, Result}
use mailfilter.Pop3.Login.{login_commands, Answers, asked, greeted}
use mailfilter.AccountCheck.{open_result, check, finish, WorksOff, check_success}
use mailfilter.AccountCheck.Closing.{EndsClosed, EndsQuit, check_closes}

-- The replies that the server has still to send, and the last one that was read.
abbrev Script : Type 0
Script = List Text × Option Text

abbrev next_reply : Script → ℤ × Script
next_reply ([], last) = (negsuc 0, ([], last))
next_reply (r ∷ rs, last) = (pos (length r), (rs, some r))

abbrev toy_server : Connection Script
toy_server = record {
  c_open = λ host port time_out protocol script. (pos 0, script);
  c_close = λ script. (pos 0, script);
  c_read = λ header. next_reply;
  c_write = λ cmd script. (pos (length cmd), script);
  c_reply = λ script. script.1;
}

abbrev toy_parser : HeaderParser
toy_parser text = (spam.msg_entries, true)

abbrev toy_session : Session Script
toy_session = record {
  net = (codes "+OK 1 99" ∷ codes "+OK 1 99" ∷ codes "+OK" ∷ [], none);
  weeder = toy_weeder;
  events = [];
}

scan_ends : (scan toy_regex true toy_parser toy_server true toy_prefs toy_session).0 ≡ ok (pos 0)
unfolding scan status send atoi second_word rounds examine parse_reply invoke_msg_parser judge
    remove_msg show_header add_entry new_preferences cmp_no_case toupper int_to_string is_weed
    behind_last_blank below_first_line set_normal_subject isspace isdigit isalpha
scan_ends = refl

scan_commands_example :
    Adds []
      (scan toy_regex true toy_parser toy_server true toy_prefs toy_session).1.events
      (codes "STAT\r\n" ∷ codes "LIST 1\r\n" ∷ codes "TOP 1 0\r\n" ∷ codes "DELE 1\r\n" ∷ [])
      3
unfolding scan status send atoi second_word rounds examine parse_reply invoke_msg_parser judge
    remove_msg show_header add_entry new_preferences cmp_no_case toupper int_to_string is_weed
    behind_last_blank below_first_line set_normal_subject isspace isdigit isalpha check_duplicates
    check_allow_rules check_maxlength check_deny_rules
scan_commands_example =
    scan_commands toy_regex true toy_parser toy_server true toy_prefs toy_session scan_ends

abbrev test_prefs : Preferences Text
test_prefs = record toy_prefs { test = true }

scan_test_mode_example :
    deletions (scan toy_regex true toy_parser toy_server true test_prefs toy_session).1.events ≡ []
scan_test_mode_example =
    scan_test_mode toy_regex true toy_parser toy_server true test_prefs refl toy_session

login_ends : (login toy_server (codes "me") (codes "x") toy_session).0 ≡ true
unfolding login send
login_ends = refl

login_commands_example :
    (eq_ℤ (toy_server.c_read false toy_session.net).0 (negsuc 0) ≡ false)
    × Answers toy_server (codes "USER me\r\n") (greeted toy_server toy_session)
    × Answers toy_server
        (codes "PASS x\r\n")
        (asked toy_server (codes "USER me\r\n") (greeted toy_server toy_session))
    × ((login toy_server (codes "me") (codes "x") toy_session).1.events
        ≡ read false
          ∷ write_call (codes "USER me\r\n")
          ∷ read false
          ∷ write_call (codes "PASS x\r\n")
          ∷ read false
          ∷ [])
login_commands_example = login_commands toy_server (codes "me") (codes "x") toy_session login_ends

abbrev long_session : Session Script
long_session = record toy_session {
  net = (codes "+OK" ∷ codes "+OK" ∷ codes "+OK" ∷ codes "+OK 0 0" ∷ codes "+OK 0 0" ∷ [], none);
}

abbrev toy_login : Text → Text → Session Script → Bool × Session Script
toy_login usr pass s = login toy_server usr pass s

check_ends :
    (check toy_regex true toy_parser toy_server true toy_prefs toy_login new_account
      (pos 0)
      long_session).0
    ≡ ok (pos 0)
unfolding check login scan status send atoi second_word rounds finish logout new_preferences isspace
    isdigit add_int wrap
check_ends = refl

check_success_example :
    (eq_ℤ
        (open_result toy_regex true toy_parser toy_server true toy_prefs toy_login new_account
          (pos 0)
          long_session)
        (pos 0)
      ≡ true)
    × ((toy_login [] [] long_session).0 ≡ true)
    × (ltb_ℤ (status toy_server (toy_login [] [] long_session).1).0 (pos 0) ≡ false)
    × WorksOff toy_regex true toy_parser toy_server true toy_prefs toy_login new_account
        (pos 0)
        long_session
        (check toy_regex true toy_parser toy_server true toy_prefs toy_login new_account
          (pos 0)
          long_session).2
check_success_example =
    check_success toy_regex true toy_parser toy_server true toy_prefs toy_login new_account (pos 0)
      long_session check_ends

-- A server that refuses the password.
abbrev refused_session : Session Script
refused_session = record toy_session { net = (codes "+OK" ∷ codes "+OK" ∷ codes "-ERR" ∷ [], none) }

abbrev refused_check : Result ℤ × ℤ × Session Script
refused_check =
    check toy_regex true toy_parser toy_server true toy_prefs toy_login new_account (pos 0)
      refused_session

check_refused : refused_check.0 ≡ ok (negsuc 0)
unfolding check login send new_preferences
check_refused = refl

check_closes_example : EndsClosed refused_check.2.events ⊎ EndsQuit toy_server refused_check.2
check_closes_example =
    check_closes toy_regex true toy_parser toy_server true toy_prefs toy_login new_account (pos 0)
      refused_session (negsuc 0) refl check_refused
