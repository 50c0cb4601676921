-- ===== src/Preferences.antt =====
-- src/preferences.cc and src/preferences.hh: the settings that the command line and the
-- configuration file fill and the other components read. The setters are in the child modules.
pub mod Setters
pub mod Rules
use mailfilter.Base.{
  ℕ, ◌+◌, Bool, true, false, Option, none, some, List, [], ◌∷◌, ◌++◌, ◌==◌, if◌then◌else◌,
}
use mailfilter.Base.Int.{ℤ, pos, eq_ℤ}
use mailfilter.Base.Result.{Result, ok, exit}
use mailfilter.Text.{Text, codes, str_eq, same_no_case}
use mailfilter.Filter.{
  Regex, Filter, Score, SizeScore, case_sensitive, case_insensitive, reg_extended, new_filter,
  set_expression, set_negativity, set_case, set_score,
}

-- PROTOCOL_POP3, PROTOCOL_APOP and SSL_C of src/protocol.hh
abbrev pub protocol_pop3 : ℕ
protocol_pop3 = 2

abbrev pub protocol_apop : ℕ
protocol_apop = 4

abbrev pub ssl_c : ℕ
ssl_c = 4096

-- An `Account` of src/account.hh: its class of protocol object with the identifier that
-- `set_protocol` stores in it, and whether a connection was attached.
pub data ProtocolClass : Type 0 where
  pop3 apop : ProtocolClass

pub record Account : Type 0 where
  pub serv : Text
  pub user : Text
  pub pass : Text
  pub the_port : ℕ
  pub proto : Option (ProtocolClass × ℕ)
  pub conn : Bool

-- The members of the class, and in `expanded` the names that `wordexp` has been called with, in
-- order, since it also runs the commands that stand in them.
pub record Preferences (R : Type 0) : Type 0 where
  pub prefs_stream : Option Text
  pub allows : List (Filter R)
  pub denies : List (Filter R)
  pub scores : List (Score R)
  pub accnts : List Account
  pub cur_account : Account
  pub prefs_file_name : Text
  pub log_file_name : Text
  pub headers_file_name : Text
  pub icase : ℕ
  pub norm : Bool
  pub test : Bool
  pub show_headers : Bool
  pub del_duplicates : Bool
  pub ret_status : Bool
  pub ignore_time_stamp : Bool
  pub skip_ssl_verify : Bool
  pub high_score : ℤ
  pub time_out_val : ℕ
  pub max_size : ℤ
  pub size_score : SizeScore
  pub max_size_friends : ℤ
  pub max_line_length : ℤ
  pub rreg_type : ℕ
  pub verbosity : ℤ
  pub negative_allows : ℤ
  pub negative_denies : ℤ
  pub negative_scores : ℤ
  pub verbosity_changed : Bool
  pub test_changed : Bool
  pub expanded : List Text

abbrev pub new_account : Account
new_account = record { serv = []; user = []; pass = []; the_port = 0; proto = none; conn = false }

module _ {R : Type 0} where
  -- Preferences :: Preferences; `size_score`, which the constructor leaves alone, is set to 0 here.
  unfoldable pub new_preferences : Preferences R
  new_preferences = record {
    prefs_stream = none;
    allows = [];
    denies = [];
    scores = [];
    accnts = [];
    cur_account = new_account;
    prefs_file_name = [];
    log_file_name = [];
    headers_file_name = [];
    icase = case_insensitive;
    norm = false;
    test = false;
    show_headers = false;
    del_duplicates = false;
    ret_status = false;
    ignore_time_stamp = false;
    skip_ssl_verify = false;
    high_score = pos 100;
    time_out_val = 30;
    max_size = pos 0;
    size_score = record { score = pos 0; size = pos 0 };
    max_size_friends = pos 0;
    max_line_length = pos 0;
    rreg_type = 0;
    verbosity = pos 3;
    negative_allows = pos 0;
    negative_denies = pos 0;
    negative_scores = pos 0;
    verbosity_changed = false;
    test_changed = false;
    expanded = [];
  }
