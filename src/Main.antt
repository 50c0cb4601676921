-- ===== src/Main.antt =====
-- `main` of src/mailfilter.cc, with `load` of src/preferences.cc and `open` of src/feedback.cc: the
-- options and the configuration file are read, the rules are compiled, and the accounts are checked
-- one after the other.
pub mod Outcome
pub mod Unreachable
pub mod Configured
use mailfilter.Base.Int.{eq_ℤ, ℤ, pos, negsuc}
use mailfilter.Base.{
  length, ◌==◌, if◌then◌else◌, ℕ, suc, Bool, true, false, not, ◌&&◌, none, some, List, [], ◌∷◌,
  ◌++◌,
}
use mailfilter.Base.Result.{die, Result, throw, ok, exit, ◌>>=◌}
use mailfilter.Text.{Text, codes}
use mailfilter.Pop3.{Connection, HeaderParser, Session, login, record_event, complain, printed}
use mailfilter.Config.{Command, Opt, run_commands, get_opts}
use mailfilter.Filter.{Regex}
use mailfilter.Preferences.Setters.{Host, open_prefs}
use mailfilter.Apop.{Md5, apop_login}
use mailfilter.Preferences.{Preferences, Account, ProtocolClass, pop3, apop, new_preferences}
use mailfilter.Precompile.{precompile_expressions}
use mailfilter.AccountCheck.{check}
use mailfilter.Feedback.{message}

-- What the program finds at its start, beside the configuration of a `Host`: the version, the
-- commands that the scanner reads from a file and whether the grammar accepts it behind them, the
-- names that can be opened for appending, and whether `sigaction` returns 0 or more.
pub record Setting : Type 0 where
  pub package_version : Text
  pub rc_commands : Text → List Command × Bool
  pub can_append : Text → Bool
  pub handler_set : Bool

-- How the process ends: `main` returns behind its loop; or it is left before, by `exit` or by a
-- `return -1`, with what ERROR_MSG wrote; or it reads the protocol of an account that has none.
pub data Ending : Type 0 where
  returns : ℤ → Ending
  left : ℤ → Text → Ending
  undefined : Ending

-- How the loop over the accounts ends, likewise; `finished` has the values of `return_val` and of
-- `mailbox_status`.
pub data Progress : Type 0 where
  finished : ℤ → ℤ → Progress
  exited : ℤ → Text → Progress
  thrown : Text → Progress
  no_protocol : Progress

-- Feedback :: open
abbrev pub open_log : Setting → Text → Bool
open_log setting name = not (length name == 0) && setting.can_append name

abbrev log_error : Text → Text
log_error name =
    if not (length name == 0)
    then codes "Could not open log file '" ++ name ++ codes "' for writing."
    else codes "Could not locate log file."

-- What the first handler for exceptions makes of a call.
abbrev pub caught {ℓ} : {A : Type ℓ} → Result A → Result A
caught (throw what) = die (codes "Runtime exception occurred: " ++ what)
caught (exit status text) = exit status text
caught (ok x) = ok x

module _ {R : Type 0} (rx : Regex R) (host : Host) (setting : Setting) where
  -- Preferences :: load; the routine for syntax errors, whose text is left out, exits.
  unfoldable pub load : Preferences R → Result (Bool × Preferences R)
  load p = elim p.prefs_stream [
    | none ↦ ok (false, p)
    | some name ↦ do
      q ← run_commands rx host p (setting.rc_commands name).0
      if (setting.rc_commands name).1 then ok (true, q) else exit (negsuc 0) []
  ]

  -- The checks between the configuration file and the loop.
  unfoldable pub prepare : Preferences R → Result (Preferences R)
  prepare q =
      let (comp_err, compiled, text) = precompile_expressions rx q in
      if not (open_log setting q.log_file_name)
      then die (log_error q.log_file_name)
      else if not setting.handler_set
      then die (codes "Signal handler could not be installed.")
      else if comp_err == 0
      then ok compiled
      else die text

  abbrev pub loaded : Bool × Preferences R → Result (Preferences R)
  loaded (true, q) = prepare q
  loaded (false, q) = die (codes "Loading the rcfile failed.")

  -- `main` from its try to open the configuration file to its loop.
  unfoldable pub read_config : Preferences R → Result (Preferences R)
  read_config p =
      let (opened, o) = open_prefs host p p.prefs_file_name in
      if opened then caught (load o) >>= loaded else die (codes "The rcfile could not be opened.")

  -- `main` up to its loop.
  unfoldable pub configure : Text → List Opt → Result (Preferences R)
  configure argv0 argv = do p ← get_opts host argv0 new_preferences argv; read_config p

-- The accounts' connections, by their positions in the configuration: two accounts can have the same
-- one. The state `S` is that of the network and of all of them.
abbrev pub Sockets : Type 0 → Type 0
Sockets S = ℕ → Connection S

abbrev pub usr_at_server : Account → Text
usr_at_server a = a.user ++ codes "@" ++ a.serv

module _ {S : Type 0} where
  -- The message with which the check of an account begins.
  abbrev pub querying : Setting → Account → Session S → Session S
  querying setting a s = record_event s (
      printed (
        message (setting.package_version ++ codes " querying " ++ usr_at_server a ++ codes ".")
          (pos 3)))

  abbrev pub skipping : Account → Session S → Session S
  skipping a s =
      complain s (codes "Skipping account " ++ usr_at_server a ++ codes " due to earlier errors.")

  -- `proto->login`, which is virtual
  abbrev pub proto_login :
      {C : Type 0}
      → Md5 C
      → ProtocolClass
      → Connection S
      → Text
      → Text
      → Session S
      → Bool × Session S
  proto_login md5 pop3 conn = login conn
  proto_login md5 apop conn = apop_login md5 conn

  -- `main` behind its loop.
  unfoldable pub conclude : {R : Type 0} → Preferences R → Progress × Session S → Ending × Session S
  conclude p (finished return_val status, s) =
      (returns (if p.ret_status then status else return_val), s)
  conclude p (exited code text, s) = (left code text, s)
  conclude p (thrown what, s) =
      (left (negsuc 0) [], complain s (codes "Runtime exception occurred: " ++ what))
  conclude p (no_protocol, s) = (undefined, s)

module _ {R S C : Type 0} (rx : Regex R) (md5 : Md5 C) (signed : Bool) (rfc : HeaderParser)
    (sockets : Sockets S) (can_store : Bool) (setting : Setting) (p : Preferences R) where
  -- The check of the account at position `n`, without its messages.
  abbrev pub check_at : ProtocolClass → ℕ → Account → ℤ → Session S → Result ℤ × ℤ × Session S
  check_at c n a status s =
      check rx signed rfc (sockets n) can_store p (proto_login md5 c (sockets n)) a status s

  -- The loop over the accounts, from position `n` on.
  unfoldable pub check_accounts : ℕ → List Account → ℤ → ℤ → Session S → Progress × Session S
  check_accounts n [] return_val status s = (finished return_val status, s)
  check_accounts n (a ∷ accounts) return_val status s = elim a.proto [
    | none ↦ (no_protocol, querying setting a s)
    | some (c, _) ↦
        let (result, counted, s1) = check_at c n a status (querying setting a s) in
        let passed = check_accounts (suc n) accounts return_val counted s1 in
        let failed = check_accounts (suc n) accounts (negsuc 0) counted (skipping a s1) in
        elim result [
          | exit code text ↦ (exited code text, s1)
          | throw what ↦ (thrown what, s1)
          | ok code ↦ if eq_ℤ code (pos 0) then passed else failed
        ]
  ]

module _ {R S C : Type 0} (rx : Regex R) (md5 : Md5 C) (signed : Bool) (rfc : HeaderParser)
    (sockets : Sockets S) (can_store : Bool) (host : Host) (setting : Setting) where
  -- main; `argv` are the options, none where `argc` is 1.
  unfoldable pub main : Text → List Opt → Session S → Ending × Session S
  main argv0 argv s = elim (configure rx host setting argv0 argv) [
    | exit code text ↦ (left code text, s)
    | throw what ↦ (left (negsuc 0) what, s)
    | ok p ↦
        conclude p (
          check_accounts rx md5 signed rfc sockets can_store setting p 0 p.accnts (pos 0) (pos 0) s)
  ]
