-- ===== src/Preferences/Setters.antt =====
-- src/preferences.cc: the setters for single values, and `open`, which looks for the configuration
-- file. A setter that may call `exit (-1)` returns a `Result`.
use mailfilter.Base.{
  ℕ, ◌+◌, ◌&&◌, not, Bool, true, false, Option, none, some, [], ◌∷◌, ◌++◌, ◌==◌, if◌then◌else◌,
  length,
}
use mailfilter.Base.Int.{ℤ}
use mailfilter.Base.Result.{Result, ok, die}
use mailfilter.Text.{Text, codes, same_no_case}
use mailfilter.Filter.{case_insensitive, reg_extended}
use mailfilter.Preferences.{Preferences, Account, pop3, apop, protocol_pop3, protocol_apop, ssl_c}

-- The file system and the environment that the setters ask: whether a file can be opened for
-- reading, `getenv ("HOME")`, the first word that `wordexp` gives for a name, if it gives one, and
-- whether the program was built with OpenSSL. `wordexp` is called with no flags, so that it also
-- runs the commands of a name with `$(...)`: `expand` has what they put into the name, and that they
-- are run is recorded in the preferences.
pub record Host : Type 0 where
  pub can_open : Text → Bool
  pub home : Option Text
  pub expand : Text → Option Text
  pub use_ssl : Bool

abbrev pub said : Text → Text → Bool
said par word = same_no_case par word

abbrev rc_file_name : Text
rc_file_name = codes "/.mailfilterrc"

abbrev rc_file_name_win : Text
rc_file_name_win = codes "/_mailfilterrc"

-- Account :: set_protocol
abbrev account_set_protocol : Account → ℕ → Account
account_set_protocol a prot =
    if prot == protocol_apop
    then record a { proto = some (apop, protocol_apop) }
    else if prot == protocol_apop + ssl_c
    then record a { proto = some (apop, protocol_apop + ssl_c) }
    else if prot == protocol_pop3 + ssl_c
    then record a { proto = some (pop3, protocol_pop3 + ssl_c) }
    else record a { proto = some (pop3, protocol_pop3) }

module _ {R : Type 0} where
  unfoldable pub set_ignore_time_stamp : Preferences R → Bool → Preferences R
  set_ignore_time_stamp p new_ts = record p { ignore_time_stamp = new_ts }

  unfoldable pub set_rc_file : Preferences R → Text → Preferences R
  set_rc_file p name = record p { prefs_file_name = name }

  -- `wordexp (name, &result, 0)`, which is recorded.
  abbrev pub ask_expand : Preferences R → Text → Preferences R
  ask_expand p name = record p { expanded = p.expanded ++ name ∷ [] }

  -- A name that is already there, from the command line, is kept, and then `wordexp` is not called.
  unfoldable pub set_log_file : Host → Preferences R → Text → Result (Preferences R)
  set_log_file host p name =
      if length p.log_file_name == 0
      then (elim (host.expand name) [
        | none ↦ die (codes "Invalid logfile name: `" ++ name ++ codes "'.")
        | some path ↦ ok (record (ask_expand p name) { log_file_name = path })
      ])
      else ok p

  unfoldable pub set_headers_file : Host → Preferences R → Text → Result (Preferences R)
  set_headers_file host p name = elim (host.expand name) [
    | none ↦ die (codes "Invalid headers store-file name: `" ++ name ++ codes "'.")
    | some path ↦ ok (record (ask_expand p name) { headers_file_name = path })
  ]

  unfoldable pub set_verbose_level : Preferences R → ℤ → Preferences R
  set_verbose_level p level =
      if p.verbosity_changed then p else record p { verbosity = level; verbosity_changed = true }

  unfoldable pub set_test_mode : Preferences R → Text → Preferences R
  set_test_mode p par =
      if p.test_changed
      then p
      else record p { test = if said par (codes "yes") then true else false; test_changed = true }

  unfoldable pub set_default_case : Preferences R → Text → Preferences R
  set_default_case p new_case = record p {
    icase = if said new_case (codes "yes") then 0 else case_insensitive;
  }

  unfoldable pub set_reg_type : Preferences R → Text → Result (Preferences R)
  set_reg_type p new_type =
      if said new_type (codes "extended")
      then ok (record p { rreg_type = reg_extended })
      else if said new_type (codes "basic")
      then ok (record p { rreg_type = 0 })
      else die (codes "Regular expressions must either be of type 'extended', or 'basic'.")

  unfoldable pub set_server : Preferences R → Text → Preferences R
  set_server p server = record p { cur_account = record p.cur_account { serv = server } }

  unfoldable pub set_usr : Preferences R → Text → Preferences R
  set_usr p usr = record p { cur_account = record p.cur_account { user = usr } }

  unfoldable pub set_passwd : Preferences R → Text → Preferences R
  set_passwd p pass = record p { cur_account = record p.cur_account { pass = pass } }

  unfoldable pub set_protocol : Host → Preferences R → Text → Result (Preferences R)
  set_protocol host p prot =
      let use_prot =
        λ (id : ℕ). ok (record p { cur_account = account_set_protocol p.cur_account id }) in
      if said prot (codes "POP3")
      then use_prot protocol_pop3
      else if said prot (codes "APOP")
      then use_prot protocol_apop
      else if host.use_ssl && said prot (codes "POP3/SSL")
      then use_prot (protocol_pop3 + ssl_c)
      else if host.use_ssl && said prot (codes "APOP/SSL")
      then use_prot (protocol_apop + ssl_c)
      else die
          (codes "Only supported protocols are POP3 and APOP (SSL only if OpenSSL is available).")

  -- Account :: set_connection attaches a new socket to the protocol object.
  unfoldable pub set_connection : Preferences R → Preferences R
  set_connection p = record p { cur_account = record p.cur_account { conn = true } }

  -- The port ends the block of one account, which is stored.
  unfoldable pub set_port : Preferences R → ℕ → Preferences R
  set_port p port =
      let account = record p.cur_account { the_port = port } in
      record p { cur_account = account; accnts = p.accnts ++ account ∷ [] }

  unfoldable pub set_del_duplicates : Preferences R → Text → Preferences R
  set_del_duplicates p del = record p {
    del_duplicates = if said del (codes "yes") then true else false;
  }

  unfoldable pub set_time_out : Preferences R → ℕ → Preferences R
  set_time_out p val = record p { time_out_val = val }

  unfoldable pub set_max_size_allow : Preferences R → ℤ → Preferences R
  set_max_size_allow p val = record p { max_size_friends = val }

  unfoldable pub set_max_size_deny : Preferences R → ℤ → Preferences R
  set_max_size_deny p val = record p { max_size = val }

  unfoldable pub set_max_size_score : Preferences R → ℤ → ℤ → Preferences R
  set_max_size_score p score size = record p { size_score = record { score = score; size = size } }

  unfoldable pub set_highscore : Preferences R → ℤ → Preferences R
  set_highscore p val = record p { high_score = val }

  unfoldable pub set_normal : Preferences R → Text → Preferences R
  set_normal p par = record p { norm = if said par (codes "yes") then true else false }

  unfoldable pub set_maxlength : Preferences R → ℤ → Preferences R
  set_maxlength p val = record p { max_line_length = val }

  unfoldable pub set_return_status : Preferences R → Bool → Preferences R
  set_return_status p st = record p { ret_status = st }

  unfoldable pub set_skip_ssl_verify : Preferences R → Bool → Preferences R
  set_skip_ssl_verify p skip = record p { skip_ssl_verify = skip }

  abbrev with_stream : Host → Preferences R → Text → Preferences R
  with_stream host p name = record p {
    prefs_file_name = name;
    prefs_stream = if host.can_open name then some name else none;
  }

  -- Preferences :: open. Where the name is empty and the first file in the home directory does not
  -- open, the second name is stored, and the stream stays closed.
  unfoldable pub open_prefs : Host → Preferences R → Text → Bool × Preferences R
  open_prefs host p name =
      if not (length name == 0)
      then (host.can_open name, with_stream host p name)
      else (elim host.home [
        | none ↦ (false, record p { prefs_file_name = name })
        | some home_dir ↦
            let first = home_dir ++ rc_file_name in
            if host.can_open first
            then (true, with_stream host p first)
            else (false, record p { prefs_file_name = home_dir ++ rc_file_name_win })
      ])
