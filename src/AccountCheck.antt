-- ===== src/AccountCheck.antt =====
-- `check` of src/account.cc: one account is opened, scanned and closed. The virtual `login` of the
-- protocol object, that of src/pop3.cc or of src/apop.cc, is an argument; the other operations are
-- those of src/pop3.cc for both.
pub mod Closing
use mailfilter.Base.{
  ℕ, [], ◌∷◌, if◌then◌else◌, ◌≡◌, Bool, not, ◌&&◌, none, some, List, ◌++◌, Bool-cases, inl, inr,
  append_assoc, arith, refl, true, false,
}
use mailfilter.Base.Int.{ltb_ℤ, eq_ℤ, add_int, ℤ, pos}
use mailfilter.Base.Result.{Result, ok, exit, throw}
use mailfilter.Text.{Text, codes, int_to_string}
use mailfilter.Pop3.{
  Connection, Event, write_call, HeaderParser, Session, record_event, logout, closed, status, scan,
  printed, complain,
}
use mailfilter.Preferences.{Account, Preferences}
use mailfilter.Filter.{Regex}
use mailfilter.Weeder.Report.{gen_failure}
use mailfilter.Feedback.{message}

module _ {S : Type 0} (conn : Connection S) where
  -- `conn->c_close ()`
  abbrev pub close_conn : Session S → ℤ × Session S
  close_conn s =
      let (status, net) = conn.c_close s.net in
      (status, record_event (record s { net = net }) closed)

  -- `proto->logout (); conn->c_close ();`
  unfoldable pub hang_up : Session S → Session S
  hang_up s = let (_, s1) = logout conn s in (close_conn s1).1

-- `proto->ident ()`
abbrev pub ident : Account → ℕ
ident a = elim a.proto [ none ↦ 0 | some c ↦ c.1 ]

module _ {R S : Type 0} (conn : Connection S) (p : Preferences R) where
  -- What follows on the scan: the status of the mailbox is asked for again, and the session ends.
  unfoldable pub finish : ℤ → ℤ → Session S → Result ℤ × ℤ × Session S
  finish mailbox_status messages s =
      let (again, asked) = status conn s in
      let counted = if p.ret_status then again else messages in
      let before = if p.ret_status then asked else s in
      let (out, left) = logout conn before in
      let (ended, shut) = close_conn conn left in
      let total = add_int mailbox_status counted in
      if p.ret_status && ltb_ℤ again (pos 0)
      then (
        ok gen_failure,
        mailbox_status,
        hang_up conn (complain asked (codes "Could not determine mailbox status.")),
      )
      else if not out
      then (ok gen_failure, total, left)
      else (ok (if eq_ℤ ended (pos 0) then pos 0 else gen_failure), total, shut)

module _ {R S : Type 0} (rx : Regex R) (signed : Bool) (rfc : HeaderParser) (conn : Connection S)
    (can_store : Bool) (p : Preferences R) where
  -- Account :: check, with the global counter of messages.
  unfoldable pub check :
      (Text → Text → Session S → Bool × Session S)
      → Account
      → ℤ
      → Session S
      → Result ℤ × ℤ × Session S
  check login a mailbox_status s =
      let (opened, net) = conn.c_open a.serv a.the_port p.time_out_val (ident a) s.net in
      let s1 = record s { net = net } in
      let (entered, s2) = login a.user a.pass s1 in
      let (messages, s3) = status conn s2 in
      let examining = codes "Examining " ++ int_to_string messages ++ codes " message(s)." in
      let (scanned, s4) =
        scan rx signed rfc conn can_store p
          (record_event s3 (printed (message examining (pos 3)))) in
      let finished = finish conn p mailbox_status messages s4 in
      if not (eq_ℤ opened (pos 0))
      then (
        ok gen_failure,
        mailbox_status,
        complain s1 (codes "Could not establish network connection."),
      )
      else if not entered
      then (
        ok gen_failure,
        mailbox_status,
        (close_conn conn (complain s2 (codes "Server login failure."))).1,
      )
      else if ltb_ℤ messages (pos 0)
      then (
        ok gen_failure,
        mailbox_status,
        hang_up conn (complain s3 (codes "Could not determine mailbox status.")),
      )
      else elim scanned [
        | exit c m ↦ (exit c m, mailbox_status, s4)
        | throw m ↦ (throw m, mailbox_status, s4)
        | ok n ↦
            if ltb_ℤ n (pos 0)
            then (
              ok gen_failure,
              mailbox_status,
              hang_up conn (complain s4 (codes "Scanning of mail account failed.")),
            )
            else finished
      ]

-- `logout` and `c_close`, both with success, lead from the first session to the second.
abbrev pub IsLeft : {S : Type 0} → Connection S → Session S → Session S → Type 0
IsLeft conn t r =
    ((logout conn t).0 ≡ true)
    × (eq_ℤ (close_conn conn (logout conn t).1).0 (pos 0) ≡ true)
    × (r ≡ (close_conn conn (logout conn t).1).1)

-- An operation has returned a number that is not negative.
abbrev pub IsDone : Result ℤ → Type 0
IsDone r = (n : ℤ) × (r ≡ ok n) × (ltb_ℤ n (pos 0) ≡ false)

module _ {R S : Type 0} (conn : Connection S) (p : Preferences R) where
  -- Whether the mailbox is asked again behind the scan and its answer is negative.
  abbrev pub status_fails : Session S → Bool
  status_fails s = p.ret_status && ltb_ℤ (status conn s).0 (pos 0)

  -- The session in which `logout` is called.
  abbrev pub before_leaving : Session S → Session S
  before_leaving s = if p.ret_status then (status conn s).1 else s

  finish-IsLeft :
      (mailbox_status messages : ℤ) (s : Session S)
      → (finish conn p mailbox_status messages s).0 ≡ ok (pos 0)
      → (status_fails s ≡ false)
        × IsLeft conn (before_leaving s) (finish conn p mailbox_status messages s).2
  unfolding finish
  finish-IsLeft mailbox_status messages s h = elim (Bool-cases (status_fails s)) [
    | inl k ↦ absurd (ground (arith, k, h))
    | inr k ↦
        let before = before_leaving s in
        elim (Bool-cases (logout conn before).0) [
          | inr m ↦ absurd (ground (arith, k, m, h))
          | inl m ↦ elim (Bool-cases (eq_ℤ (close_conn conn (logout conn before).1).0 (pos 0))) [
            | inr n ↦ absurd (ground (arith, rw (finish, k, m, n) at h))
            | inl n ↦ (k, (m, n, rw (finish, k, m) refl))
          ]
        ]
  ]

module _ {R S : Type 0} (rx : Regex R) (signed : Bool) (rfc : HeaderParser) (conn : Connection S)
    (can_store : Bool) (p : Preferences R) (login : Text → Text → Session S → Bool × Session S)
    (a : Account) (mailbox_status : ℤ) (s : Session S) where
  abbrev pub open_result : ℤ
  open_result = (conn.c_open a.serv a.the_port p.time_out_val (ident a) s.net).0

  abbrev pub after_open : Session S
  after_open = record s { net = (conn.c_open a.serv a.the_port p.time_out_val (ident a) s.net).1 }

  abbrev pub login_result : Bool × Session S
  login_result = login a.user a.pass after_open

  abbrev pub check_result : Result ℤ × ℤ × Session S
  check_result = check rx signed rfc conn can_store p login a mailbox_status s

  pub check_not_opened :
      eq_ℤ open_result (pos 0) ≡ false
      → check_result ≡ (
        ok gen_failure,
        mailbox_status,
        complain after_open (codes "Could not establish network connection."),
      )
  unfolding check
  check_not_opened k = rw (check, k) refl

  abbrev pub before_scan : Session S
  before_scan =
      let (messages, s3) = status conn login_result.1 in
      record_event s3 (
        printed
          (message (codes "Examining " ++ int_to_string messages ++ codes " message(s).") (pos 3)))

  abbrev pub scanned : Result ℤ × Session S
  scanned = scan rx signed rfc conn can_store p before_scan

  -- What has succeeded behind the login, in this order.
  abbrev pub WorksOff : Session S → Type 0
  WorksOff last =
      IsDone scanned.0
      × (status_fails conn p scanned.1 ≡ false)
      × IsLeft conn (before_leaving conn p scanned.1) last

  check_ending :
      (ending : Result ℤ)
      → scanned.0 ≡ ending
      → not (eq_ℤ open_result (pos 0)) ≡ false
      → not login_result.0 ≡ false
      → ltb_ℤ (status conn login_result.1).0 (pos 0) ≡ false
      → check_result.0 ≡ ok (pos 0)
      → WorksOff check_result.2
  unfolding check
  check_ending (exit c m) e k l n h = absurd (ground (arith, rw (check, k, l, n, e) at h))
  check_ending (throw m) e k l n h = absurd (ground (arith, rw (check, k, l, n, e) at h))
  check_ending (ok code) e k l n h = elim (Bool-cases (ltb_ℤ code (pos 0))) [
    | inl m ↦ absurd (ground (arith, rw (check, k, l, n, e, m) at h))
    | inr m ↦
        let left =
          finish-IsLeft conn p mailbox_status (status conn login_result.1).0 scanned.1
            (rw (check, k, l, n, e, m) at h) in
        ((code, e, m), left.0, rw (check, k, l, n, e, m) left.1)
  ]

  -- If `check` returns 0, the connection was opened without an error, the login has succeeded, STAT
  -- and the scan have given numbers that are not negative, and so has the second STAT if the status
  -- is to be returned; then `logout` has returned true and `c_close` 0. The session afterwards is
  -- the one that `c_close` leaves.
  pub check_success :
      check_result.0 ≡ ok (pos 0)
      → (eq_ℤ open_result (pos 0) ≡ true)
        × (login_result.0 ≡ true)
        × (ltb_ℤ (status conn login_result.1).0 (pos 0) ≡ false)
        × WorksOff check_result.2
  unfolding check
  check_success h = elim (Bool-cases (eq_ℤ open_result (pos 0))) [
    | inr k ↦ absurd (ground (arith, rw (check, k) at h))
    | inl k ↦ elim (Bool-cases login_result.0) [
      | inr l ↦ absurd (ground (arith, rw (check, k, l) at h))
      | inl l ↦ elim (Bool-cases (ltb_ℤ (status conn login_result.1).0 (pos 0))) [
        | inl n ↦ absurd (ground (arith, rw (check, k, l, n) at h))
        | inr n ↦ (k, l, n, check_ending _ refl (rw k refl) (rw l refl) n h)
      ]
    ]
  ]
