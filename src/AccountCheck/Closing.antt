-- ===== src/AccountCheck/Closing.antt =====
-- How `check` leaves the connection.
use mailfilter.Base.Int.{ltb_ℤ, eq_ℤ, ℤ, pos}
use mailfilter.Base.Result.{Result, ok, exit, throw}
use mailfilter.Base.{
  if◌then◌else◌, Bool-cases, ◌≡◌, refl, ◌⊎◌, inl, inr, Bool, true, false, ◌&&◌, List, [], ◌∷◌, ◌++◌,
  not, arith,
}
use mailfilter.Text.{Text, codes}
use mailfilter.Pop3.{
  Event, Connection, closed, Session, HeaderParser, logout, status, printed, scan,
}
use mailfilter.Filter.{Regex}
use mailfilter.AccountCheck.{
  hang_up, finish, check_result, check, login_result, open_result, before_scan,
}
use mailfilter.Preferences.{Preferences, Account}
use mailfilter.Feedback.{error}

abbrev pub EndsClosed : List Event → Type 0
EndsClosed es = (before : List Event) × (es ≡ before ++ closed ∷ [])

module _ {S : Type 0} (conn : Connection S) where
  -- `logout` returned false, since `c_write` gave -1 for QUIT, and nothing has happened since.
  abbrev pub EndsQuit : Session S → Type 0
  EndsQuit s = (t : Session S) × ((logout conn t).0 ≡ false) × (s ≡ (logout conn t).1)

  hang_up-EndsClosed : (s : Session S) → EndsClosed (hang_up conn s).events
  unfolding hang_up
  hang_up-EndsClosed s = ((logout conn s).1.events, refl)

module _ {R S : Type 0} (conn : Connection S) (p : Preferences R) where
  finish-closes :
      (mailbox_status messages : ℤ) (s : Session S)
      → EndsClosed (finish conn p mailbox_status messages s).2.events
        ⊎ EndsQuit conn (finish conn p mailbox_status messages s).2
  unfolding finish
  finish-closes mailbox_status messages s =
      elim (Bool-cases (p.ret_status && ltb_ℤ (status conn s).0 (pos 0))) [
        | inl k ↦ inl (rw k (hang_up-EndsClosed conn _))
        | inr k ↦
            let before = if p.ret_status then (status conn s).1 else s in
            elim (Bool-cases (logout conn before).0) [
              | inl m ↦ inl (rw (k, m) ((logout conn before).1.events, refl))
              | inr m ↦ inr (rw (k, m) (before, m, refl))
            ]
      ]

module _ {R S : Type 0} (rx : Regex R) (signed : Bool) (rfc : HeaderParser) (conn : Connection S)
    (can_store : Bool) (p : Preferences R) (login : Text → Text → Session S → Bool × Session S)
    (a : Account) (mailbox_status : ℤ) (s : Session S) where
  abbrev checked : Result ℤ × ℤ × Session S
  checked = check_result rx signed rfc conn can_store p login a mailbox_status s

  abbrev first : ℤ
  first = open_result rx signed rfc conn can_store p login a mailbox_status s

  abbrev entry : Bool × Session S
  entry = login_result rx signed rfc conn can_store p login a mailbox_status s

  abbrev Closes : Type 0
  Closes = EndsClosed checked.2.events ⊎ EndsQuit conn checked.2

  check_closes_ending :
      (ending : Result ℤ) (code : ℤ)
      → (scan rx signed rfc conn can_store p
          (before_scan rx signed rfc conn can_store p login a mailbox_status s)).0
        ≡ ending
      → not (eq_ℤ first (pos 0)) ≡ false
      → not entry.0 ≡ false
      → ltb_ℤ (status conn entry.1).0 (pos 0) ≡ false
      → checked.0 ≡ ok code
      → Closes
  unfolding check
  check_closes_ending (exit c m) code e k l n h =
      absurd (ground (arith, rw (check, k, l, n, e) at h))
  check_closes_ending (throw m) code e k l n h =
      absurd (ground (arith, rw (check, k, l, n, e) at h))
  check_closes_ending (ok found) code e k l n h = elim (Bool-cases (ltb_ℤ found (pos 0))) [
    | inl m ↦ inl (rw (check, k, l, n, e, m) (hang_up-EndsClosed conn _))
    | inr m ↦
        rw (check, k, l, n, e, m)
          (finish-closes conn p mailbox_status (status conn entry.1).0
            (scan rx signed rfc conn can_store p
              (before_scan rx signed rfc conn can_store p login a mailbox_status s)).1)
  ]

  -- If `check` returns, having opened the connection, then the last that has happened is that the
  -- connection was closed, or else that QUIT failed: then the connection stays open.
  pub check_closes :
      (code : ℤ)
      → eq_ℤ (open_result rx signed rfc conn can_store p login a mailbox_status s) (pos 0) ≡ true
      → (check_result rx signed rfc conn can_store p login a mailbox_status s).0 ≡ ok code
      → EndsClosed (check_result rx signed rfc conn can_store p login a mailbox_status s).2.events
        ⊎ EndsQuit conn (check_result rx signed rfc conn can_store p login a mailbox_status s).2
  unfolding check
  check_closes code opened h = elim (Bool-cases entry.0) [
    | inr l ↦ inl (
        rw (check, opened, l)
          (entry.1.events ++ printed (error (codes "Server login failure.") (pos 1)) ∷ [], refl))
    | inl l ↦ elim (Bool-cases (ltb_ℤ (status conn entry.1).0 (pos 0))) [
      | inl n ↦ inl (rw (check, opened, l, n) (hang_up-EndsClosed conn _))
      | inr n ↦ check_closes_ending _ code refl (rw opened refl) (rw l refl) n h
    ]
  ]
