-- ===== src/Main/Unreachable.antt =====
-- `main` where no server can be reached: what it returns, with and without `--return-value`.
use mailfilter.Base.Int.{eq_ℤ, ℤ, pos, negsuc}
use mailfilter.Base.{
  All, if◌then◌else◌, ℕ, ◌≡◌, refl, Bool, false, some, List, [], ◌∷◌, suc, Bool-cases, ap, ◌∙◌,
  arith, true,
}
use mailfilter.Text.{Text}
use mailfilter.Filter.{Regex}
use mailfilter.Main.{
  Sockets, Setting, check_accounts, main, finished, conclude, configure, returns, querying,
  proto_login,
}
use mailfilter.Preferences.{Account, ProtocolClass, Preferences}
use mailfilter.Apop.{Md5}
use mailfilter.Pop3.{HeaderParser, Session}
use mailfilter.Preferences.Setters.{Host}
use mailfilter.Config.{Opt}
use mailfilter.AccountCheck.{ident, check_not_opened}
use mailfilter.Base.Result.{ok}

abbrev pub is_empty : List Account → Bool
is_empty [] = true
is_empty (a ∷ accounts) = false

-- Every account has a protocol.
abbrev pub AllHaveProtocol : List Account → Type 0
AllHaveProtocol = All (λ a. (c : ProtocolClass) × (id : ℕ) × (a.proto ≡ some (c, id)))

-- No connection can be opened, in any state.
abbrev pub Unreachable : {S : Type 0} → Sockets S → Type 0
Unreachable {S = S} sockets =
    (n : ℕ) (host : Text) (port time_out protocol : ℕ) (net : S)
    → eq_ℤ ((sockets n).c_open host port time_out protocol net).0 (pos 0) ≡ false

if-same : (b : Bool) → (if b then negsuc 0 else negsuc 0) ≡ negsuc 0
if-same b = ground (arith, Bool-cases b)

module _ {R S C : Type 0} (rx : Regex R) (md5 : Md5 C) (signed : Bool) (rfc : HeaderParser)
    (sockets : Sockets S) (can_store : Bool) (setting : Setting) (p : Preferences R)
    (unreachable : Unreachable sockets) where
  loop_unreachable :
      (n : ℕ) (accounts : List Account) (return_val status : ℤ) (s : Session S)
      → AllHaveProtocol accounts
      → (check_accounts rx md5 signed rfc sockets can_store setting p n accounts return_val status
          s).0
        ≡ finished (if is_empty accounts then return_val else negsuc 0) status
  unfolding check_accounts
  loop_unreachable n [] return_val status s h = refl
  loop_unreachable n (a ∷ accounts) return_val status s ((c, id, e), rest) =
      let s1 = querying setting a s in
      let opened = unreachable n a.serv a.the_port p.time_out_val (ident a) s1.net in
      let stopped =
        check_not_opened rx signed rfc (sockets n) can_store p (proto_login md5 c (sockets n)) a
          status s1 opened in
      let again = loop_unreachable (suc n) accounts (negsuc 0) status _ rest in
      rw (check_accounts, e, stopped)
        (rw (stopped) (again ∙ ap (λ v. finished v status) (if-same (is_empty accounts))))

module _ {R S C : Type 0} (rx : Regex R) (md5 : Md5 C) (signed : Bool) (rfc : HeaderParser)
    (sockets : Sockets S) (can_store : Bool) (host : Host) (setting : Setting) (argv0 : Text)
    (argv : List Opt) (p : Preferences R) (s : Session S) where
  -- If the configuration is accepted, with a protocol for each account, and no server can be reached,
  -- `main` returns 0 with `--return-value`, and without it -1, or 0 if there are no accounts.
  pub main_no_server :
      configure rx host setting argv0 argv ≡ ok p
      → AllHaveProtocol p.accnts
      → Unreachable sockets
      → (main rx md5 signed rfc sockets can_store host setting argv0 argv s).0
        ≡ returns (if p.ret_status then pos 0 else if is_empty p.accnts then pos 0 else negsuc 0)
  unfolding main conclude
  main_no_server e h unreachable =
      rw
        (
          main,
          e,
          conclude,
          loop_unreachable rx md5 signed rfc sockets can_store setting p unreachable 0 p.accnts
              (pos 0) (pos 0) s h,
        )
        refl
