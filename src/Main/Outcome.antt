-- ===== src/Main/Outcome.antt =====
-- What the value that `main` returns says of the accounts, and what it has checked before it uses
-- the network.
use mailfilter.Base.Int.{eq_ℤ, ℤ, pos, negsuc}
use mailfilter.Base.{
  if◌then◌else◌, ℕ, suc, Bool, true, false, none, some, List, [], ◌∷◌, ◌≡◌, Bool-cases, refl, inl,
  inr, Option, arith, ap, ◌↔◌,
}
use mailfilter.Filter.{Regex}
use mailfilter.Apop.{Md5}
use mailfilter.Pop3.{HeaderParser, Session}
use mailfilter.Main.{
  no_protocol, Sockets, Setting, check_at, querying, check_accounts, finished, Progress, skipping,
  conclude, exited, thrown, configure, main, returns,
}
use mailfilter.Preferences.{Preferences, Account, ProtocolClass}
use mailfilter.Base.Result.{exit, throw, ok, Result}
use mailfilter.Text.{Text}
use mailfilter.Preferences.Setters.{Host}
use mailfilter.Config.{Opt}

module _ {R S C : Type 0} (rx : Regex R) (md5 : Md5 C) (signed : Bool) (rfc : HeaderParser)
    (sockets : Sockets S) (can_store : Bool) (setting : Setting) (p : Preferences R) where
  -- Whether all accounts from position `n` on have a protocol and a check that returns 0.
  abbrev pub all_pass : ℕ → List Account → ℤ → Session S → Bool
  all_pass n [] status s = true
  all_pass n (a ∷ accounts) status s = elim a.proto [
    | none ↦ false
    | some (c, _) ↦
        let (result, counted, s1) =
          check_at rx md5 signed rfc sockets can_store setting p c n a status
            (querying setting a s) in
        let rest = all_pass (suc n) accounts counted s1 in
        elim result [
          | exit code text ↦ false
          | throw what ↦ false
          | ok code ↦ if eq_ℤ code (pos 0) then rest else false
        ]
  ]

  abbrev pub loop : ℕ → List Account → ℤ → ℤ → Session S → Progress × Session S
  loop = check_accounts rx md5 signed rfc sockets can_store setting p

  abbrev pub check_here : ProtocolClass → ℕ → Account → ℤ → Session S → Result ℤ × ℤ × Session S
  check_here c n a status s =
      check_at rx md5 signed rfc sockets can_store setting p c n a status (querying setting a s)

  -- The loop has the value of `return_val` it began with, or -1 if an account does not pass.
  abbrev LoopValue : ℕ → List Account → Type 0
  LoopValue n accounts =
      (return_val status v counted : ℤ) (s : Session S)
      → (loop n accounts return_val status s).0 ≡ finished v counted
      → v ≡ (if all_pass n accounts status s then return_val else negsuc 0)

  loop_steps :
      (n : ℕ) (a : Account) (accounts : List Account) (return_val status v counted : ℤ)
      (s : Session S) (c : ProtocolClass) (id : ℕ) (result : Result ℤ)
      → LoopValue (suc n) accounts
      → a.proto ≡ some (c, id)
      → (check_here c n a status s).0 ≡ result
      → (loop n (a ∷ accounts) return_val status s).0 ≡ finished v counted
      → v ≡ (if all_pass n (a ∷ accounts) status s then return_val else negsuc 0)
  unfolding check_accounts
  loop_steps n a accounts return_val status v counted s c id (exit code text) rest e k h =
      absurd (ground (arith, rw (check_accounts, e, k) at h))
  loop_steps n a accounts return_val status v counted s c id (throw what) rest e k h =
      absurd (ground (arith, rw (check_accounts, e, k) at h))
  loop_steps n a accounts return_val status v counted s c id (ok code) rest e k h =
      let (_, counted', s1) = check_here c n a status s in
      elim (Bool-cases (eq_ℤ code (pos 0))) [
        | inl m ↦
            rw (e, k, m) (rest return_val counted' v counted s1 (rw (check_accounts, e, k, m) at h))
        | inr m ↦
            let last =
              rest (negsuc 0) counted' v counted (skipping a s1)
                (rw (check_accounts, e, k, m) at h) in
            rw (e, k, m) (ground (arith, last))
      ]

  loop_goes_on :
      (n : ℕ) (a : Account) (accounts : List Account) (return_val status v counted : ℤ)
      (s : Session S) (proto : Option (ProtocolClass × ℕ))
      → LoopValue (suc n) accounts
      → a.proto ≡ proto
      → (loop n (a ∷ accounts) return_val status s).0 ≡ finished v counted
      → v ≡ (if all_pass n (a ∷ accounts) status s then return_val else negsuc 0)
  unfolding check_accounts
  loop_goes_on n a accounts return_val status v counted s none rest e h =
      absurd (ground (arith, rw (check_accounts, e) at h))
  loop_goes_on n a accounts return_val status v counted s (some (c, id)) rest e h =
      loop_steps n a accounts return_val status v counted s c id _ rest e refl h

  loop_ends : (n : ℕ) (accounts : List Account) → LoopValue n accounts
  unfolding check_accounts
  loop_ends n [] return_val status v counted s h = cc
  loop_ends n (a ∷ accounts) return_val status v counted s h =
      loop_goes_on n a accounts return_val status v counted s _ (loop_ends (suc n) accounts) refl h

  -- If every account passes, the loop gets to its end.
  abbrev LoopFinishes : ℕ → List Account → Type 0
  LoopFinishes n accounts =
      (return_val status : ℤ) (s : Session S)
      → all_pass n accounts status s ≡ true
      → (counted : ℤ) × ((loop n accounts return_val status s).0 ≡ finished return_val counted)

  passes_on :
      (n : ℕ) (a : Account) (accounts : List Account) (return_val status : ℤ) (s : Session S)
      (c : ProtocolClass) (id : ℕ) (result : Result ℤ)
      → LoopFinishes (suc n) accounts
      → a.proto ≡ some (c, id)
      → (check_here c n a status s).0 ≡ result
      → all_pass n (a ∷ accounts) status s ≡ true
      → (counted : ℤ) × ((loop n (a ∷ accounts) return_val status s).0
          ≡ finished return_val counted)
  unfolding check_accounts
  passes_on n a accounts return_val status s c id (exit code text) rest e k h =
      absurd (ground (arith, rw (e, k) at h))
  passes_on n a accounts return_val status s c id (throw what) rest e k h =
      absurd (ground (arith, rw (e, k) at h))
  passes_on n a accounts return_val status s c id (ok code) rest e k h =
      let (_, counted', s1) = check_here c n a status s in
      elim (Bool-cases (eq_ℤ code (pos 0))) [
        | inl m ↦ rw (check_accounts, e, k, m) (rest return_val counted' s1 (rw (e, k, m) at h))
        | inr m ↦ absurd (ground (arith, rw (e, k, m) at h))
      ]

  loop_passes_on :
      (n : ℕ) (a : Account) (accounts : List Account) (return_val status : ℤ) (s : Session S)
      (proto : Option (ProtocolClass × ℕ))
      → LoopFinishes (suc n) accounts
      → a.proto ≡ proto
      → all_pass n (a ∷ accounts) status s ≡ true
      → (counted : ℤ) × ((loop n (a ∷ accounts) return_val status s).0
          ≡ finished return_val counted)
  loop_passes_on n a accounts return_val status s none rest e h =
      absurd (ground (arith, rw (e) at h))
  loop_passes_on n a accounts return_val status s (some (c, id)) rest e h =
      passes_on n a accounts return_val status s c id _ rest e refl h

  loop_finishes : (n : ℕ) (accounts : List Account) → LoopFinishes n accounts
  unfolding check_accounts
  loop_finishes n [] return_val status s h = (status, refl)
  loop_finishes n (a ∷ accounts) return_val status s h =
      loop_passes_on n a accounts return_val status s _ (loop_finishes (suc n) accounts) refl h

module _ {R : Type 0} {S : Type 0} where
  conclude_finished :
      (p : Preferences R) (progress : Progress) (s : Session S) (v : ℤ)
      → p.ret_status ≡ false
      → (conclude p (progress, s)).0 ≡ returns v
      → (counted : ℤ) × (progress ≡ finished v counted)
  unfolding conclude
  conclude_finished p (finished return_val status) s v k h =
      (status, ap (λ x. finished x status) (ground (arith, k, h)))
  conclude_finished p (exited code text) s v k h = cc
  conclude_finished p (thrown what) s v k h = cc
  conclude_finished p no_protocol s v k h = cc

  conclude_returns :
      (p : Preferences R) (progress : Progress) (s : Session S) (v counted : ℤ)
      → p.ret_status ≡ false
      → progress ≡ finished v counted
      → (conclude p (progress, s)).0 ≡ returns v
  unfolding conclude
  conclude_returns p progress s v counted k e = rw (e, conclude, k) refl

module _ {R S C : Type 0} (rx : Regex R) (md5 : Md5 C) (signed : Bool) (rfc : HeaderParser)
    (sockets : Sockets S) (can_store : Bool) (host : Host) (setting : Setting) (argv0 : Text)
    (argv : List Opt) (p : Preferences R) (s : Session S) where
  -- If the configuration is accepted without `--return-value`, and `main` returns behind its loop,
  -- it returns 0 if each account has a protocol and is checked with the result 0, and -1 otherwise.
  pub main_return :
      (v : ℤ)
      → configure rx host setting argv0 argv ≡ ok p
      → p.ret_status ≡ false
      → (main rx md5 signed rfc sockets can_store host setting argv0 argv s).0 ≡ returns v
      → v ≡ (
          if all_pass rx md5 signed rfc sockets can_store setting p 0 p.accnts (pos 0) s
          then pos 0
          else negsuc 0)
  unfolding main
  main_return v e k h =
      let (counted, f) = conclude_finished p _ _ v k (rw (main, e) at h) in
      loop_ends rx md5 signed rfc sockets can_store setting p 0 p.accnts (pos 0) (pos 0) v counted s
        f

  -- If the configuration is accepted without `--return-value`, `main` returns 0 exactly if each
  -- account has a protocol and is checked with the result 0.
  pub main_zero_iff :
      configure rx host setting argv0 argv ≡ ok p
      → p.ret_status ≡ false
      → ((main rx md5 signed rfc sockets can_store host setting argv0 argv s).0 ≡ returns (pos 0))
        ↔ (all_pass rx md5 signed rfc sockets can_store setting p 0 p.accnts (pos 0) s ≡ true)
  unfolding main
  main_zero_iff e k = (
    λ h. ground (
      arith,
      main_return (pos 0) e k h,
      Bool-cases (all_pass rx md5 signed rfc sockets can_store setting p 0 p.accnts (pos 0) s),
    ),
    λ h.
        let (counted, f) =
          loop_finishes rx md5 signed rfc sockets can_store setting p 0 p.accnts (pos 0) (pos 0) s
            h in
        rw (main, e) (conclude_returns p _ _ (pos 0) counted k f),
  )
