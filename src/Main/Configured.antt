-- ===== src/Main/Configured.antt =====
-- What `main` has checked before it uses the network.
use mailfilter.Base.{
  ◌==◌, Bool-cases, ◌≡◌, true, ◌&&◌, List, arith, refl, ◌≢◌, inl, inr, Bool, false,
}
use mailfilter.Text.{Text}
use mailfilter.Filter.{Regex}
use mailfilter.Preferences.Setters.{Host, open_prefs}
use mailfilter.Main.{
  Setting, prepare, open_log, load, read_config, loaded, caught, configure, Sockets, main,
}
use mailfilter.Config.{Opt, get_opts}
use mailfilter.Preferences.{Preferences, new_preferences}
use mailfilter.Base.Result.{ok, returned, Result, exit, throw}
use mailfilter.Precompile.{
  all_accepted, precompile_expressions-zero_iff, precompile_expressions, all_scores_accepted,
}
use mailfilter.Apop.{Md5}
use mailfilter.Pop3.{HeaderParser, Session}

module _ {R : Type 0} (rx : Regex R) (host : Host) (setting : Setting) where
  -- The settings `q` that the configuration file leaves can be used: the log file opens, the handler
  -- for SIGINT is installed, and every expression compiles.
  abbrev pub Usable : Preferences R → Type 0
  Usable q =
      (open_log setting q.log_file_name ≡ true)
      × (setting.handler_set ≡ true)
      × (all_accepted rx q.rreg_type q.allows
            && all_accepted rx q.rreg_type q.denies
            && all_scores_accepted rx q.rreg_type q.scores
          ≡ true)

  -- The options are accepted, a file opens, and it is accepted, with settings that can be used.
  abbrev pub Configured : Text → List Opt → Type 0
  Configured argv0 argv =
      (p : Preferences R) × (q : Preferences R) × (get_opts host argv0 new_preferences argv ≡ ok p)
      × ((open_prefs host p p.prefs_file_name).0 ≡ true)
      × (load rx host setting (open_prefs host p p.prefs_file_name).1 ≡ ok (true, q))
      × Usable q

  prepare-Usable : (q r : Preferences R) → prepare rx host setting q ≡ ok r → Usable q
  unfolding prepare
  prepare-Usable q r h =
      let accepted = precompile_expressions-zero_iff rx q in
      ground (
        arith,
        accepted,
        Bool-cases (open_log setting q.log_file_name),
        Bool-cases setting.handler_set,
        Bool-cases ((precompile_expressions rx q).0 == 0),
      )

  caught-ok {ℓ} : {A : Type ℓ} (call : Result A) (x : A) → caught call ≡ ok x → call ≡ ok x
  caught-ok (ok y) x h = h
  caught-ok (exit status text) x h = cc
  caught-ok (throw what) x h = absurd (ground (arith, h))

  loaded-Usable :
      (b : Bool) (q r : Preferences R)
      → loaded rx host setting (b, q) ≡ ok r
      → (b ≡ true) × Usable q
  loaded-Usable true q r h = (refl, prepare-Usable q r h)
  loaded-Usable false q r h = absurd (ground (arith, h))

  read_config-Usable :
      (p r : Preferences R)
      → read_config rx host setting p ≡ ok r
      → ((open_prefs host p p.prefs_file_name).0 ≡ true)
        × (q : Preferences R) × (load rx host setting (open_prefs host p p.prefs_file_name).1
            ≡ ok (true, q))
        × Usable q
  unfolding read_config
  read_config-Usable p r h = elim (Bool-cases (open_prefs host p p.prefs_file_name).0) [
    | inr k ↦ absurd (ground (arith, rw (read_config, k) at h))
    | inl k ↦
        let o = (open_prefs host p p.prefs_file_name).1 in
        let ((b, q), first, rest) =
          returned (caught (load rx host setting o)) (loaded rx host setting)
            (rw (read_config, k) at h) in
        let (accepted, usable) = loaded-Usable b q r rest in
        (k, q, rw⁻¹ (accepted) (caught-ok (load rx host setting o) (b, q) first), usable)
  ]

  configure-Configured :
      (argv0 : Text) (argv : List Opt) (r : Preferences R)
      → configure rx host setting argv0 argv ≡ ok r
      → Configured argv0 argv
  unfolding configure
  configure-Configured argv0 argv r h =
      let (p, first, rest) =
        returned (get_opts host argv0 new_preferences argv) (read_config rx host setting) h in
      let (opened, q, known, usable) = read_config-Usable p r rest in
      (p, q, first, opened, known, usable)

module _ {R S C : Type 0} (rx : Regex R) (md5 : Md5 C) (signed : Bool) (rfc : HeaderParser)
    (sockets : Sockets S) (can_store : Bool) (host : Host) (setting : Setting) (argv0 : Text)
    (argv : List Opt) (s : Session S) where
  main_ending :
      (start : Result (Preferences R))
      → configure rx host setting argv0 argv ≡ start
      → ((main rx md5 signed rfc sockets can_store host setting argv0 argv s).1 ≢ s)
      → Configured rx host setting argv0 argv
  unfolding main
  main_ending (ok r) e changed = configure-Configured rx host setting argv0 argv r e
  main_ending (exit status text) e changed = absurd (changed (rw (main, e) refl))
  main_ending (throw what) e changed = absurd (changed (rw (main, e) refl))

  -- `main` changes nothing of the network and prints nothing through the logger unless its options
  -- are accepted, a configuration file opens and is accepted, the log file opens, the handler for
  -- SIGINT is installed, and `regcomp` accepts the expression of every rule.
  pub main_changes :
      ((main rx md5 signed rfc sockets can_store host setting argv0 argv s).1 ≢ s)
      → Configured rx host setting argv0 argv
  main_changes changed = main_ending _ refl changed
