-- ===== src/Config/Strings/Shell.antt =====
-- What a shell command in a string of the configuration file stands for.
use mailfilter.Base.{
  length, all, ltb, ◌==◌, ℕ, zero, suc, ◌<◌, ◌≡◌, refl, true, false, not, ◌&&◌, some, [], ◌∷◌, ◌++◌,
  arith, if◌then◌else◌, Bool-cases, inl, inr,
}
use mailfilter.Base.Result.{die, ok, Result, exit, throw}
use mailfilter.Text.{Text, codes, until_nul}
use mailfilter.Config.Strings.{without_newline, fgets, unsnoc, Popen, exec_shell}

-- A text without line feed and NUL.
abbrev pub IsLine : Text → Type 0
IsLine line = all (λ c. not (c == 10) && not (c == 0)) line ≡ true

fgets_short :
    (n : ℕ) (line rest : Text)
    → IsLine line
    → length line < n
    → fgets n (line ++ 10 ∷ rest) ≡ line ++ 10 ∷ []
unfolding fgets
fgets_short zero line rest h k = absurd (omega (arith, k))
fgets_short (suc n) [] rest h k = refl
fgets_short (suc n) (c ∷ line) rest h k = ground (arith, h, k, fgets_short n line rest)

-- A line that is too long for the buffer is cut, and what is read has no line feed.
fgets_long :
    (n : ℕ) (line rest : Text)
    → IsLine line
    → ltb (length line) n ≡ false
    → IsLine (fgets n (line ++ rest))
unfolding fgets
fgets_long zero line rest h k = refl
fgets_long (suc n) [] rest h k = absurd (ground (arith, k))
fgets_long (suc n) (c ∷ line) rest h k = ground (arith, h, k, fgets_long n line rest)

until_nul-IsLine : (line : Text) → IsLine line → until_nul line ≡ line
until_nul-IsLine [] h = refl
until_nul-IsLine (c ∷ line) h = ground (arith, h, until_nul-IsLine line)

until_nul_fed : (line : Text) → IsLine line → until_nul (line ++ 10 ∷ []) ≡ line ++ 10 ∷ []
until_nul_fed [] h = refl
until_nul_fed (c ∷ line) h = ground (arith, h, until_nul_fed line)

unsnoc_last : (c : ℕ) (line : Text) (d : ℕ) → unsnoc c (line ++ d ∷ []) ≡ (c ∷ line, d)
unsnoc_last c [] d = refl
unsnoc_last c (e ∷ line) d = ground (arith, unsnoc_last e line d)

without_newline_fed : (line : Text) → without_newline (line ++ 10 ∷ []) ≡ some (ok (line ++ 0 ∷ []))
unfolding without_newline
without_newline_fed [] = refl
without_newline_fed (c ∷ line) = rw (unsnoc_last c line 10) refl

unsnoc-IsLine : (c : ℕ) (line : Text) → IsLine (c ∷ line) → ((unsnoc c line).1 == 10) ≡ false
unsnoc-IsLine c [] h = ground (arith, h)
unsnoc-IsLine c (d ∷ line) h = unsnoc-IsLine d line (ground (arith, h))

without_newline_cut :
    (c : ℕ) (line : Text)
    → IsLine (c ∷ line)
    → without_newline (c ∷ line) ≡ some (die (codes "popen failed."))
unfolding without_newline
without_newline_cut c line h = rw (unsnoc-IsLine c line h) refl

fgets_starts : (n c : ℕ) (s : Text) → (c == 10) ≡ false → fgets (suc n) (c ∷ s) ≡ c ∷ fgets n s
unfolding fgets
fgets_starts n c s h = rw h refl

-- What stands in the buffer when the output begins with a line.
buffer_short :
    (line rest : Text)
    → IsLine line
    → length line < 255
    → without_newline (until_nul (fgets 255 (line ++ 10 ∷ rest))) ≡ some (ok (line ++ 0 ∷ []))
buffer_short line rest h k =
    rw (fgets_short 255 line rest h k, until_nul_fed line h) (without_newline_fed line)

buffer_long :
    (line rest : Text)
    → IsLine line
    → ltb (length line) 255 ≡ false
    → without_newline (until_nul (fgets 255 (line ++ rest))) ≡ some (die (codes "popen failed."))
buffer_long [] rest h k = absurd (ground (arith, k))
buffer_long (c ∷ line) rest h k =
    let cut = fgets_long 255 (c ∷ line) rest h k in
    let starts = fgets_starts 254 c (line ++ rest) (ground (arith, h)) in
    rw (until_nul-IsLine (fgets 255 (c ∷ line ++ rest)) cut, starts)
      (without_newline_cut c (fgets 254 (line ++ rest)) (rw starts at cut))

module _ {W : Type 0} (sh : Popen W) where
  -- The state when the output has been read, and what `pclose` answers then.
  abbrev pub after_popen : Text → W → W
  after_popen command w = (sh.popen command w).1

  exec_shell_ending :
      (command : Text) (c : ℕ) (out : Text) (w : W) (ending : Result Text)
      → (sh.popen command w).0 ≡ some (c ∷ out)
      → (sh.pclose (after_popen command w)).0 ≡ true
      → without_newline (until_nul (fgets 255 (c ∷ out))) ≡ some ending
      → (exec_shell sh command w).0 ≡ some ending
  unfolding exec_shell
  exec_shell_ending command c out w (ok t) output closed e = rw (exec_shell, output, e, closed) refl
  exec_shell_ending command c out w (exit status text) output closed e =
      rw (exec_shell, output, e) refl
  exec_shell_ending command c out w (throw what) output closed e = rw (exec_shell, output, e) refl

  exec_shell_short :
      (command line rest : Text) (w : W)
      → (sh.popen command w).0 ≡ some (line ++ 10 ∷ rest)
      → (sh.pclose (after_popen command w)).0 ≡ true
      → (ending : Result Text)
      → without_newline (until_nul (fgets 255 (line ++ 10 ∷ rest))) ≡ some ending
      → (exec_shell sh command w).0 ≡ some ending
  exec_shell_short command [] rest w output closed ending e =
      exec_shell_ending command 10 rest w ending output closed e
  exec_shell_short command (c ∷ line) rest w output closed ending e =
      exec_shell_ending command c (line ++ 10 ∷ rest) w ending output closed e

  exec_shell_closes :
      (command : Text) (c : ℕ) (out : Text) (w : W) (t : Text)
      → (sh.popen command w).0 ≡ some (c ∷ out)
      → (sh.pclose (after_popen command w)).0 ≡ true
      → without_newline (until_nul (fgets 255 (c ∷ out))) ≡ some (ok t)
      → (exec_shell sh command w).1 ≡ (sh.pclose (after_popen command w)).1
  unfolding exec_shell
  exec_shell_closes command c out w t output closed e = rw (exec_shell, output, e, closed) refl

  pub exec_shell_left :
      (command line rest : Text) (w : W)
      → IsLine line
      → (sh.popen command w).0 ≡ some (line ++ 10 ∷ rest)
      → (sh.pclose (after_popen command w)).0 ≡ true
      → length line < 255
      → (exec_shell sh command w).1 ≡ (sh.pclose (after_popen command w)).1
  exec_shell_left command [] rest w h output closed k =
      exec_shell_closes command 10 rest w (0 ∷ []) output closed (buffer_short [] rest h k)
  exec_shell_left command (c ∷ line) rest w h output closed k =
      exec_shell_closes command c (line ++ 10 ∷ rest) w (c ∷ line ++ 0 ∷ []) output closed
        (buffer_short (c ∷ line) rest h k)

  -- If the output of a command begins with a line, without NUL, and `pclose` succeeds, `exec_shell`
  -- returns the line with a NUL in place of its line feed, provided that it has less than 255 bytes
  -- before it; with a longer line the program leaves with the code -1.
  pub exec_shell_lem :
      (command line rest : Text) (w : W)
      → IsLine line
      → (sh.popen command w).0 ≡ some (line ++ 10 ∷ rest)
      → (sh.pclose (after_popen command w)).0 ≡ true
      → (exec_shell sh command w).0
        ≡ some (if ltb (length line) 255 then ok (line ++ 0 ∷ []) else die (codes "popen failed."))
  exec_shell_lem command line rest w h output closed = elim (Bool-cases (ltb (length line) 255)) [
    | inl k ↦ rw k (
        exec_shell_short command line rest w output closed (ok (line ++ 0 ∷ []))
          (buffer_short line rest h (ground (arith, k))))
    | inr k ↦ rw k (
        exec_shell_short command line rest w output closed (die (codes "popen failed."))
          (buffer_long line (10 ∷ rest) h k))
  ]
