-- ===== src/Config/Strings/Parts.antt =====
-- What a string of the configuration file stands for: the concatenation of what its parts do.
use mailfilter.Base.{
  length, ℕ, suc, ◌≡◌, refl, [], ◌∷◌, ◌++◌, ◌+◌, ◌-◌, ap, ◌∙◌, arith, length-append, all, ◌==◌,
  true, not, ◌<◌, false, some, List, ltb, sym, append-nil, append_assoc,
}
use mailfilter.Text.{Text, until_nul}
use mailfilter.Config.Strings.{
  strip_loop, store, strip_shell, Popen, Exp, exps, exp, env_var, text_id, ctrl_char, shell_cmd,
  exec_shell,
}
use mailfilter.Header.{byte, byte-append}
use mailfilter.Base.Result.{ok}
use mailfilter.Config.Strings.Shell.{exec_shell_lem, exec_shell_left, IsLine, after_popen}

store_here : (p : Text) (c x : ℕ) (s : Text) → store (length p) c (p ++ x ∷ s) ≡ p ++ c ∷ s
store_here [] c x s = refl
store_here (d ∷ p) c x s = rw (store_here p c x s) refl

store_next :
    (p : Text) (c x y : ℕ) (s : Text) → store (suc (length p)) c (p ++ x ∷ y ∷ s) ≡ p ++ x ∷ c ∷ s
store_next [] c x y s = refl
store_next (d ∷ p) c x y s = rw (store_next p c x y s) refl

snoc-append : (p : Text) (c : ℕ) (s : Text) → (p ++ c ∷ []) ++ s ≡ p ++ c ∷ s
snoc-append [] c s = refl
snoc-append (d ∷ p) c s = rw (snoc-append p c s) refl

-- One round of the loop, which copies `d` one place to the left.
strip_round :
    (x d : ℕ) (p pre s rest : Text)
    → length pre ≡ suc (length p)
    → store
        (suc (length p))
        0
        (store (suc (length p) - 1) (byte (pre ++ d ∷ s) (suc (length p))) (p ++ x ∷ d ∷ rest))
      ≡ p ++ d ∷ 0 ∷ rest
strip_round x d p pre s rest place =
    let here : suc (length p) ≡ length pre + 0 = omega (arith, place) in
    let at_d : byte (pre ++ d ∷ s) (suc (length p)) ≡ d =
      ap (byte (pre ++ d ∷ s)) here ∙ byte-append pre (d ∷ s) 0 in
    let before : suc (length p) - 1 ≡ length p = omega arith in
    rw (at_d, before, store_here p d x (d ∷ rest)) (store_next p 0 d d rest)

-- From the place behind `p` on, the loop copies the bytes of `body` one place to the left.
strip_loop_lem :
    (x d b : ℕ) (p pre body : Text)
    → length pre ≡ suc (length p)
    → strip_loop
        (suc (length body))
        (pre ++ d ∷ (body ++ b ∷ []))
        (suc (length p))
        (p ++ x ∷ d ∷ (body ++ b ∷ []))
      ≡ p ++ d ∷ (body ++ 0 ∷ b ∷ [])
unfolding strip_loop
strip_loop_lem x d b p pre [] place = strip_round x d p pre (b ∷ []) (b ∷ []) place
strip_loop_lem x d b p pre (e ∷ body) place =
    let q = p ++ d ∷ [] in
    let before = pre ++ d ∷ [] in
    let longer : length before ≡ suc (length q) =
      omega (arith, place, length-append p (d ∷ []), length-append pre (d ∷ [])) in
    let count : suc (length q) ≡ suc (suc (length p)) = omega (arith, length-append p (d ∷ [])) in
    let again = strip_loop_lem 0 e b q before body longer in
    let buf = pre ++ d ∷ e ∷ (body ++ b ∷ []) in
    let round = strip_round x d p pre (e ∷ (body ++ b ∷ [])) (e ∷ (body ++ b ∷ [])) place in
    let rest : strip_loop (suc (length body)) buf (suc (suc (length p)))
          (p ++ d ∷ 0 ∷ e ∷ (body ++ b ∷ []))
        ≡ p ++ d ∷ e ∷ (body ++ 0 ∷ b ∷ []) =
      rw
        (
          snoc-append p d (0 ∷ e ∷ (body ++ b ∷ [])),
          snoc-append pre d (e ∷ (body ++ b ∷ [])),
          snoc-append p d (e ∷ (body ++ 0 ∷ b ∷ [])),
          count,
        )
        at again in
    ap (strip_loop (suc (length body)) buf (suc (suc (length p)))) round ∙ rest

until_nul_end : (s rest : Text) → all (λ c. not (c == 0)) s ≡ true → until_nul (s ++ 0 ∷ rest) ≡ s
until_nul_end [] rest h = refl
until_nul_end (c ∷ s) rest h = ground (arith, h, until_nul_end s rest)

-- `strip_shell` leaves what stands between the first and the last byte, if that is not empty and has
-- no NUL.
pub strip_shell_lem :
    (a b d : ℕ) (body : Text)
    → all (λ c. not (c == 0)) (d ∷ body) ≡ true
    → until_nul (strip_shell (a ∷ d ∷ (body ++ b ∷ []))) ≡ d ∷ body
unfolding strip_shell
strip_shell_lem a b d body h =
    let rounds : length (a ∷ d ∷ (body ++ b ∷ [])) - 2 ≡ suc (length body) =
      omega (arith, length-append body (b ∷ [])) in
    rw (rounds, strip_loop_lem a d b [] (a ∷ []) body refl) (until_nul_end (d ∷ body) (b ∷ []) h)

-- A text without NUL that is not empty.
abbrev pub IsCommand : Text → Type 0
IsCommand s = (length s == 0 ≡ false) × (all (λ c. not (c == 0)) s ≡ true)

IsLine-clean : (s : Text) → IsLine s → all (λ c. not (c == 0)) s ≡ true
IsLine-clean [] h = refl
IsLine-clean (c ∷ s) h = ground (arith, h, IsLine-clean s)

module _ {W : Type 0} (sh : Popen W) where
  -- In the state `w`, a part stands for a text and leaves a state: a command between two quotation
  -- marks for the first line of its output, which must have less than 255 bytes, and any other part
  -- for itself.
  pub data Yields (w : W) : Exp → Text → W → Type 0 where
    variable : (s : Text) → Yields w (env_var s) s w
    word : (s : Text) → Yields w (text_id s) s w
    sign : (s : Text) → Yields w (ctrl_char s) s w
    command :
        (a b : ℕ) (body line rest : Text)
        → IsCommand body
        → IsLine line
        → (sh.popen body w).0 ≡ some (line ++ 10 ∷ rest)
        → (sh.pclose (after_popen sh body w)).0 ≡ true
        → length line < 255
        → Yields w (shell_cmd (a ∷ (body ++ b ∷ []))) line (sh.pclose (after_popen sh body w)).1

  -- The parts of a string, one after the other.
  pub data AllYield : W → List Exp → Text → W → Type 0 where
    no_part : {w : W} → AllYield w [] [] w
    part :
        {w w1 w2 : W} {e : Exp} {es : List Exp} {t u : Text}
        → Yields w e t w1
        → AllYield w1 es u w2
        → AllYield w (e ∷ es) (t ++ u) w2

  exp-Yields : (w w1 : W) (e : Exp) (t : Text) → Yields w e t w1 → exp sh e w ≡ (some (ok t), w1)
  unfolding exp
  exp-Yields w w1 e t (variable s) = refl
  exp-Yields w w1 e t (word s) = refl
  exp-Yields w w1 e t (sign s) = refl
  exp-Yields w w1 e t (command a b [] line rest (filled, clean) h output closed short) = cc
  exp-Yields w w1 e t (command a b (d ∷ body) line rest (filled, clean) h output closed short) =
      let fits : ltb (length t) 255 ≡ true = ground (arith, short) in
      let value : (exec_shell sh (d ∷ body) w).0 ≡ some (ok (t ++ 0 ∷ [])) =
        rw fits at (exec_shell_lem sh (d ∷ body) line rest w h output closed) in
      let left = exec_shell_left sh (d ∷ body) line rest w h output closed short in
      let stripped = strip_shell_lem a b d body clean in
      rw (exp, stripped, value) (rw (stripped, left, until_nul_end t [] (IsLine-clean t h)) refl)

  -- Where the parts of a string stand for texts, `exps` gives their concatenation, behind what it
  -- was given, and goes through the same states of the world: a command between quotation marks
  -- stands for the first line of its output, without the line feed, as far as that line has less
  -- than 255 bytes, and any other part for itself.
  pub exps-AllYield :
      (w w2 : W) (s t : Text) (es : List Exp)
      → AllYield w es t w2
      → exps sh s es w ≡ (some (ok (s ++ t)), w2)
  unfolding exps
  exps-AllYield w w2 s t es no_part = ap (λ x. (some (ok x), w)) (sym (append-nil s))
  exps-AllYield w w2 s t es (part {w1 = w1} {e = e} {es = rest} {t = t1} {u = u} y more) =
      let first = exp-Yields w w1 e t1 y in
      let next = exps-AllYield w1 w2 (s ++ t1) u rest more in
      rw (exps, first) (rw (exps, first) (next ∙ ap (λ x. (some (ok x), w2)) (append_assoc s t1 u)))
