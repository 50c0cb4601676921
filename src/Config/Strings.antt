-- ===== src/Config/Strings.antt =====
-- The strings of the configuration file: `exec_shell` of src/mailfilter.cc, and `strip_shell` and the
-- rules `exp` and `exps` of src/rcfile.yy.
pub mod Shell
pub mod Parts
use mailfilter.Base.{
  length, ◌==◌, if◌then◌else◌, ℕ, zero, suc, ◌-◌, Bool, not, Option, none, some, List, [], ◌∷◌,
  ◌++◌,
}
use mailfilter.Base.Result.{die, Result, ok, exit, throw}
use mailfilter.Text.{Text, codes, until_nul}
use mailfilter.Header.{byte}

-- The calls by which a command is executed, over the state `W` of the world: the output that can be
-- read, if `popen` succeeds, and whether `pclose` does not return -1.
pub record Popen (W : Type 0) : Type 0 where
  pub popen : Text → W → Option Text × W
  pub pclose : W → Bool × W

-- `fgets` on a buffer of `n + 1` bytes: at most `n` bytes, up to the first line feed and with it.
unfoldable pub fgets : ℕ → Text → Text
fgets zero s = []
fgets (suc n) [] = []
fgets (suc n) (c ∷ s) = let rest = fgets n s in if c == 10 then c ∷ [] else c ∷ rest

-- The text without its last byte, and that byte.
abbrev pub unsnoc : ℕ → Text → Text × ℕ
unsnoc c [] = ([], c)
unsnoc c (d ∷ s) = let (front, last) = unsnoc d s in (c ∷ front, last)

-- What `exec_shell` makes of the string in its buffer before `pclose`; a read at the place before
-- an empty string is undefined.
unfoldable pub without_newline : Text → Option (Result Text)
without_newline [] = none
without_newline (c ∷ s) =
    let (front, last) = unsnoc c s in
    if not (last == 10) then some (die (codes "popen failed.")) else some (ok (front ++ 0 ∷ []))

module _ {W : Type 0} (sh : Popen W) where
  -- exec_shell; `none` is undefined behaviour.
  unfoldable pub exec_shell : Text → W → Option (Result Text) × W
  exec_shell command w =
      let (output, w1) = sh.popen command w in
      let (closed, w2) = sh.pclose w1 in
      elim output [
        | none ↦ (some (ok []), w1)
        | some [] ↦ (some (die (codes "popen failed.")), w1)
        | some (c ∷ out) ↦ elim (without_newline (until_nul (fgets 255 (c ∷ out)))) [
          | none ↦ (none, w1)
          | some (exit status text) ↦ (some (exit status text), w1)
          | some (throw what) ↦ (some (throw what), w1)
          | some (ok cur_string) ↦
              if closed
              then (some (ok cur_string), w2)
              else (some (die (codes "pclose failed.")), w2)
        ]
      ]

-- The loop of `strip_shell` from `i` on, in an array `s` of bytes.
abbrev pub store : ℕ → ℕ → Text → Text
store i c [] = []
store zero c (d ∷ s) = c ∷ s
store (suc i) c (d ∷ s) = d ∷ store i c s

unfoldable pub strip_loop : ℕ → Text → ℕ → Text → Text
strip_loop zero buf i s = s
strip_loop (suc rounds) buf i s =
    strip_loop rounds buf (suc i) (store i 0 (store (i - 1) (byte buf i) s))

-- strip_shell, on a string that is not empty: the array without its terminator.
unfoldable pub strip_shell : Text → Text
strip_shell s = strip_loop (length s - 2) s 1 s

-- The parts of a string.
pub data Exp : Type 0 where
  shell_cmd env_var text_id ctrl_char : Text → Exp

module _ {W : Type 0} (sh : Popen W) where
  unfoldable pub exp : Exp → W → Option (Result Text) × W
  exp (shell_cmd s) w =
      let (result, w1) = exec_shell sh (until_nul (strip_shell s)) w in
      elim result [
        | some (ok t) ↦ (some (ok (until_nul t)), w1)
        | some (exit status text) ↦ (some (exit status text), w1)
        | some (throw what) ↦ (some (throw what), w1)
        | none ↦ (none, w1)
      ]
  exp (env_var s) w = (some (ok s), w)
  exp (text_id s) w = (some (ok s), w)
  exp (ctrl_char s) w = (some (ok s), w)

  -- `exps` behind the string `s`
  unfoldable pub exps : Text → List Exp → W → Option (Result Text) × W
  exps s [] w = (some (ok s), w)
  exps s (e ∷ es) w =
      let (result, w1) = exp e w in
      elim result [
        | some (ok t) ↦ exps (s ++ t) es w1
        | some (exit status text) ↦ (some (exit status text), w1)
        | some (throw what) ↦ (some (throw what), w1)
        | none ↦ (none, w1)
      ]
