-- ===== src/Rcfile/Progress.antt =====
-- src/rcfile.ll: the scanner gets through its files.
use mailfilter.Rcfile.Scanner.{
  read_all, stopped, out_of_fuel, put_back, Reaction, Outcome, rclex, Lexer, include_file, proceed,
  rclex_from, react, first_lexer, leave_file, read_file, nested_too_deep, Failure,
}
use mailfilter.Rcfile.Patterns.{incl_name, other, initial_state, closing_quote, patterns, Pattern}
use mailfilter.Rcfile.{ConfigToken}
use mailfilter.Base.{
  length, ℕ, ◌<◌, ◌≡◌, refl, inl, inr, true, none, some, List, [], ◌∷◌, ◌++◌, arith, length-append,
  Option-cases, zero, suc, sym, ap, ◌∙◌, ◌≢◌, Option, append_assoc,
}
use mailfilter.Text.{Text}
use mailfilter.Flex.{Taken, longest, ends_line}
use mailfilter.Flex.Splits.{OfTaken, longest-OfTaken, longest-IsFilled}
use mailfilter.Rcfile.Candidates.{IsFair, patterns-AllFair, patterns-Covers}
use mailfilter.Config.Strings.{unsnoc}
use mailfilter.Preferences.Setters.{Host}
use mathlib.Core.Path.{subst}

unsnoc_end : (c : ℕ) (blanks : Text) → (unsnoc c (blanks ++ 10 ∷ [])).0 ≡ c ∷ blanks
unsnoc_end c [] = refl
unsnoc_end c (b ∷ blanks) = ap (λ t. c ∷ t) (unsnoc_end b blanks)

-- A part of the text that is not empty stands in front of what is left.
abbrev pub IsPart : Text → Taken Pattern → Type 0
IsPart s (r, m, rest) = (m ++ rest ≡ s) × (0 < length m)

put_back-IsPart :
    (s : Text) (r : Pattern) (m rest : Text)
    → IsFair s (r, some (m, rest))
    → 0 < length m
    → IsPart s (put_back (r, m, rest))
put_back-IsPart s closing_quote [] rest fair long = absurd (omega arith)
put_back-IsPart s closing_quote (d ∷ m) rest (joined, (c, blanks, e)) long =
    let same : m ≡ blanks ++ 10 ∷ [] = cc in
    let front : (unsnoc d m).0 ≡ d ∷ blanks = rw same (unsnoc_end d blanks) in
    let whole : d ∷ ((blanks ++ 10 ∷ []) ++ rest) ≡ s = rw same at joined in
    rw front (ap (λ t. d ∷ t) (sym (append_assoc blanks (10 ∷ []) rest)) ∙ whole, omega arith)
put_back-IsPart s _ m rest (joined, long) filled = (joined, filled)

taken-IsPart :
    (x : Lexer) (s : Text) (taken : Taken Pattern)
    → longest (patterns x.yy_start x.at_bol s) ≡ some taken
    → 0 < length taken.1
    → IsPart s (put_back taken)
taken-IsPart x s taken e long =
    put_back-IsPart s taken.0 taken.1 taken.2
      (subst (OfTaken (IsFair s)) e (
        longest-OfTaken (IsFair s) (patterns x.yy_start x.at_bol s)
          (patterns-AllFair x.yy_start x.at_bol s)))
      long

-- The text that an action sees leaves the lexer at the beginning of a line or not.
abbrev pub behind : Lexer → Text → Lexer
behind x m = record x { at_bol = ends_line m }

-- From the lexer `x` on a text is read in rounds: the rule with the longest match is taken, with a
-- part of the text that is not empty, and its action is executed; the text behind it is read in the
-- same way, until nothing is left, or the action leaves the process. No byte is left out.
pub data Reads (include : Text → Lexer → Reaction) : Lexer → Text → Reaction → Type 0 where
  at_end : (x : Lexer) → Reads include x [] ([], read_all x)
  goes_on :
      (x y : Lexer) (s : Text) (taken : Taken Pattern) (ts : List ConfigToken) (o all : Reaction)
      → longest (patterns x.yy_start x.at_bol s) ≡ some taken
      → IsPart s (put_back taken)
      → react include (behind x (put_back taken).1) (put_back taken).0 (put_back taken).1
        ≡ (ts, read_all y)
      → Reads include y (put_back taken).2 o
      → all ≡ (ts ++ o.0, o.1)
      → Reads include x s all
  leaves :
      (x : Lexer) (s : Text) (taken : Taken Pattern) (ts : List ConfigToken) (failure : Failure)
      → longest (patterns x.yy_start x.at_bol s) ≡ some taken
      → IsPart s (put_back taken)
      → react include (behind x (put_back taken).1) (put_back taken).0 (put_back taken).1
        ≡ (ts, stopped failure)
      → Reads include x s (ts, stopped failure)

rclex_from-step :
    (include : Text → Lexer → Reaction) (f : ℕ) (x : Lexer) (c : ℕ) (s : Text)
    (taken : Taken Pattern)
    → longest (patterns x.yy_start x.at_bol (c ∷ s)) ≡ some taken
    → rclex_from include (suc f) x (c ∷ s)
      ≡ proceed
          (react include (behind x (put_back taken).1) (put_back taken).0 (put_back taken).1)
          (λ y. rclex_from include f y (put_back taken).2)
unfolding rclex_from
rclex_from-step include f x c s taken e = rw (rclex_from, e) refl

module _ (include : Text → Lexer → Reaction) where
  proceed-Reads :
      (x : Lexer) (s : Text) (taken : Taken Pattern) (r : Reaction) (next : Lexer → Reaction)
      → longest (patterns x.yy_start x.at_bol s) ≡ some taken
      → IsPart s (put_back taken)
      → react include (behind x (put_back taken).1) (put_back taken).0 (put_back taken).1 ≡ r
      → ((y : Lexer) → Reads include y (put_back taken).2 (next y))
      → Reads include x s (proceed r next)
  proceed-Reads x s taken (ts, read_all y) next e part acted later =
      goes_on x y s taken ts (next y) _ e part acted (later y) refl
  proceed-Reads x s taken (ts, stopped failure) next e part acted later =
      leaves x s taken ts failure e part acted

  -- With more fuel than there are bytes.
  rclex_from-Reads :
      (f : ℕ) (x : Lexer) (s : Text) → length s < f → Reads include x s (rclex_from include f x s)
  rclex_from-Reads zero x s h = absurd (omega arith)
  rclex_from-Reads (suc f) x [] h = unfold rclex_from in at_end x
  rclex_from-Reads (suc f) x (c ∷ s) h =
      let (taken, e, long) =
        longest-IsFilled (patterns x.yy_start x.at_bol (c ∷ s))
          (patterns-Covers x.yy_start x.at_bol c s) in
      let part = taken-IsPart x (c ∷ s) taken e long in
      let fewer : length (put_back taken).2 < f =
        omega
          (arith, length-append (put_back taken).1 (put_back taken).2, ap length part.0, part.1) in
      subst (Reads include x (c ∷ s)) (sym (rclex_from-step include f x c s taken e)) (
        proceed-Reads x (c ∷ s) taken _ (λ y. rclex_from include f y (put_back taken).2) e part refl
          (λ y. rclex_from-Reads f y (put_back taken).2 fewer))

-- An outcome for which the fuel was enough.
abbrev pub IsOutcome : Outcome → Type 0
IsOutcome o = o ≢ stopped out_of_fuel

module _ (include : Text → Lexer → Reaction)
    (included : (name : Text) (x : Lexer) → IsOutcome (include name x).1) where
  react-IsOutcome : (x : Lexer) (r : Pattern) (m : Text) → IsOutcome (react include x r m).1
  unfolding react
  react-IsOutcome x incl_name m = included m x
  react-IsOutcome x other m = λ e. cc
  react-IsOutcome x _ m = λ e. cc

-- Where the files that are included are read without a lack of fuel, so is the text.
Reads-IsOutcome :
    (include : Text → Lexer → Reaction)
    → ((name : Text) (x : Lexer) → IsOutcome (include name x).1)
    → (x : Lexer) (s : Text) (o : Reaction) → Reads include x s o
    → IsOutcome o.1
Reads-IsOutcome include included _ _ _ (at_end x) = λ e. cc
Reads-IsOutcome include included _ _ _ (goes_on x y s taken ts o all e part acted later sum) =
    rw sum (Reads-IsOutcome include included y (put_back taken).2 o later)
Reads-IsOutcome include included _ _ _ (leaves x s taken ts failure e part acted) =
    let left =
      react-IsOutcome include included (behind x (put_back taken).1) (put_back taken).0
        (put_back taken).1 in
    rw acted at left

leave_file-IsOutcome : (x : Lexer) (r : Reaction) → IsOutcome r.1 → IsOutcome (leave_file x r).1
leave_file-IsOutcome x (ts, read_all y) h = λ e. cc
leave_file-IsOutcome x (ts, stopped failure) h = h

-- No file is included in one that is included itself.
abbrev pub too_deep : Text → Lexer → Reaction
too_deep name y = ([], stopped nested_too_deep)

-- The state at the start of an included file.
abbrev pub entered : Lexer → Text → Lexer
entered x file = record x { yy_start = initial_state; at_bol = true; sub_file = file }

read_file-IsOutcome : (x : Lexer) (file : Text) (o : Option Text) → IsOutcome (read_file x file o).1
unfolding read_file
read_file-IsOutcome x file none = λ e. cc
read_file-IsOutcome x file (some s) = leave_file-IsOutcome x _ (
    Reads-IsOutcome too_deep (λ name y e. cc) (entered x file) s _
      (rclex_from-Reads too_deep (suc (length s)) (entered x file) s (omega arith)))

include_file-IsOutcome :
    (host : Host) (open_file : Text → Option Text) (name : Text) (x : Lexer)
    → IsOutcome (include_file host open_file name x).1
unfolding include_file
include_file-IsOutcome host open_file name x = elim (Option-cases (host.expand name)) [
  | inl e ↦ rw (include_file, e) (λ k. cc)
  | inr ((file, e)) ↦ rw (include_file, e) (read_file-IsOutcome x file (open_file file))
]

-- The scanner gets through the configuration file, whatever it and the files that it includes hold,
-- and never lacks fuel: it reads the file in rounds, in each of which the longest match of a rule,
-- one byte at least, is taken and the next round goes on right behind it, until no byte is left or
-- the process is left with one of the errors. So no byte is passed over, and no rule is taken with
-- an empty match. An included file `t` is read in the same way, from whatever state `x` it is met in.
pub rclex_total :
    (host : Host) (open_file : Text → Option Text) (s : Text) (x : Lexer) (file t : Text)
    → Reads (include_file host open_file) first_lexer s (rclex host open_file s)
      × ((rclex host open_file s).1 ≢ stopped out_of_fuel)
      × ((o : Reaction) × Reads too_deep (entered x file) t o
          × (read_file x file (some t) ≡ leave_file x o))
unfolding rclex read_file
rclex_total host open_file s x file t =
    let read =
      rclex_from-Reads (include_file host open_file) (suc (length s)) first_lexer s (omega arith) in
    (
      read,
      Reads-IsOutcome (include_file host open_file) (include_file-IsOutcome host open_file)
          first_lexer s _ read,
      (
        rclex_from too_deep (suc (length t)) (entered x file) t,
        rclex_from-Reads too_deep (suc (length t)) (entered x file) t (omega arith),
        refl,
      ),
    )
