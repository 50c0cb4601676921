-- ===== src/Flex.antt =====
-- What the scanners of src/rfc822.ll and src/rcfile.ll have in common as flex makes them: matches of
-- patterns, and the choice of the longest.
pub mod Splits
use mailfilter.Base.{
  ℕ, length, ltb, ◌==◌, if◌then◌else◌, Bool, false, not, Option, none, some, List, [], ◌∷◌,
}
use mailfilter.Text.{Text}

-- A match of a pattern: the text that matches, and what is behind it.
abbrev pub Match : Type 0
Match = Text × Text

abbrev pub prefixed : ℕ → Match → Match
prefixed c (m, rest) = (c ∷ m, rest)

abbrev pub further : ℕ → Option Match → Option Match
further c none = none
further c (some (m, rest)) = some (c ∷ m, rest)

-- The longest match of `[…]*` for a class of bytes.
unfoldable pub run : (ℕ → Bool) → Text → Match
run p [] = ([], [])
run p (c ∷ s) = let more = run p s in if p c then prefixed c more else ([], c ∷ s)

-- `.` is any byte but a line feed.
abbrev pub is_dot : ℕ → Bool
is_dot c = not (c == 10)

-- A pattern of one byte.
unfoldable pub byte_match : (ℕ → Bool) → Text → Option Match
byte_match p [] = none
byte_match p (c ∷ s) = if p c then some (c ∷ [], s) else none

-- A rule with its longest match, and what is taken of such.
abbrev pub Candidate : Type 0 → Type 0
Candidate R = R × Option Match

abbrev pub Taken : Type 0 → Type 0
Taken R = R × Text × Text

-- The longest match, the first of those that are as long; `none` if nothing matches.
unfoldable pub longest : {R : Type 0} → List (Candidate R) → Option (Taken R)
longest [] = none
longest ((r, none) ∷ cs) = longest cs
longest ((r, some (m, rest)) ∷ cs) = elim (longest cs) [
  | none ↦ some (r, m, rest)
  | some (q, n, last) ↦ if ltb (length m) (length n) then some (q, n, last) else some (r, m, rest)
]

-- Whether the scanner is at the beginning of a line behind the text.
abbrev pub ends_line : Text → Bool
ends_line [] = false
ends_line (c ∷ []) = c == 10
ends_line (c ∷ d ∷ s) = ends_line (d ∷ s)
