-- ===== src/Pop3/Replies.antt =====
-- How src/pop3.cc reads numbers and lines out of a server's reply: `atoi`, the operator `>>` of a
-- string stream, `find_first_of` and `find_last_of`.
use mailfilter.Base.{
  ℕ, [], ◌∷◌, none, some, length, any, ◌==◌, if◌then◌else◌, ◌+◌, ◌-◌, ◌*◌, Option,
}
use mailfilter.Base.Int.{ℤ, pos, neg}
use mailfilter.Text.{Text, isdigit, isspace}

abbrev skip_space : Text → Text
skip_space [] = []
skip_space (c ∷ s) = let rest = skip_space s in if isspace c then rest else c ∷ s

-- The number that the digits at the start of a text make behind those of `n`.
abbrev digits_value : ℕ → Text → ℕ
digits_value n [] = n
digits_value n (c ∷ s) =
    let rest = digits_value (10 * n + (c - 48)) s in if isdigit c then rest else n

abbrev signed_value : Text → ℤ
signed_value [] = pos 0
signed_value (c ∷ s) =
    if c == b'-'
    then neg (pos (digits_value 0 s))
    else if c == b'+'
    then pos (digits_value 0 s)
    else pos (digits_value 0 (c ∷ s))

-- `atoi`; a number that is not an `int` is undefined behaviour there.
unfoldable pub atoi : Text → ℤ
atoi s = signed_value (skip_space s)

abbrev word : Text → Text
word [] = []
word (c ∷ s) = let rest = word s in if isspace c then [] else c ∷ rest

abbrev behind_word : Text → Text
behind_word [] = []
behind_word (c ∷ s) = let rest = behind_word s in if isspace c then c ∷ s else rest

-- The string after two calls of `>>`: one that finds no word leaves it alone.
unfoldable pub second_word : Text → Text
second_word reply =
    let first = skip_space reply in
    let second = skip_space (behind_word first) in
    if length second == 0 then word first else word second

-- Everything behind the first newline, or everything if there is none.
abbrev behind_newline : Text → Option Text
behind_newline [] = none
behind_newline (c ∷ s) = let rest = behind_newline s in if c == 10 then some s else rest

unfoldable pub below_first_line : Text → Text
below_first_line reply = elim (behind_newline reply) [ none ↦ reply | some s ↦ s ]

-- Everything behind the last blank, or everything if there is none.
unfoldable pub behind_last_blank : Text → Text
behind_last_blank [] = []
behind_last_blank (c ∷ s) =
    let rest = behind_last_blank s in
    if any (λ d. d == 32) s then rest else if c == 32 then s else c ∷ s
