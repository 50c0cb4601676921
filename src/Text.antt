-- ===== src/Text.antt =====
-- Character strings as lists of bytes, the C library's character classes in the C locale, and the
-- string helpers `cmp_no_case` and `int_to_string` of src/mailfilter.cc. A `const char*` is the
-- list of the bytes before its terminator.
pub mod Compare
pub mod Buffer
use Prim.Native.Char.{code}
use Prim.Native.String
use mailfilter.Base.{
  ℕ, zero, suc, ◌+◌, ◌-◌, ◌/◌, ◌%◌, Bool, true, false, ◌&&◌, ◌||◌, List, [], ◌∷◌, ◌++◌, String, ltb,
  leb, ◌==◌, if◌then◌else◌, length,
}
use mailfilter.Base.Int.{ℤ, pos, negsuc, eq_ℤ, ltb_ℤ}

abbrev pub Text : Type 0
Text = List ℕ

-- The bytes of an ASCII literal.
abbrev pub codes : String → Text
codes String.[] = []
codes (String.◌∷◌ c s) = code c ∷ codes s

abbrev pub str_eq : Text → Text → Bool
str_eq [] [] = true
str_eq (c ∷ s) (d ∷ t) = c == d && str_eq s t
str_eq _ _ = false

unfoldable pub is_lower : ℕ → Bool
is_lower c = leb b'a' c && leb c b'z'

unfoldable pub isalpha : ℕ → Bool
unfolding is_lower
isalpha c = is_lower c || leb b'A' c && leb c b'Z'

unfoldable pub isdigit : ℕ → Bool
isdigit c = leb b'0' c && leb c b'9'

unfoldable pub isspace : ℕ → Bool
isspace c = c == 32 || leb 9 c && leb c 13

unfoldable pub toupper : ℕ → ℕ
unfolding is_lower
toupper c = if is_lower c then c - 32 else c

-- `toupper (*p)`, where `*p` is a plain `char`. From 128 on its value and what `toupper` gives for
-- it depend on the platform, and are the argument `high`, a function of the byte: where `char` is
-- not signed it is `pos`, and where it is signed, 255 is EOF, -1.
abbrev pub upper : (ℕ → ℤ) → ℕ → ℤ
upper high c = if ltb c 128 then pos (toupper c) else high c

-- The loop of `cmp_no_case`; `n` and `n2` are the sizes of the two strings.
cmp_loop : (ℕ → ℤ) → ℕ → ℕ → Text → Text → ℤ
cmp_loop high n n2 (c ∷ s) (c2 ∷ s2) =
    let rest = cmp_loop high n n2 s s2 in
    if eq_ℤ (upper high c) (upper high c2)
    then rest
    else if ltb_ℤ (upper high c) (upper high c2)
    then negsuc 0
    else pos 1
cmp_loop high n n2 s s2 = if n2 == n then pos 0 else if ltb n n2 then negsuc 0 else pos 1

unfoldable pub cmp_no_case : (ℕ → ℤ) → Text → Text → ℤ
unfolding cmp_loop toupper
cmp_no_case high s s2 = cmp_loop high (length s) (length s2) s s2

-- `cmp_no_case (s, s2) == 0`, which is all that the callers ask; whether it is 0 does not depend on
-- the signs of the values, so that those of an unsigned `char` are taken.
abbrev pub same_no_case : Text → Text → Bool
same_no_case s s2 = eq_ℤ (cmp_no_case pos s s2) (pos 0)

-- The decimal digits of `n` in front of `acc`; the fuel `n + 1` is enough.
digits_before : ℕ → ℕ → Text → Text
digits_before zero n acc = acc
digits_before (suc f) n acc =
    let rest = digits_before f (n / 10) ((48 + n % 10) ∷ acc) in
    if ltb n 10 then (48 + n) ∷ acc else rest

unfoldable pub int_to_string : ℤ → Text
unfolding digits_before
int_to_string (pos n) = digits_before (suc n) n []
int_to_string (negsuc n) = b'-' ∷ digits_before (suc (suc n)) (suc n) []

-- The C string in a buffer: the bytes before the first NUL.
abbrev pub until_nul : Text → Text
until_nul [] = []
until_nul (c ∷ s) = let rest = until_nul s in if c == 0 then [] else c ∷ rest
