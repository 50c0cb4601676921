-- ===== src/Rfc822/Matches.antt =====
-- What the patterns of src/rfc822.ll match at the beginning of a field and of its lines.
use mailfilter.Base.{all, ◌==◌, ℕ, ◌≡◌, refl, true, false, some, [], ◌∷◌, ◌++◌, arith, none}
use mailfilter.Text.{Text, isalpha, isdigit, isspace, is_lower, toupper}
use mailfilter.Rfc822.Scanner.{line_match, tag_match, is_tag_byte, body_match, topline_match}
use mailfilter.Flex.Splits.{run_stop}
use mailfilter.Flex.{is_dot}

pub line_match_lem :
    (v rest : Text)
    → all is_dot v ≡ true
    → line_match (v ++ 13 ∷ 10 ∷ rest) ≡ some (v ++ 13 ∷ 10 ∷ [], rest)
unfolding line_match
line_match_lem [] rest h = refl
line_match_lem (c ∷ []) rest h = ground (arith, h)
line_match_lem (c ∷ d ∷ v) rest h = ground (arith, h, line_match_lem (d ∷ v) rest)

pub body_match_line :
    (c : ℕ) (s : Text) → (c == 10) ≡ false → body_match (c ∷ s) ≡ line_match (c ∷ s)
unfolding body_match
body_match_line c [] h = refl
body_match_line c (d ∷ []) h = refl
body_match_line c (d ∷ e ∷ s) h = rw h refl

pub tag_byte_no_space : (c : ℕ) → is_tag_byte c ≡ true → isspace c ≡ false
unfolding isspace isalpha isdigit
tag_byte_no_space c h = ground (arith, h)

pub alpha_tag_byte : (c : ℕ) → isalpha c ≡ true → is_tag_byte c ≡ true
alpha_tag_byte c h = rw h refl

-- A name of a field: a letter, and letters, digits and dashes.
abbrev pub IsName : Text → Type 0
IsName [] = ⊥
IsName (c ∷ s) = (isalpha c ≡ true) × (all is_tag_byte s ≡ true)

pub tag_match_lem :
    (c : ℕ) (name gap : Text) (v : ℕ) (rest : Text)
    → IsName (c ∷ name)
    → all isspace gap ≡ true
    → isspace v ≡ false
    → tag_match true (c ∷ (name ++ b':' ∷ (gap ++ v ∷ rest)))
      ≡ some (c ∷ (name ++ b':' ∷ gap), v ∷ rest)
unfolding tag_match isspace isalpha isdigit
tag_match_lem c name gap v rest (letter, others) g h =
    let e = run_stop is_tag_byte name b':' (gap ++ v ∷ rest) others refl in
    let spaces = run_stop isspace gap v rest g h in rw (letter, e) (rw spaces (rw e refl))

-- A name of a field with its colon is not the start of a mailbox separator.
pub topline_match_name :
    (a : ℕ) (name rest : Text)
    → all is_tag_byte (a ∷ name) ≡ true
    → topline_match true (a ∷ (name ++ b':' ∷ rest)) ≡ none
unfolding topline_match toupper isspace isalpha isdigit is_lower
topline_match_name a [] [] h = refl
topline_match_name a [] (v ∷ []) h = refl
topline_match_name a [] (v ∷ w ∷ []) h = refl
topline_match_name a [] (v ∷ w ∷ x ∷ rest) h = ground arith
topline_match_name a (b ∷ []) [] h = refl
topline_match_name a (b ∷ []) (v ∷ []) h = refl
topline_match_name a (b ∷ []) (v ∷ w ∷ rest) h = ground arith
topline_match_name a (b ∷ c ∷ []) [] h = refl
topline_match_name a (b ∷ c ∷ []) (v ∷ rest) h = ground arith
topline_match_name a (b ∷ c ∷ d ∷ []) rest h = ground arith
topline_match_name a (b ∷ c ∷ d ∷ e ∷ name) rest h = ground (arith, tag_byte_no_space e)
