-- ===== src/Rfc822/Lines.antt =====
-- Which rule of src/rfc822.ll is taken at the beginning of a field, of its value, of a line that
-- continues it and of the end of a header.
use mailfilter.Rfc822.Scanner.{
  initial, tag_ready, body_ready, tag_rule, body_rule, more_rule, newline_rule, end_rule,
  more_match, end_match, candidates, open_candidates, topline_match, tag_match, dot_line,
}
use mailfilter.Base.{
  all, ◌==◌, ℕ, ◌≡◌, refl, Bool, true, false, ◌||◌, none, some, [], ◌∷◌, ◌++◌, arith, length, ltb,
  suc, sym, ap, ◌∙◌, append_assoc,
}
use mailfilter.Text.{Text, is_lower, isalpha, isdigit, isspace, toupper}
use mailfilter.Rfc822.Matches.{
  body_match_line, line_match_lem, IsName, alpha_tag_byte, tag_byte_no_space, topline_match_name,
  tag_match_lem,
}
use mailfilter.Flex.{longest, is_dot, byte_match, run}
use mailfilter.Flex.Splits.{run_stop}

more_match-none :
    (bol : Bool) (c : ℕ) (s : Text) → isspace c ≡ false → more_match bol (c ∷ s) ≡ none
unfolding more_match
more_match-none true c s h = rw h refl
more_match-none false c s h = refl

end_match-none : (c : ℕ) (s : Text) → (c == 13) ≡ false → end_match (c ∷ s) ≡ none
unfolding end_match
end_match-none c [] h = refl
end_match-none c (d ∷ []) h = refl
end_match-none c (d ∷ e ∷ []) h = refl
end_match-none c (d ∷ e ∷ f ∷ []) h = refl
end_match-none c (d ∷ e ∷ f ∷ g ∷ s) h = rw h refl

byte_match-none : (p : ℕ → Bool) (c : ℕ) (s : Text) → p c ≡ false → byte_match p (c ∷ s) ≡ none
unfolding byte_match
byte_match-none p c s h = rw h refl

byte_match_lem :
    (p : ℕ → Bool) (c : ℕ) (s : Text) → p c ≡ true → byte_match p (c ∷ s) ≡ some (c ∷ [], s)
unfolding byte_match
byte_match_lem p c s h = rw h refl

-- A byte that is no space is none of those that the rules name.
no_space :
    (c : ℕ)
    → isspace c ≡ false
    → ((c == 13) ≡ false) × (((c == 32) || (c == 9)) ≡ false) × ((c == 10) ≡ false)
unfolding isspace
no_space c h = ground (arith, h)

pub tag_taken :
    (c : ℕ) (name gap : Text) (v : ℕ) (rest : Text)
    → IsName (c ∷ name)
    → all isspace gap ≡ true
    → isspace v ≡ false
    → longest (candidates initial true (c ∷ (name ++ b':' ∷ (gap ++ v ∷ rest))))
      ≡ some (tag_rule, c ∷ (name ++ b':' ∷ gap), v ∷ rest)
unfolding longest candidates open_candidates
tag_taken c name gap v rest n g h =
    let letter = alpha_tag_byte c n.0 in
    let space = tag_byte_no_space c letter in
    let s = name ++ b':' ∷ (gap ++ v ∷ rest) in
    let others = no_space c space in
    rw
      (
        topline_match_name c name (gap ++ v ∷ rest) (ground (arith, letter, n.1)),
        tag_match_lem c name gap v rest n g h,
        more_match-none true c s space,
        end_match-none c s others.0,
        byte_match-none (λ d. d == 32 || d == 9) c s others.1,
        byte_match-none (λ d. d == 10) c s others.2,
      )
      refl

pub body_taken :
    (bol : Bool) (v : ℕ) (value rest : Text)
    → isspace v ≡ false
    → all is_dot (v ∷ value) ≡ true
    → longest (candidates body_ready bol (v ∷ (value ++ 13 ∷ 10 ∷ rest)))
      ≡ some (body_rule, v ∷ (value ++ 13 ∷ 10 ∷ []), rest)
unfolding longest candidates
body_taken bol v value rest h d =
    let s = value ++ 13 ∷ 10 ∷ rest in
    let others = no_space v h in
    rw
      (
        body_match_line v s others.2,
        line_match_lem (v ∷ value) rest d,
        byte_match-none (λ d. d == 32 || d == 9) v s others.1,
        byte_match-none (λ d. d == 10) v s others.2,
      )
      refl

line_end : (line : Text) → all is_dot line ≡ true → all is_dot (line ++ 13 ∷ []) ≡ true
line_end [] d = refl
line_end (c ∷ line) d = ground (arith, line_end line)

more_match_lem :
    (c : ℕ) (line rest : Text)
    → isspace c ≡ true
    → all is_dot line ≡ true
    → more_match true (c ∷ (line ++ 13 ∷ 10 ∷ rest)) ≡ some (c ∷ (line ++ 13 ∷ []), 10 ∷ rest)
unfolding more_match
more_match_lem c line rest h d =
    let e = ap (run is_dot) (append_assoc line (13 ∷ []) (10 ∷ rest)) in
    let both = sym e ∙ run_stop is_dot (line ++ 13 ∷ []) 10 rest (line_end line d) refl in
    rw h (rw both refl)

-- A blank begins neither a separator nor a field.
topline_match-blank :
    (c : ℕ) (s : Text) → (c == 32 || c == 9) ≡ true → topline_match true (c ∷ s) ≡ none
unfolding topline_match toupper is_lower
topline_match-blank c [] h = refl
topline_match-blank c (d ∷ []) h = refl
topline_match-blank c (d ∷ e ∷ []) h = refl
topline_match-blank c (d ∷ e ∷ f ∷ []) h = refl
topline_match-blank c (d ∷ e ∷ f ∷ g ∷ s) h = ground arith

tag_match-none : (c : ℕ) (s : Text) → isalpha c ≡ false → tag_match true (c ∷ s) ≡ none
unfolding tag_match
tag_match-none c s h = rw h refl

blank_lem :
    (c : ℕ)
    → (c == 32 || c == 9) ≡ true
    → (isspace c ≡ true) × (isalpha c ≡ false) × ((c == 13) ≡ false) × ((c == 10) ≡ false)
unfolding isspace isalpha is_lower
blank_lem c h = ground (arith, h)

no_longer : (n : ℕ) → ltb (suc n) 1 ≡ false
no_longer n = ground arith

pub more_taken :
    (c : ℕ) (line rest : Text)
    → (c == 32 || c == 9) ≡ true
    → all is_dot line ≡ true
    → longest (candidates initial true (c ∷ (line ++ 13 ∷ 10 ∷ rest)))
      ≡ some (more_rule, c ∷ (line ++ 13 ∷ []), 10 ∷ rest)
unfolding longest candidates open_candidates
more_taken c line rest h d =
    let (space, other, no_return, no_newline) = blank_lem c h in
    let s = line ++ 13 ∷ 10 ∷ rest in
    rw
      (
        topline_match-blank c s h,
        tag_match-none c s other,
        more_match_lem c line rest space d,
        end_match-none c s no_return,
        byte_match_lem (λ d. d == 32 || d == 9) c s h,
        byte_match-none (λ d. d == 10) c s no_newline,
      )
      (rw (no_longer (length (line ++ 13 ∷ []))) refl)

pub newline_taken :
    (rest : Text)
    → longest (candidates tag_ready false (10 ∷ rest)) ≡ some (newline_rule, 10 ∷ [], rest)
unfolding longest candidates open_candidates tag_match more_match byte_match
newline_taken rest = rw (end_match-none 10 rest refl) refl

pub end_taken : longest (candidates initial true dot_line) ≡ some (end_rule, dot_line, [])
unfolding longest candidates open_candidates topline_match tag_match more_match byte_match end_match
    isspace isalpha toupper is_lower isdigit run
end_taken = refl
