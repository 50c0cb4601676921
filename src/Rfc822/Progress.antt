-- ===== src/Rfc822/Progress.antt =====
-- src/rfc822.ll: the scanner gets through its input.
use mailfilter.Base.{
  ◌≡◌, refl, length, ◌==◌, if◌then◌else◌, ℕ, ◌<◌, sym, ap, ◌∙◌, inl, inr, Bool, true, ◌&&◌, Option,
  none, some, [], ◌∷◌, ◌++◌, append_assoc, arith, All, Option-cases, zero, suc, length-append,
}
use mailfilter.Text.{Text, isspace, str_eq, isalpha}
use mailfilter.Rfc822.Scanner.{
  initial, tag_ready, body_ready, tag_match, line_match, end_match, topline_match, more_match,
  body_match, is_tag_byte, candidates, dot_line, is_from, Condition, scan_header, scan_from, Rule,
  Scanned, action, with_token, open_candidates, with_echo,
}
use mailfilter.Text.Compare.{str_eq_iff}
use mailfilter.Rfc822.{Token}
use mathlib.Core.Path.{subst}
use mailfilter.Flex.{longest, ends_line, Match, run, further, is_dot, prefixed, Candidate}
use mailfilter.Flex.Splits.{
  Splits, byte_match-Splits, if-Splits, run_lem, further-Splits, OfTaken, longest-OfTaken,
}

line_match-Splits : (s : Text) → Splits s (line_match s)
unfolding line_match
line_match-Splits [] = tt
line_match-Splits (c ∷ []) = tt
line_match-Splits (c ∷ d ∷ s) =
    let more = line_match (d ∷ s) in
    let x : Option Match = if c == 13 && d == 10 then some (13 ∷ 10 ∷ [], s) else further c more in
    if-Splits (c == 10) (c ∷ d ∷ s) none x (λ h. tt)
      (λ h.
        if-Splits (c == 13 && d == 10) (c ∷ d ∷ s) (some (13 ∷ 10 ∷ [], s)) (further c more)
          (λ e. (ground (arith, e), omega arith))
          (λ e. further-Splits c (d ∷ s) more (line_match-Splits (d ∷ s))))

topline_match-Splits : (bol : Bool) (s : Text) → Splits s (topline_match bol s)
unfolding topline_match
topline_match-Splits bol (f ∷ r ∷ o ∷ m ∷ c ∷ s) =
    let more : Option Match =
      further f (further r (further o (further m (further c (line_match s))))) in
    if-Splits (bol && is_from (f ∷ r ∷ o ∷ m ∷ []) && isspace c) (f ∷ r ∷ o ∷ m ∷ c ∷ s) more none
      (λ h. further-Splits f _ _ (
        further-Splits r _ _ (
          further-Splits o _ _
            (further-Splits m _ _ (further-Splits c _ _ (line_match-Splits s))))))
      (λ h. tt)
topline_match-Splits bol [] = tt
topline_match-Splits bol (f ∷ []) = tt
topline_match-Splits bol (f ∷ r ∷ []) = tt
topline_match-Splits bol (f ∷ r ∷ o ∷ []) = tt
topline_match-Splits bol (f ∷ r ∷ o ∷ m ∷ []) = tt

body_match-Splits : (s : Text) → Splits s (body_match s)
unfolding body_match
body_match-Splits (c ∷ d ∷ e ∷ s) =
    if-Splits (c == 10 && d == 13 && e == 10) (c ∷ d ∷ e ∷ s) (some (10 ∷ 13 ∷ 10 ∷ [], s))
      (line_match (c ∷ d ∷ e ∷ s)) (λ h. (ground (arith, h), omega arith))
      (λ h. line_match-Splits (c ∷ d ∷ e ∷ s))
body_match-Splits [] = line_match-Splits []
body_match-Splits (c ∷ []) = line_match-Splits (c ∷ [])
body_match-Splits (c ∷ d ∷ []) = line_match-Splits (c ∷ d ∷ [])

more_match-Splits : (bol : Bool) (s : Text) → Splits s (more_match bol s)
unfolding more_match
more_match-Splits bol [] = tt
more_match-Splits bol (c ∷ s) =
    if-Splits (bol && isspace c) (c ∷ s) (some (prefixed c (run is_dot s))) none
      (λ h. (ap (λ t. c ∷ t) (run_lem is_dot s), omega arith)) (λ h. tt)

end_match-Splits : (s : Text) → Splits s (end_match s)
unfolding end_match
end_match-Splits (a ∷ b ∷ c ∷ d ∷ e ∷ s) =
    let five = a ∷ b ∷ c ∷ d ∷ e ∷ [] in
    if-Splits (str_eq five dot_line) (a ∷ b ∷ c ∷ d ∷ e ∷ s) (some (dot_line, s)) none
      (λ h. (ap (λ t. t ++ s) (sym ((str_eq_iff five dot_line).0 h)), omega arith)) (λ h. tt)
end_match-Splits [] = tt
end_match-Splits (a ∷ []) = tt
end_match-Splits (a ∷ b ∷ []) = tt
end_match-Splits (a ∷ b ∷ c ∷ []) = tt
end_match-Splits (a ∷ b ∷ c ∷ d ∷ []) = tt

-- What `tag_match` does with the text behind the name.
tag_end-Splits :
    (c : ℕ) (name rest s : Text)
    → name ++ rest ≡ s
    → Splits (c ∷ s) (elim rest [
      | [] ↦ none
      | ◌∷◌ d t ↦
          let (spaces, last) = run isspace t in
          if d == b':' then some (c ∷ (name ++ d ∷ spaces), last) else none
    ])
tag_end-Splits c name [] s e = tt
tag_end-Splits c name (d ∷ t) s e =
    let (spaces, last) = run isspace t in
    if-Splits (d == b':') (c ∷ s) (some (c ∷ (name ++ d ∷ spaces), last)) none
      (λ h. (
        ap (λ u. c ∷ u)
            (append_assoc name (d ∷ spaces) last ∙ ap (λ u. name ++ d ∷ u) (run_lem isspace t) ∙ e),
        omega arith,
      ))
      (λ h. tt)

tag_match-Splits : (bol : Bool) (s : Text) → Splits s (tag_match bol s)
unfolding tag_match
tag_match-Splits bol [] = tt
tag_match-Splits bol (c ∷ s) =
    let (name, rest) = run is_tag_byte s in
    if-Splits (bol && isalpha c) (c ∷ s)
      (elim rest [
        | [] ↦ none
        | ◌∷◌ d t ↦
            let (spaces, last) = run isspace t in
            if d == b':' then some (c ∷ (name ++ d ∷ spaces), last) else none
      ])
      none (λ h. tag_end-Splits c name rest s (run_lem is_tag_byte s)) (λ h. tt)

open_candidates-Splits : (bol : Bool) (s : Text) → All (λ c. Splits s c.1) (open_candidates bol s)
unfolding open_candidates
open_candidates-Splits bol s = (
  tag_match-Splits bol s,
  (
    more_match-Splits bol s,
    (end_match-Splits s, (byte_match-Splits _ s, (byte_match-Splits _ s, tt))),
  ),
)

-- Every candidate splits the input, so the match that is taken does.
candidates-Splits :
    (k : Condition) (bol : Bool) (s : Text) → All (λ c. Splits s c.1) (candidates k bol s)
unfolding candidates
candidates-Splits body_ready bol s =
    (body_match-Splits s, (byte_match-Splits _ s, (byte_match-Splits _ s, tt)))
candidates-Splits tag_ready bol s = open_candidates-Splits bol s
candidates-Splits initial bol s = (topline_match-Splits bol s, open_candidates-Splits bol s)

pub taken_shorter :
    (k : Condition) (bol : Bool) (s : Text) {r : Rule} {m rest : Text}
    → longest (candidates k bol s) ≡ some (r, m, rest)
    → length rest < length s
taken_shorter k bol s {r} {m} {rest} e =
    let P : Candidate Rule → Type 0 = λ c. Splits s c.1 in
    let both =
      subst (OfTaken P) e (longest-OfTaken P (candidates k bol s) (candidates-Splits k bol s)) in
    omega (arith, both.1, length-append m rest, ap length both.0)

with_token-some :
    (t : Option Token) (o : Option Scanned)
    → ((r : Scanned) × (o ≡ some r))
    → (r : Scanned) × (with_token t o ≡ some r)
with_token-some none o (r, e) = (r, rw e refl)
with_token-some (some t) o (r, e) = ((t ∷ r.0, r.1), rw e refl)

-- One round of the scanner: a byte that begins no match, and a match.
pub scan_from-echo :
    (f : ℕ) (k : Condition) (bol : Bool) (c : ℕ) (s : Text)
    → longest (candidates k bol (c ∷ s)) ≡ none
    → scan_from (suc f) k bol (c ∷ s) ≡ with_echo c (scan_from f k (c == 10) s)
unfolding scan_from
scan_from-echo f k bol c s e = rw (scan_from, e) refl

pub scan_from-match :
    (f : ℕ) (k : Condition) (bol : Bool) (c : ℕ) (s : Text) {r : Rule} {m rest : Text}
    → longest (candidates k bol (c ∷ s)) ≡ some (r, m, rest)
    → scan_from (suc f) k bol (c ∷ s)
      ≡ with_token (action r k m).0 (scan_from f (action r k m).1 (ends_line m) rest)
unfolding scan_from
scan_from-match f k bol c s e = rw (scan_from, e) refl

-- With more fuel than there are bytes the scanner reaches the end of the input, from each start
-- condition and whatever the input is.
pub scan_from_total :
    (f : ℕ) (k : Condition) (bol : Bool) (s : Text)
    → length s < f
    → (r : Scanned) × (scan_from f k bol s ≡ some r)
unfolding scan_from
scan_from_total zero k bol s h = absurd (omega arith)
scan_from_total (suc f) k bol [] h = (([], []), refl)
scan_from_total (suc f) k bol (c ∷ s) h = elim (Option-cases (longest (candidates k bol (c ∷ s)))) [
  | inl e ↦
      let (r, er) = scan_from_total f k (c == 10) s (omega arith) in
      ((r.0, c ∷ r.1), scan_from-echo f k bol c s e ∙ ap (with_echo c) er)
  | inr (((r, m, rest), e)) ↦
      let (x, ex) = with_token-some (action r k m).0 _ (
        scan_from_total f (action r k m).1 (ends_line m) rest
          (omega (arith, taken_shorter k bol (c ∷ s) e))) in
      (x, scan_from-match f k bol c s e ∙ ex)
]

-- Of a header the scanner reads every byte.
pub scan_header_total : (s : Text) → (r : Scanned) × (scan_header s ≡ some r)
unfolding scan_header
scan_header_total s = scan_from_total (suc (length s)) initial true s (omega arith)

scan_from-fuel :
    (f g : ℕ) (k : Condition) (bol : Bool) (s : Text)
    → length s < f
    → length s < g
    → scan_from f k bol s ≡ scan_from g k bol s
unfolding scan_from
scan_from-fuel zero g k bol s h i = absurd (omega arith)
scan_from-fuel (suc f) zero k bol s h i = absurd (omega arith)
scan_from-fuel (suc f) (suc g) k bol [] h i = refl
scan_from-fuel (suc f) (suc g) k bol (c ∷ s) h i =
    elim (Option-cases (longest (candidates k bol (c ∷ s)))) [
      | inl e ↦
          scan_from-echo f k bol c s e
          ∙ ap (with_echo c) (scan_from-fuel f g k (c == 10) s (omega arith) (omega arith))
          ∙ sym (scan_from-echo g k bol c s e)
      | inr (((r, m, rest), e)) ↦
          let shorter = taken_shorter k bol (c ∷ s) e in
          scan_from-match f k bol c s e
          ∙ ap (with_token (action r k m).0) (
              scan_from-fuel f g (action r k m).1 (ends_line m) rest (omega (arith, shorter))
                (omega (arith, shorter)))
          ∙ sym (scan_from-match g k bol c s e)
    ]

-- The scanner comes to an end: with more fuel than there are bytes left it gives a result, from each
-- start condition, at the beginning of a line or not, and whatever the bytes are; and the result is
-- the same with any two such amounts of fuel.
pub scan_from_enough :
    (f g : ℕ) (k : Condition) (bol : Bool) (s : Text)
    → length s < f
    → length s < g
    → (r : Scanned) × (scan_from f k bol s ≡ some r) × (scan_from g k bol s ≡ some r)
scan_from_enough f g k bol s h i =
    let (r, e) = scan_from_total f k bol s h in (r, e, sym (scan_from-fuel f g k bol s h i) ∙ e)
