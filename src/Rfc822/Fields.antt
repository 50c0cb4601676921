-- ===== src/Rfc822/Fields.antt =====
-- A message header as it is sent: a field has a name, a colon, white space, a value and further
-- lines, each of which starts with a blank or a tab. The scanner of src/rfc822.ll makes the tokens
-- of the fields of its text.
use mailfilter.Base.{
  length, all, All, ◌==◌, ℕ, zero, suc, ◌<◌, ◌≡◌, refl, ap, ◌∙◌, Bool, true, false, ◌||◌, some,
  List, [], ◌∷◌, ◌++◌, arith, Option, none,
}
use mailfilter.Text.{Text, isspace}
use mailfilter.Rfc822.Scanner.{
  action, before_last_colon, blank_spaces, without_end, dot_line, Condition, Rule, Scanned, initial,
  scan_from, tag_ready, candidates, newline_rule, with_token, more_rule, body_ready, body_rule,
  tag_rule,
}
use mailfilter.Rfc822.Matches.{IsName}
use mailfilter.Rfc822.{Token, header_end, tag, body}
use mailfilter.Rfc822.Lines.{newline_taken, more_taken, body_taken, tag_taken, end_taken}
use mailfilter.Rfc822.Progress.{scan_from-match, taken_shorter}
use mailfilter.Flex.{longest, ends_line, is_dot}

pub record Field : Type 0 where
  pub name : Text
  pub gap : Text
  pub value : Text
  pub more : List Text

-- A value starts with no white space, and no line holds a line feed.
abbrev pub IsValue : Text → Type 0
IsValue [] = ⊥
IsValue (v ∷ vs) = (isspace v ≡ false) × (all is_dot (v ∷ vs) ≡ true)

abbrev pub IsMore : Text → Type 0
IsMore [] = ⊥
IsMore (c ∷ line) = ((c == 32 || c == 9) ≡ true) × (all is_dot line ≡ true)

pub record IsField (f : Field) : Type 0 where
  pub named : IsName f.name
  pub spaced : all isspace f.gap ≡ true
  pub valued : IsValue f.value
  pub continued : All IsMore f.more

-- The text of a header, in front of what follows on it.
abbrev pub put_more : List Text → Text → Text
put_more [] rest = rest
put_more (line ∷ lines) rest = line ++ 13 ∷ 10 ∷ put_more lines rest

abbrev pub put_field : Field → Text → Text
put_field f rest = f.name ++ b':' ∷ (f.gap ++ (f.value ++ 13 ∷ 10 ∷ put_more f.more rest))

abbrev pub put_header : List Field → Text
put_header [] = dot_line
put_header (f ∷ fs) = put_field f (put_header fs)

-- What a line that continues a field adds to the body: its white space as blanks, the return too.
abbrev pub continuation : Text → Text
continuation line = blank_spaces (line ++ 13 ∷ [])

abbrev pub more_tokens : List Text → List Token → List Token
more_tokens [] ts = ts
more_tokens (line ∷ lines) ts = body (continuation line) ∷ more_tokens lines ts

abbrev pub field_tokens : Field → List Token → List Token
field_tokens f ts = tag f.name ∷ body f.value ∷ more_tokens f.more ts

abbrev pub header_tokens : List Field → List Token
header_tokens [] = header_end dot_line ∷ []
header_tokens (f ∷ fs) = field_tokens f (header_tokens fs)

-- The scanner, in a start condition and at the beginning of a line or not, gets through the text
-- with any fuel beyond its length.
abbrev pub Scans : Condition → Bool → Text → Scanned → Type 0
Scans k bol s r = (f : ℕ) → length s < f → scan_from f k bol s ≡ some r

ended : Scans initial true [] ([], [])
unfolding scan_from
ended zero h = absurd (omega arith)
ended (suc f) h = refl

scan_match :
    (k : Condition) (bol : Bool) (c : ℕ) (s : Text) {r : Rule} {m rest : Text} {next : Condition}
    {t : Option Token} {b : Bool} (x : Scanned)
    → longest (candidates k bol (c ∷ s)) ≡ some (r, m, rest)
    → action r k m ≡ (t, next)
    → ends_line m ≡ b
    → Scans next b rest x
    → (f : ℕ) → length (c ∷ s) < f
    → scan_from f k bol (c ∷ s) ≡ with_token t (some x)
scan_match k bol c s x e a l go zero h = absurd (omega arith)
scan_match k bol c s {r} {m} {rest} {next} {t} {b} x e a l go (suc f) h =
    scan_from-match f k bol c s e
    ∙ rw (a, l, go f (omega (arith, taken_shorter k bol (c ∷ s) e))) refl

no_colon : (gap : Text) → all isspace gap ≡ true → before_last_colon gap ≡ none
unfolding before_last_colon isspace
no_colon [] g = refl
no_colon (c ∷ gap) g =
    let no_colon_later = no_colon gap (ground (arith, g)) in ground (arith, no_colon_later)

before_last_colon_lem :
    (name gap : Text) → all isspace gap ≡ true → before_last_colon (name ++ b':' ∷ gap) ≡ some name
unfolding before_last_colon
before_last_colon_lem [] gap g = rw (before_last_colon, no_colon gap g) refl
before_last_colon_lem (c ∷ name) gap g =
    rw (before_last_colon, before_last_colon_lem name gap g) refl

without_end_lem : (v : Text) → without_end (v ++ 13 ∷ 10 ∷ []) ≡ v
unfolding without_end
without_end_lem [] = refl
without_end_lem (c ∷ []) = refl
without_end_lem (c ∷ d ∷ []) = refl
without_end_lem (c ∷ d ∷ e ∷ v) = ap (λ t. c ∷ t) (without_end_lem (d ∷ e ∷ v))

ends_line_lem : (s : Text) (c : ℕ) → ends_line (s ++ c ∷ []) ≡ (c == 10)
ends_line_lem [] c = refl
ends_line_lem (d ∷ []) c = refl
ends_line_lem (d ∷ e ∷ s) c = ends_line_lem (e ∷ s) c

ends_line_two : (s : Text) (c d : ℕ) → ends_line (s ++ c ∷ d ∷ []) ≡ (d == 10)
ends_line_two [] c d = refl
ends_line_two (e ∷ []) c d = refl
ends_line_two (e ∷ f ∷ s) c d = ends_line_two (f ∷ s) c d

tag_action :
    (k : Condition) (name gap : Text)
    → all isspace gap ≡ true
    → action tag_rule k (name ++ b':' ∷ gap) ≡ (some (tag name), body_ready)
unfolding action
tag_action k name gap g = rw (action, before_last_colon_lem name gap g) refl

body_action :
    (k : Condition) (v : Text) → action body_rule k (v ++ 13 ∷ 10 ∷ []) ≡ (some (body v), initial)
unfolding action
body_action k v = rw (without_end_lem v) refl

more_action :
    (k : Condition) (line : Text)
    → action more_rule k (line ++ 13 ∷ []) ≡ (some (body (continuation line)), tag_ready)
unfolding action
more_action k line = refl

newline_action : (k : Condition) (m : Text) → action newline_rule k m ≡ (none, initial)
unfolding action
newline_action k m = refl

put_more-Scans :
    (lines : List Text) (rest : Text) (ts : List Token) (out : Text)
    → All IsMore lines
    → Scans initial true rest (ts, out)
    → Scans initial true (put_more lines rest) (more_tokens lines ts, out)
put_more-Scans [] rest ts out h go = go
put_more-Scans ([] ∷ lines) rest ts out h go = absurd h.0
put_more-Scans ((c ∷ line) ∷ lines) rest ts out ((blank, dots), h) go =
    let later = put_more lines rest in
    let x : Scanned = (more_tokens lines ts, out) in
    scan_match initial true c (line ++ 13 ∷ 10 ∷ later) x (more_taken c line later blank dots)
      (more_action initial (c ∷ line)) (ends_line_lem (c ∷ line) 13)
      (scan_match tag_ready false 10 later x (newline_taken later) (newline_action tag_ready _) refl
        (put_more-Scans lines rest ts out h go))

put_parts-Scans :
    (name gap value rest : Text) (ts : List Token) (out : Text)
    → IsName name
    → all isspace gap ≡ true
    → IsValue value
    → Scans initial true rest (ts, out)
    → Scans initial true
        (name ++ b':' ∷ (gap ++ (value ++ 13 ∷ 10 ∷ rest)))
        (tag name ∷ body value ∷ ts, out)
put_parts-Scans [] gap value rest ts out n g v go = absurd n
put_parts-Scans (c ∷ name) gap [] rest ts out n g v go = absurd v
put_parts-Scans (c ∷ name) gap (d ∷ value) rest ts out n g v go =
    let line = value ++ 13 ∷ 10 ∷ rest in
    scan_match initial true c (name ++ b':' ∷ (gap ++ d ∷ line)) (body (d ∷ value) ∷ ts, out)
      (tag_taken c name gap d line n g v.0) (tag_action initial (c ∷ name) gap g) refl
      (scan_match body_ready _ d line (ts, out) (body_taken _ d value rest v.0 v.1)
        (body_action body_ready (d ∷ value)) (ends_line_two (d ∷ value) 13 10) go)

pub put_header-Scans :
    (fs : List Field) → All IsField fs → Scans initial true (put_header fs) (header_tokens fs, [])
unfolding action
put_header-Scans [] h =
    scan_match initial true 13 (10 ∷ b'.' ∷ 13 ∷ 10 ∷ []) ([], []) end_taken refl refl ended
put_header-Scans (f ∷ fs) h =
    let rest = put_header fs in
    let ts = header_tokens fs in
    put_parts-Scans f.name f.gap f.value (put_more f.more rest) (more_tokens f.more ts) [] h.0.named
      h.0.spaced h.0.valued
      (put_more-Scans f.more rest ts [] h.0.continued (put_header-Scans fs h.1))
