-- ===== src/Rfc822/Errors.antt =====
-- Headers that src/rfc822.ll and src/rfc822.yy do not read as they are meant.
use mailfilter.Rfc822.{topline, at_entry, entry, reduce, Token}
use mailfilter.Base.{
  all, All, ◌==◌, ℕ, ◌≡◌, refl, sym, ap, ◌∙◌, Bool, true, ◌||◌, some, List, [], ◌∷◌, ◌++◌, map,
  append_assoc, arith, length, suc, false,
}
use mailfilter.Text.{Text, codes, is_lower, isalpha, isdigit, isspace, toupper}
use mailfilter.Rfc822.Scanner.{
  topline_match, is_tag_byte, candidates, rfcparse, open_candidates, tag_match, more_match,
  end_match, initial, topline_rule, action, scan_header, Condition, with_token,
}
use mailfilter.Rfc822.Fields.{Field, IsValue, put_field, IsField, put_more, put_header}
use mailfilter.Rfc822.Matches.{IsName, tag_byte_no_space, line_match_lem, alpha_tag_byte}
use mailfilter.Rfc822.RoundTrip.{whole_body, entry_of, rfcparse-put_header, rfcparse_tokens}
use mailfilter.Base.Int.{signed, negsuc}
use mailfilter.Pop3.{invoke_msg_parser}
use mailfilter.Preferences.{Preferences}
use mailfilter.Header.{Header}
use mailfilter.Base.Result.{exit}
use mailfilter.Rfc822.Progress.{scan_from_total, taken_shorter, scan_from-match}
use mailfilter.Flex.{longest, is_dot, ends_line, byte_match, run}

-- The field that is read where a field without a value stands before another: the line of that one
-- is its value.
abbrev pub joined : Text → Text → Field → Field
joined name blanks f = record {
  name = name;
  gap = blanks ++ 13 ∷ 10 ∷ [];
  value = f.name ++ b':' ∷ (f.gap ++ f.value);
  more = f.more;
}

all-append : (p : ℕ → Bool) (s t : Text) → all p s ≡ true → all p t ≡ true → all p (s ++ t) ≡ true
all-append p [] t h k = k
all-append p (c ∷ s) t h k = ground (arith, h, all-append p s t)

tag_byte-is_dot : (s : Text) → all is_tag_byte s ≡ true → all is_dot s ≡ true
unfolding isalpha isdigit is_lower
tag_byte-is_dot [] h = refl
tag_byte-is_dot (c ∷ s) h = ground (arith, h, tag_byte-is_dot s)

blank-isspace : (s : Text) → all (λ c. c == 32 || c == 9) s ≡ true → all isspace s ≡ true
unfolding isspace
blank-isspace [] h = refl
blank-isspace (c ∷ s) h = ground (arith, h, blank-isspace s)

blank-is_dot : (s : Text) → all (λ c. c == 32 || c == 9) s ≡ true → all is_dot s ≡ true
blank-is_dot [] h = refl
blank-is_dot (c ∷ s) h = ground (arith, h, blank-is_dot s)

IsValue-is_dot : (v : Text) → IsValue v → all is_dot v ≡ true
IsValue-is_dot [] h = absurd h
IsValue-is_dot (c ∷ v) h = h.1

joined-IsValue :
    (name gap value : Text)
    → IsName name
    → all (λ c. c == 32 || c == 9) gap ≡ true
    → IsValue value
    → IsValue (name ++ b':' ∷ (gap ++ value))
joined-IsValue [] gap value n g v = absurd n
joined-IsValue (c ∷ name) gap value n g v = (
  tag_byte_no_space c (alpha_tag_byte c n.0),
  all-append is_dot (c ∷ name) (b':' ∷ (gap ++ value))
      (tag_byte-is_dot (c ∷ name) (ground (arith, alpha_tag_byte c n.0, n.1)))
      (all-append is_dot gap value (blank-is_dot gap g) (IsValue-is_dot value v)),
)

joined-IsField :
    (name blanks : Text) (f : Field)
    → IsName name
    → all (λ c. c == 32 || c == 9) blanks ≡ true
    → all (λ c. c == 32 || c == 9) f.gap ≡ true
    → IsField f
    → IsField (joined name blanks f)
unfolding isspace
joined-IsField name blanks f n b g h = record {
  named = n;
  spaced = all-append isspace blanks (13 ∷ 10 ∷ []) (blank-isspace blanks b) refl;
  valued = joined-IsValue f.name f.gap f.value h.named g h.valued;
  continued = h.continued;
}

-- A field without a value, in front of the rest of the header.
abbrev pub put_empty : Text → Text → Text → Text
put_empty name blanks rest = name ++ b':' ∷ (blanks ++ 13 ∷ 10 ∷ rest)

joined_text :
    (name blanks : Text) (f : Field) (rest : Text)
    → put_empty name blanks (put_field f rest) ≡ put_field (joined name blanks f) rest
joined_text name blanks f rest =
    let tail = 13 ∷ 10 ∷ put_more f.more rest in
    ap (λ t. name ++ b':' ∷ t)
      (ap (λ t. blanks ++ 13 ∷ 10 ∷ t)
          (ap (λ t. f.name ++ b':' ∷ t) (sym (append_assoc f.gap f.value tail))
            ∙ sym (append_assoc f.name (b':' ∷ (f.gap ++ f.value)) tail))
        ∙ sym (append_assoc blanks (13 ∷ 10 ∷ []) _))

-- A field without a value takes the line of the next field as its body. If a field's name is
-- followed on its line by blanks and tabs at most, and further fields follow of which the first
-- has blanks and tabs at most behind its colon, then the header is accepted, but it has no entry
-- for the first of these: its name, colon and value are the body of the field before it.
pub rfcparse-put_empty :
    (name blanks : Text) (f : Field) (fs : List Field)
    → IsName name
    → all (λ c. c == 32 || c == 9) blanks ≡ true
    → all (λ c. c == 32 || c == 9) f.gap ≡ true
    → All IsField (f ∷ fs)
    → rfcparse (put_empty name blanks (put_header (f ∷ fs))) ≡ (
      entry name (whole_body (f.name ++ b':' ∷ (f.gap ++ f.value)) f.more) ∷ map entry_of fs,
      true,
    )
rfcparse-put_empty name blanks f fs n b g h =
    ap rfcparse (joined_text name blanks f (put_header fs))
    ∙ rfcparse-put_header (joined name blanks f ∷ fs) (joined-IsField name blanks f n b g h.0, h.1)

topline_match_lem :
    (v rest : Text)
    → all is_dot v ≡ true
    → topline_match true (codes "From " ++ (v ++ 13 ∷ 10 ∷ rest))
      ≡ some (codes "From " ++ (v ++ 13 ∷ 10 ∷ []), rest)
unfolding topline_match toupper isspace is_lower
topline_match_lem v rest h = rw (line_match_lem v rest h) refl

topline_taken :
    (v rest : Text)
    → all is_dot v ≡ true
    → longest (candidates initial true (codes "From " ++ (v ++ 13 ∷ 10 ∷ rest)))
      ≡ some (topline_rule, codes "From " ++ (v ++ 13 ∷ 10 ∷ []), rest)
unfolding longest candidates open_candidates tag_match more_match byte_match isspace isalpha
    is_lower isdigit run end_match
topline_taken v rest h = rw (topline_match_lem v rest h) refl

topline_action : (k : Condition) (m : Text) → action topline_rule k m ≡ (some (topline m), k)
unfolding action
topline_action k m = refl

reduce_topline : (m : Text) (ts : List Token) → reduce at_entry (topline m ∷ ts) ≡ ([], false)
unfolding reduce
reduce_topline m ts = refl

-- A header whose first line is a mailbox separator, `From ` and any text without a line feed, is
-- refused whatever follows on that line, and no entry is made of it: parsing the message adds
-- nothing to it and ends the process with exit status -1.
pub invoke_msg_parser_topline :
    {R : Type 0} (signed : Bool) (p : Preferences R) (h : Header) (v rest : Text)
    → all is_dot v ≡ true
    → invoke_msg_parser signed rfcparse p h (codes "From " ++ (v ++ 13 ∷ 10 ∷ rest))
      ≡ (h, [], exit (negsuc 0) [])
unfolding invoke_msg_parser scan_header
invoke_msg_parser_topline signed p h v rest d =
    let s = b'r' ∷ b'o' ∷ b'm' ∷ 32 ∷ (v ++ 13 ∷ 10 ∷ rest) in
    let m = codes "From " ++ (v ++ 13 ∷ 10 ∷ []) in
    let taken = topline_taken v rest d in
    let ((ts, out), scanned) =
      scan_from_total (suc (length s)) initial (ends_line m) rest
        (omega (arith, taken_shorter initial true (b'F' ∷ s) taken)) in
    let all_scanned : scan_header (b'F' ∷ s) ≡ some (topline m ∷ ts, out) =
      scan_from-match (suc (length s)) initial true b'F' s taken
      ∙ rw (topline_action initial m) (ap (with_token (some (topline m))) scanned) in
    let refused = rfcparse_tokens (b'F' ∷ s) _ out all_scanned ∙ reduce_topline m ts in
    rw (invoke_msg_parser, refused) (rw refused refl)
