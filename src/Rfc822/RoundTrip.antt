-- ===== src/Rfc822/RoundTrip.antt =====
-- src/rfc822.yy on the tokens of the fields of a header, and rfcparse on its text.
use mailfilter.Rfc822.{at_entry, in_bodies, reduce, Token, entry}
use mailfilter.Base.{
  length, All, suc, ◌≡◌, refl, ap, ◌∙◌, true, List, [], ◌∷◌, ◌++◌, map, arith, Bool, false, not,
  ◌&&◌, none, some,
}
use mailfilter.Text.{Text}
use mailfilter.Rfc822.Scanner.{rfcparse, scan_header}
use mailfilter.Rfc822.Fields.{
  continuation, Field, header_tokens, IsField, more_tokens, put_header, put_header-Scans,
}
use mailfilter.Header.{
  Entry, Header, same_tag, add_entries, message_id, rfc822_valid_msgid, add_entry,
}
use mailfilter.Base.Int.{eq_ℤ, signed, pos, negsuc}
use mailfilter.Preferences.{Preferences}
use mailfilter.Pop3.{invoke_msg_parser}
use mailfilter.Base.Result.{ok}
use mailfilter.Header.History.{Stored, add_entries-Stored, add_entry_ending}

-- The body of a field: its value, and its further lines with their white space as blanks.
abbrev pub whole_body : Text → List Text → Text
whole_body b [] = b
whole_body b (line ∷ lines) = whole_body (b ++ continuation line) lines

abbrev pub entry_of : Field → Entry
entry_of f = entry f.name (whole_body f.value f.more)

reduce_more :
    (t b : Text) (lines : List Text) (ts : List Token)
    → reduce (in_bodies t b) (more_tokens lines ts) ≡ reduce (in_bodies t (whole_body b lines)) ts
unfolding reduce
reduce_more t b [] ts = refl
reduce_more t b (line ∷ lines) ts = reduce_more t (b ++ continuation line) lines ts

-- A token that follows on a field ends it.
reduce_next :
    (t b : Text) (fs : List Field)
    → reduce (in_bodies t b) (header_tokens fs)
      ≡ (entry t b ∷ (reduce at_entry (header_tokens fs)).0, (reduce at_entry (header_tokens fs)).1)
unfolding reduce
reduce_next t b [] = refl
reduce_next t b (f ∷ fs) = refl

pub reduce_lem : (fs : List Field) → reduce at_entry (header_tokens fs) ≡ (map entry_of fs, true)
unfolding reduce
reduce_lem [] = refl
reduce_lem (f ∷ fs) =
    let b = whole_body f.value f.more in
    reduce_more f.name f.value f.more (header_tokens fs)
    ∙ reduce_next f.name b fs
    ∙ ap (λ p. (entry f.name b ∷ p.0, p.1)) (reduce_lem fs)

pub rfcparse_tokens :
    (s : Text) (ts : List Token) (out : Text)
    → scan_header s ≡ some (ts, out)
    → rfcparse s ≡ reduce at_entry ts
unfolding rfcparse
rfcparse_tokens s ts out h =
    ap {B = List Entry × Bool}
      (λ o. elim o [ none ↦ ([], false) | some (us, out) ↦ reduce at_entry us ]) h

-- A header that is written from fields, each a name that starts with a letter and goes on with
-- letters, digits and dashes, a colon and a blank, a value that does not start with white space, and
-- any number of further lines that start with a blank or a tab, with no line feed within a line and
-- a full stop on the last line, is accepted. The entries are the fields in their order; the body of
-- one is its value and its further lines, in which white space and the carriage return at the end
-- are blanks.
pub rfcparse-put_header :
    (fs : List Field) → All IsField fs → rfcparse (put_header fs) ≡ (map entry_of fs, true)
unfolding scan_header
rfcparse-put_header fs h =
    let s = put_header fs in
    rfcparse_tokens s (header_tokens fs) [] (put_header-Scans fs h (suc (length s)) (omega arith))
    ∙ reduce_lem fs

module _ {R : Type 0} (signed : Bool) (p : Preferences R) where
  -- The field is no Message-Id that is refused.
  abbrev pub IsAccepted : Entry → Type 0
  IsAccepted e =
      (same_tag e.tag message_id
        && not p.ignore_time_stamp
        && eq_ℤ (rfc822_valid_msgid signed e.body) (negsuc 0))
      ≡ false

  add_entries-ok :
      (h : Header) (es : List Entry) → All IsAccepted es → (add_entries signed p h es).2 ≡ ok tt
  add_entries-ok h [] a = refl
  add_entries-ok h (e ∷ es) a =
      let (h', ms, ending) = add_entry signed p h e.tag e.body in
      let ended : ending ≡ ok tt = (add_entry_ending signed p h e.tag e.body).1 ∙ rw a.0 refl in
      let later = add_entries-ok h' es a.1 in ground (arith, ended, later)

-- A header is written from fields, each a name that starts with a letter and goes on with letters,
-- digits and dashes, a colon and a blank, a value that does not start with white space, and any
-- number of further lines that start with a blank or a tab, with no line feed within a line and a
-- full stop on the last line. If no field of it is a Message-Id that is refused, then parsing the
-- message returns 0, and the message holds the fields in their order as its entries; its Message-Id, From,
-- To, Subject and Date are each the body of the last field of that name in any case, or what they
-- were before if there is none, and its size is unchanged.
pub invoke_msg_parser-put_header :
    {R : Type 0} (signed : Bool) (p : Preferences R) (h : Header) (fs : List Field)
    → All IsField fs
    → All (IsAccepted signed p) (map entry_of fs)
    → ((invoke_msg_parser signed rfcparse p h (put_header fs)).2 ≡ ok (pos 0))
      × Stored h (invoke_msg_parser signed rfcparse p h (put_header fs)).0 (map entry_of fs)
unfolding invoke_msg_parser
invoke_msg_parser-put_header signed p h fs f a =
    let all_ok = add_entries-ok signed p h (map entry_of fs) a in
    let e = rfcparse-put_header fs f in
    (
      rw (invoke_msg_parser, e) (rw all_ok (rw e refl)),
      rw (invoke_msg_parser, e) (add_entries-Stored signed p h (map entry_of fs) all_ok),
    )
