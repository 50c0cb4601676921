-- ===== src/Tests/Headers.antt =====
-- Examples for the text of a message header.
use mailfilter.Rfc822.{tag, body, at_entry, reduce, entry}
use mailfilter.Rfc822.Scanner.{initial, rfcparse, Scanned, scan_from}
use mailfilter.Base.Int.{negsuc, pos}
use mailfilter.Text.{codes, is_lower, isalpha, isdigit, isspace, toupper, cmp_no_case}
use mailfilter.Base.{◌≡◌, refl, ◌↔◌, true, some, [], ◌∷◌, arith}
use mailfilter.Rfc822.Fields.{IsField, Field}
use mailfilter.Pop3.{invoke_msg_parser}
use mailfilter.Preferences.{new_preferences}
use mailfilter.Rfc822.RoundTrip.{rfcparse-put_header, invoke_msg_parser-put_header}
use mailfilter.Rfc822.Errors.{rfcparse-put_empty, invoke_msg_parser_topline}
use mailfilter.Rfc822.Grammar.{IsHeader, reduce_iff}
use mailfilter.Header.{new_header}
use mailfilter.Rfc822.Progress.{scan_from_enough}
use mailfilter.Base.Result.{exit, ok}
use mailfilter.Header.History.{Stored}

abbrev sender_field : Field
sender_field = record { name = codes "From"; gap = codes " "; value = codes "a@b"; more = [] }

abbrev folded_field : Field
folded_field = record { name = codes "X-To"; gap = []; value = codes "x,"; more = codes "\ty" ∷ [] }

sender_field-IsField : IsField sender_field
unfolding isspace isalpha isdigit is_lower
sender_field-IsField = record {
  named = (refl, refl);
  spaced = refl;
  valued = (refl, refl);
  continued = tt;
}

folded_field-IsField : IsField folded_field
unfolding isspace isalpha isdigit is_lower
folded_field-IsField = record {
  named = (refl, refl);
  spaced = refl;
  valued = (refl, refl);
  continued = ((refl, refl), tt);
}

scan_from_enough_example :
    (r : Scanned) × (scan_from 8 initial true (codes "A: b\r\n") ≡ some r)
    × (scan_from 9 initial true (codes "A: b\r\n") ≡ some r)
scan_from_enough_example =
    scan_from_enough 8 9 initial true (codes "A: b\r\n") (omega arith) (omega arith)

rfcparse-put_header_example :
    rfcparse (codes "From: a@b\r\nX-To:x,\r\n\ty\r\n\r\n.\r\n")
    ≡ (entry (codes "From") (codes "a@b") ∷ entry (codes "X-To") (codes "x, y ") ∷ [], true)
unfolding isspace
rfcparse-put_header_example =
    rfcparse-put_header (sender_field ∷ folded_field ∷ [])
      (sender_field-IsField, (folded_field-IsField, tt))

rfcparse-put_empty_example :
    rfcparse (codes "Subject: \r\nFrom: a@b\r\n\r\n.\r\n")
    ≡ (entry (codes "Subject") (codes "From: a@b") ∷ [], true)
unfolding isspace isalpha isdigit is_lower
rfcparse-put_empty_example =
    rfcparse-put_empty (codes "Subject") (codes " ") sender_field [] (refl, refl) refl refl
      (sender_field-IsField, tt)

reduce_iff_example :
    (reduce at_entry (tag (codes "To") ∷ body (codes "x") ∷ body (codes "y") ∷ [])
      ≡ (entry (codes "To") (codes "xy") ∷ [], true))
    ↔ IsHeader
        (tag (codes "To") ∷ body (codes "x") ∷ body (codes "y") ∷ [])
        (entry (codes "To") (codes "xy") ∷ [])
reduce_iff_example =
    reduce_iff (tag (codes "To") ∷ body (codes "x") ∷ body (codes "y") ∷ [])
      (entry (codes "To") (codes "xy") ∷ [])

invoke_msg_parser_topline_example :
    invoke_msg_parser {R = Unit {0}} true rfcparse new_preferences new_header
      (codes "From me\r\nTo: x\r\n\r\n.\r\n")
    ≡ (new_header, [], exit (negsuc 0) [])
invoke_msg_parser_topline_example =
    invoke_msg_parser_topline true new_preferences new_header (codes "me")
      (codes "To: x\r\n\r\n.\r\n") refl

invoke_msg_parser-put_header_example :
    ((invoke_msg_parser {R = Unit {0}} true rfcparse new_preferences new_header
        (codes "From: a@b\r\nX-To:x,\r\n\ty\r\n\r\n.\r\n")).2
      ≡ ok (pos 0))
    × Stored new_header
        (invoke_msg_parser {R = Unit {0}} true rfcparse new_preferences new_header
          (codes "From: a@b\r\nX-To:x,\r\n\ty\r\n\r\n.\r\n")).0
        (entry (codes "From") (codes "a@b") ∷ entry (codes "X-To") (codes "x, y ") ∷ [])
unfolding isspace toupper cmp_no_case
invoke_msg_parser-put_header_example =
    invoke_msg_parser-put_header true new_preferences new_header (sender_field ∷ folded_field ∷ [])
      (sender_field-IsField, (folded_field-IsField, tt)) (refl, (refl, tt))
