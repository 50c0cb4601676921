-- ===== src/Pop3/TestMode.antt =====
-- Test mode: a session writes no DELE, however it ends.
use mailfilter.Base.{
  ℕ, zero, suc, [], ◌∷◌, none, some, length, keep_if, keep_if-append, ◌==◌, Bool-cases, ◌+◌, ◌≡◌,
  refl, ap, ◌∙◌, inl, inr, Bool, true, false, ◌&&◌, Option, List, ◌++◌, map, append-nil,
}
use mailfilter.Base.Int.{ltb_ℤ, eq_ℤ, signed, ℤ, pos, negsuc}
use mailfilter.Base.Result.{Result, exit, ok, throw}
use mailfilter.Text.{Text, codes, int_to_string}
use mailfilter.Filter.{Regex}
use mailfilter.Pop3.{
  Event, send, Session, complain, HeaderParser, Connection, printed, write_call, read, judge,
  rounds, scan, parse_reply, show_header, examine, stored, status, invoke_msg_parser, remove_msg,
  reply, print_all,
}
use mailfilter.Pop3.History.{writes, writes-append, no_writes, number_of}
use mailfilter.Feedback.{Message, error, message}
use mailfilter.Preferences.{Preferences}
use mailfilter.Header.{Header, new_header}
use mailfilter.Pop3.Round.{list_command, top_command, listed, topped, size_of}
use mailfilter.Weeder.{is_weed}
use mailfilter.Pop3.Replies.{below_first_line}

abbrev pub is_prefix : Text → Text → Bool
is_prefix [] t = true
is_prefix (c ∷ s) [] = false
is_prefix (c ∷ s) (d ∷ t) = c == d && is_prefix s t

-- The commands in a history that begin with `DELE`.
abbrev pub is_deletion : Text → Bool
is_deletion c = is_prefix (codes "DELE") c

abbrev pub deletions : List Event → List Text
deletions es = keep_if is_deletion (writes es)

record Quiet (es fs : List Event) : Type 0 where
  pub none_new : deletions fs ≡ deletions es

Quiet-append : (es fs : List Event) → deletions fs ≡ [] → Quiet es (es ++ fs)
Quiet-append es fs h = record {
  none_new =
      ap (keep_if is_deletion) (writes-append es fs)
      ∙ keep_if-append is_deletion (writes es) (writes fs)
      ∙ ap (λ l. deletions es ++ l) h
      ∙ append-nil (deletions es);
}

Quiet-trans : {es fs gs : List Event} → Quiet es fs → Quiet fs gs → Quiet es gs
Quiet-trans a b = record { none_new = b.none_new ∙ a.none_new }

Quiet-refl : (es : List Event) → Quiet es es
Quiet-refl es = record { none_new = refl }

Quiet-printed : (es : List Event) (ms : List Message) → Quiet es (es ++ map printed ms)
Quiet-printed es ms = Quiet-append es (map printed ms) (ap (keep_if is_deletion) (no_writes ms))

complain-Quiet : {S : Type 0} (s : Session S) (msg : Text) → Quiet s.events (complain s msg).events
complain-Quiet s msg = Quiet-printed s.events (error msg (pos 1) ∷ [])

send-Quiet :
    {S : Type 0} (conn : Connection S) (b : Bool) (c : Text) (s : Session S)
    → is_deletion c ≡ false
    → Quiet s.events (send conn b c s).1.events
unfolding send
send-Quiet conn b c s h =
    let one = Quiet-append s.events (write_call c ∷ []) (rw h refl) in
    elim (Bool-cases (eq_ℤ (conn.c_write c s.net).0 (negsuc 0))) [
      | inl k ↦ rw k one
      | inr k ↦
          rw k (Quiet-trans one (Quiet-append (s.events ++ write_call c ∷ []) (read b ∷ []) refl))
    ]

module _ {R S : Type 0} (rx : Regex R) (signed : Bool) (rfc : HeaderParser) (conn : Connection S)
    (can_store : Bool) (p : Preferences R) (on : p.test ≡ true) where
  show_header-Quiet : (s : Session S) → Quiet s.events (show_header conn can_store p s).events
  unfolding show_header
  show_header-Quiet s = elim (Bool-cases (length p.headers_file_name == 0)) [
    | inl k ↦ rw k (Quiet-refl s.events)
    | inr k ↦ elim (Bool-cases can_store) [
      | inl m ↦ rw (k, m) (Quiet-append s.events (stored (reply conn s) ∷ []) refl)
      | inr m ↦ rw (k, m) (complain-Quiet s (codes "Could not write headers to separate file."))
    ]
  ]

  remove_msg-Quiet : (i : ℕ) (s : Session S) → Quiet s.events (remove_msg conn p i s).1.events
  unfolding remove_msg
  remove_msg-Quiet i s =
      let simulated = message (codes "Debugging: Simulating DELE command.") (pos 6) in
      rw on (Quiet-printed s.events (simulated ∷ []))

  judge-Quiet : (i : ℕ) (h : Header) (s : Session S) → Quiet s.events (judge rx conn p i h s).events
  unfolding judge
  judge-Quiet i h s =
      let (_, ms, w) = is_weed rx p s.weeder (some h) in
      let told = Quiet-printed s.events ms in
      elim (Bool-cases (eq_ℤ (is_weed rx p s.weeder (some h)).0 (pos 1))) [
        | inl k ↦
            rw k (Quiet-trans told (remove_msg-Quiet i (print_all (record s { weeder = w }) ms)))
        | inr k ↦ rw k told
      ]

  abbrev parsed : ℤ → Session S → Header × List Message × Result ℤ
  parsed size s =
      invoke_msg_parser signed rfc p (record new_header { msg_size = size })
        (below_first_line (reply conn s))

  abbrev parse_failure : ℕ → Text
  parse_failure i =
      codes "Parsing the header of message " ++ int_to_string (pos i) ++ codes " failed."

  parse_reply-Quiet :
      (i : ℕ) (size : ℤ) (s : Session S) (ending : Result ℤ)
      → (parsed size s).2 ≡ ending
      → Quiet s.events (parse_reply rx signed rfc conn p i size s).1.events
  unfolding parse_reply
  parse_reply-Quiet i size s (exit c m) e =
      rw (parse_reply, e) (Quiet-printed s.events (parsed size s).1)
  parse_reply-Quiet i size s (throw m) e =
      rw (parse_reply, e) (Quiet-printed s.events (parsed size s).1)
  parse_reply-Quiet i size s (ok n) e =
      let (h, ms, _) = parsed size s in
      let told = Quiet-printed s.events ms in
      elim (Bool-cases (ltb_ℤ n (pos 0))) [
        | inl k ↦
            rw (parse_reply, e, k)
              (Quiet-trans told (complain-Quiet (print_all s ms) (parse_failure i)))
        | inr k ↦ rw (parse_reply, e, k) (Quiet-trans told (judge-Quiet i h (print_all s ms)))
      ]

  examine-Quiet :
      (i : ℕ) (s : Session S) → Quiet s.events (examine rx signed rfc conn can_store p i s).1.events
  unfolding examine
  examine-Quiet i s =
      let first = send-Quiet conn false (list_command i) s refl in
      let second =
        Quiet-trans first (send-Quiet conn true (top_command i) (listed conn i s) refl) in
      elim (Bool-cases (send conn false (list_command i) s).0) [
        | inl k ↦ elim (Bool-cases (send conn true (top_command i) (listed conn i s)).0) [
          | inl m ↦
              rw (k, m)
                (Quiet-trans second (
                  Quiet-trans (show_header-Quiet (topped conn i s)) (
                    parse_reply-Quiet i (size_of conn i s)
                      (show_header conn can_store p (topped conn i s)) _ refl)))
          | inr m ↦
              rw (k, m)
                (Quiet-trans second (
                  complain-Quiet (topped conn i s)
                    (codes "Error occurred while sending TOP to server.")))
        ]
        | inr k ↦ rw k (
            Quiet-trans first (
              complain-Quiet (listed conn i s)
                (codes "Error occurred while sending LIST to server.")))
      ]

  rounds_ending-Quiet :
      (n i : ℕ) (s : Session S) (ending : Result (Option ℤ))
      → (examine rx signed rfc conn can_store p i s).0 ≡ ending
      → ((t : Session S)
          → Quiet t.events (rounds rx signed rfc conn can_store p n (i + 1) t).1.events)
      → Quiet s.events (rounds rx signed rfc conn can_store p (suc n) i s).1.events
  unfolding rounds
  rounds_ending-Quiet n i s (ok none) e ih =
      rw (rounds, e)
        (Quiet-trans (examine-Quiet i s) (ih (examine rx signed rfc conn can_store p i s).1))
  rounds_ending-Quiet n i s (ok (some code)) e ih = rw (rounds, e) (examine-Quiet i s)
  rounds_ending-Quiet n i s (exit c m) e ih = rw (rounds, e) (examine-Quiet i s)
  rounds_ending-Quiet n i s (throw m) e ih = rw (rounds, e) (examine-Quiet i s)

  rounds-Quiet :
      (n i : ℕ) (s : Session S)
      → Quiet s.events (rounds rx signed rfc conn can_store p n i s).1.events
  unfolding rounds
  rounds-Quiet zero i s = Quiet-refl s.events
  rounds-Quiet (suc n) i s = rounds_ending-Quiet n i s _ refl (rounds-Quiet n (i + 1))

  scan-Quiet : (s : Session S) → Quiet s.events (scan rx signed rfc conn can_store p s).1.events
  unfolding scan status
  scan-Quiet s =
      let first = send-Quiet conn false (codes "STAT\r\n") s refl in
      let s1 = (status conn s).1 in
      elim (Bool-cases (ltb_ℤ (status conn s).0 (pos 0))) [
        | inl k ↦
            rw (scan, k)
              (Quiet-trans first
                (complain-Quiet s1 (codes "Error occurred while sending STAT to server.")))
        | inr k ↦ rw (scan, k) (Quiet-trans first (rounds-Quiet (number_of conn s) 1 s1))
      ]

-- In test mode `scan` writes no command that begins with DELE, whatever the server answers, however
-- the scan ends and whatever the rules say.
pub scan_test_mode :
    {R S : Type 0} (rx : Regex R) (signed : Bool) (rfc : HeaderParser) (conn : Connection S)
    (can_store : Bool) (p : Preferences R)
    → p.test ≡ true
    → (s : Session S)
    → deletions (scan rx signed rfc conn can_store p s).1.events ≡ deletions s.events
scan_test_mode rx signed rfc conn can_store p on s =
    (scan-Quiet rx signed rfc conn can_store p on s).none_new
