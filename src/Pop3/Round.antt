-- ===== src/Pop3/Round.antt =====
-- The commands that a round of `scan` writes.
use mailfilter.Base.{
  ℕ, [], ◌∷◌, none, some, ◌+◌, ◌≡◌, refl, Bool, true, List, ◌++◌, arith, if◌then◌else◌, Bool-cases,
  inl, inr, not, ◌&&◌, length, ◌==◌, false,
}
use mailfilter.Text.{Text, codes, int_to_string}
use mailfilter.Pop3.{
  Connection, send, Session, HeaderParser, show_header, judge, reply, examine, parse_reply,
  remove_msg, print_all, invoke_msg_parser,
}
use mailfilter.Feedback.{message, error}
use mailfilter.Base.Int.{eq_ℤ, pos, ℤ, ltb_ℤ}
use mailfilter.Filter.{Regex}
use mailfilter.Preferences.{Preferences}
use mailfilter.Header.{Header, new_header}
use mailfilter.Weeder.{is_weed}
use mailfilter.Base.Result.{ok, Result, exit, throw}
use mailfilter.Pop3.Replies.{atoi, behind_last_blank, below_first_line}
use mailfilter.Pop3.History.{
  Adds-refl, Adds, Adds-printed, Adds-trans, Adds-stored, send-Adds, Adds-write_call,
}

abbrev simulated : Text
simulated = codes "Debugging: Simulating DELE command."

abbrev cannot_store : Text
cannot_store = codes "Could not write headers to separate file."

abbrev pub list_command : ℕ → Text
list_command i = codes "LIST " ++ int_to_string (pos i) ++ codes "\r\n"

abbrev pub top_command : ℕ → Text
top_command i = codes "TOP " ++ int_to_string (pos i) ++ codes " 0\r\n"

abbrev pub dele_command : ℕ → Text
dele_command i = codes "DELE " ++ int_to_string (pos i) ++ codes "\r\n"

-- The commands for one message, and for the messages from `i` on, where `d` says whether the
-- message is deleted.
abbrev pub round_commands : ℕ → Bool → List Text
round_commands i d = list_command i ∷ top_command i ∷ (if d then dele_command i ∷ [] else [])

abbrev pub all_commands : ℕ → List Bool → List Text
all_commands i [] = []
all_commands i (d ∷ ds) = round_commands i d ++ all_commands (i + 1) ds

module _ {S : Type 0} (conn : Connection S) where
  -- The session when the header of message `i` has arrived, and the size that the server gave.
  abbrev pub listed : ℕ → Session S → Session S
  listed i s = (send conn false (list_command i) s).1

  abbrev pub topped : ℕ → Session S → Session S
  topped i s = (send conn true (top_command i) (listed i s)).1

  abbrev pub size_of : ℕ → Session S → ℤ
  size_of i s = atoi (behind_last_blank (reply conn (listed i s)))

module _ {R S : Type 0} (rx : Regex R) (signed : Bool) (rfc : HeaderParser) (conn : Connection S)
    (can_store : Bool) (p : Preferences R) where
  show_header-Adds : (s : Session S) → Adds s.events (show_header conn can_store p s).events [] 0
  unfolding show_header
  show_header-Adds s = elim (Bool-cases (length p.headers_file_name == 0)) [
    | inl k ↦ rw k (Adds-refl s.events)
    | inr k ↦ elim (Bool-cases can_store) [
      | inl m ↦ rw (k, m) (Adds-stored s.events (reply conn s))
      | inr m ↦ rw (k, m) (Adds-printed s.events (error cannot_store (pos 1) ∷ []))
    ]
  ]

  remove_msg-Adds :
      (i : ℕ) (s : Session S)
      → Adds s.events
          (remove_msg conn p i s).1.events
          (if not p.test then dele_command i ∷ [] else [])
          0
  unfolding remove_msg
  remove_msg-Adds i s = elim (Bool-cases p.test) [
    | inl t ↦ rw t (Adds-printed s.events (message simulated (pos 6) ∷ []))
    | inr t ↦ rw t (Adds-write_call s.events (dele_command i))
  ]

  abbrev pub is_deleted : Session S → Header → Bool
  is_deleted s h = eq_ℤ (is_weed rx p s.weeder (some h)).0 (pos 1) && not p.test

  judge-Adds :
      (i : ℕ) (h : Header) (s : Session S)
      → Adds s.events
          (judge rx conn p i h s).events
          (if is_deleted s h then dele_command i ∷ [] else [])
          0
  unfolding judge
  judge-Adds i h s =
      let (_, ms, w) = is_weed rx p s.weeder (some h) in
      let told = Adds-printed s.events ms in
      elim (Bool-cases (eq_ℤ (is_weed rx p s.weeder (some h)).0 (pos 1))) [
        | inl k ↦
            rw k (Adds-trans told (remove_msg-Adds i (print_all (record s { weeder = w }) ms)))
        | inr k ↦ rw k told
      ]

  -- The header that is read from a reply.
  abbrev pub header_of : ℤ → Session S → Header
  header_of size s =
      (invoke_msg_parser signed rfc p (record new_header { msg_size = size })
        (below_first_line (reply conn s))).0

  parse_reply_ending :
      (i : ℕ) (size : ℤ) (s : Session S) (ending : Result ℤ)
      → (invoke_msg_parser signed rfc p
          (record new_header { msg_size = size })
          (below_first_line (reply conn s))).2
        ≡ ending
      → (parse_reply rx signed rfc conn p i size s).0 ≡ ok none
      → Adds s.events
          (parse_reply rx signed rfc conn p i size s).1.events
          (if is_deleted s (header_of size s) then dele_command i ∷ [] else [])
          0
  unfolding parse_reply
  parse_reply_ending i size s (exit c m) e h = absurd (ground (arith, e, h))
  parse_reply_ending i size s (throw m) e h = absurd (ground (arith, e, h))
  parse_reply_ending i size s (ok n) e h = elim (Bool-cases (ltb_ℤ n (pos 0))) [
    | inl k ↦ absurd (ground (arith, e, h, k))
    | inr k ↦
        let (_, ms, _) =
          invoke_msg_parser signed rfc p (record new_header { msg_size = size })
            (below_first_line (reply conn s)) in
        rw (parse_reply, e, k)
          (Adds-trans (Adds-printed s.events ms) (judge-Adds i (header_of size s) (print_all s ms)))
  ]

  parse_reply-Adds :
      (i : ℕ) (size : ℤ) (s : Session S)
      → (parse_reply rx signed rfc conn p i size s).0 ≡ ok none
      → Adds s.events
          (parse_reply rx signed rfc conn p i size s).1.events
          (if is_deleted s (header_of size s) then dele_command i ∷ [] else [])
          0
  parse_reply-Adds i size s h = parse_reply_ending i size s _ refl h

  abbrev pub shown : ℕ → Session S → Session S
  shown i s = show_header conn can_store p (topped conn i s)

  abbrev pub deletes : ℕ → Session S → Bool
  deletes i s = is_deleted (shown i s) (header_of (size_of conn i s) (shown i s))

  -- A round of the loop that goes on to the next message.
  pub examine-Adds :
      (i : ℕ) (s : Session S)
      → (examine rx signed rfc conn can_store p i s).0 ≡ ok none
      → Adds s.events
          (examine rx signed rfc conn can_store p i s).1.events
          (round_commands i (deletes i s))
          2
  unfolding examine
  examine-Adds i s h = elim (Bool-cases (send conn false (list_command i) s).0) [
    | inl k ↦ elim (Bool-cases (send conn true (top_command i) (listed conn i s)).0) [
      | inl m ↦
          rw (k, m)
            (Adds-trans (send-Adds conn false (list_command i) s k) (
              Adds-trans (send-Adds conn true (top_command i) (listed conn i s) m) (
                Adds-trans (show_header-Adds (topped conn i s))
                  (parse_reply-Adds i (size_of conn i s) (shown i s) (rw (k, m) at h)))))
      | inr m ↦ absurd (ground (arith, k, m, h))
    ]
    | inr k ↦ absurd (ground (arith, k, h))
  ]
