-- ===== src/Feedback/Log.antt =====
-- What the log file and the terminal hold after a sequence of messages.
use mailfilter.Base.Int.{ltb_ℤ, ℤ}
use mailfilter.Base.{
  keep_if, if◌then◌else◌, ◌≡◌, Bool, true, false, not, some, List, [], ◌∷◌, ◌++◌, map, Bool-cases,
  refl, ap, inl, inr, Option, none, append-nil, append_assoc, sym, ◌∙◌, arith,
}
use mailfilter.Text.{Text, codes}
use mailfilter.Feedback.{append_line, Feedback, Message, print_msg, message, print_err, error}

-- The line of a message, and whether it is shown at a level of verbosity.
abbrev pub line_of : Text → Message → Text
line_of ts (message msg level) = ts ++ codes " mailfilter: " ++ msg
line_of ts (error msg level) = ts ++ codes " mailfilter: Error: " ++ msg

abbrev pub is_shown : ℤ → Message → Bool
is_shown verbosity (message msg level) = not (ltb_ℤ verbosity level)
is_shown verbosity (error msg level) = not (ltb_ℤ verbosity level)

abbrev pub is_error : Message → Bool
is_error (message msg level) = false
is_error (error msg level) = true

-- The calls of `print_msg` and `print_err` for the messages, in order; `ts` is the time stamp, which
-- stays the same.
abbrev pub print_one : ℤ → Text → Feedback → Message → Feedback
print_one verbosity ts fb (message msg level) = (print_msg verbosity ts fb msg level).1
print_one verbosity ts fb (error msg level) = (print_err verbosity ts fb msg level).1

abbrev pub print_each : ℤ → Text → Feedback → List Message → Feedback
print_each verbosity ts fb [] = fb
print_each verbosity ts fb (m ∷ ms) = print_each verbosity ts (print_one verbosity ts fb m) ms

-- The lines of the messages that are shown.
abbrev pub shown_lines : ℤ → Text → List Message → List Text
shown_lines verbosity ts ms = map (line_of ts) (keep_if (is_shown verbosity) ms)

-- The lines that go to one of the two streams.
abbrev pub stream_lines : Bool → ℤ → Text → List Message → List Text
stream_lines errors verbosity ts ms =
    shown_lines verbosity ts (keep_if (λ m. if errors then is_error m else not (is_error m)) ms)

-- A file behind which lines are written, if it is open.
abbrev pub with_lines : Option (List Text) → List Text → Option (List Text)
with_lines none lines = none
with_lines (some old) lines = some (old ++ lines)

append_line-with_lines :
    (file : Option (List Text)) (line : Text) → append_line file line ≡ with_lines file (line ∷ [])
append_line-with_lines none line = refl
append_line-with_lines (some old) line = refl

with_lines-nil : (file : Option (List Text)) → with_lines file [] ≡ file
with_lines-nil none = refl
with_lines-nil (some old) = ap some (append-nil old)

with_lines-append :
    (file : Option (List Text)) (xs ys : List Text)
    → with_lines (with_lines file xs) ys ≡ with_lines file (xs ++ ys)
with_lines-append none xs ys = refl
with_lines-append (some old) xs ys = ap some (append_assoc old xs ys)

module _ (verbosity : ℤ) (ts : Text) where
  -- What a list of messages adds to the streams and to the file.
  abbrev pub with_messages : Feedback → List Message → Feedback
  with_messages fb ms = record fb {
    cout = fb.cout ++ stream_lines false verbosity ts ms;
    cerr = fb.cerr ++ stream_lines true verbosity ts ms;
    log_file = with_lines fb.log_file (shown_lines verbosity ts ms);
  }

  with_messages-nil : (fb : Feedback) → with_messages fb [] ≡ fb
  with_messages-nil fb =
      rw (append-nil fb.cout, append-nil fb.cerr, with_lines-nil fb.log_file) refl

  print_one-with_messages :
      (fb : Feedback) (m : Message) → print_one verbosity ts fb m ≡ with_messages fb (m ∷ [])
  unfolding print_msg print_err
  print_one-with_messages fb (message msg level) = elim (Bool-cases (ltb_ℤ verbosity level)) [
    | inl k ↦ rw (print_one, k) (sym (with_messages-nil fb))
    | inr k ↦ rw (print_one, k, append_line-with_lines fb.log_file, append-nil fb.cerr) refl
  ]
  print_one-with_messages fb (error msg level) = elim (Bool-cases (ltb_ℤ verbosity level)) [
    | inl k ↦ rw (print_one, k) (sym (with_messages-nil fb))
    | inr k ↦ rw (print_one, k, append_line-with_lines fb.log_file, append-nil fb.cout) refl
  ]

  shown_lines-cons :
      (m : Message) (ms : List Message)
      → shown_lines verbosity ts (m ∷ ms)
        ≡ shown_lines verbosity ts (m ∷ []) ++ shown_lines verbosity ts ms
  shown_lines-cons m ms = ground arith

  stream_lines-cons :
      (errors : Bool) (m : Message) (ms : List Message)
      → stream_lines errors verbosity ts (m ∷ ms)
        ≡ stream_lines errors verbosity ts (m ∷ []) ++ stream_lines errors verbosity ts ms
  stream_lines-cons errors m ms = ground arith

  stream-cons :
      (errors : Bool) (old : List Text) (m : Message) (ms : List Message)
      → (old ++ stream_lines errors verbosity ts (m ∷ [])) ++ stream_lines errors verbosity ts ms
        ≡ old ++ stream_lines errors verbosity ts (m ∷ ms)
  stream-cons errors old m ms =
      append_assoc old (stream_lines errors verbosity ts (m ∷ []))
        (stream_lines errors verbosity ts ms)
      ∙ ap (λ x. old ++ x) (sym (stream_lines-cons errors m ms))

  log-cons :
      (file : Option (List Text)) (m : Message) (ms : List Message)
      → with_lines
          (with_lines file (shown_lines verbosity ts (m ∷ [])))
          (shown_lines verbosity ts ms)
        ≡ with_lines file (shown_lines verbosity ts (m ∷ ms))
  log-cons file m ms =
      with_lines-append file (shown_lines verbosity ts (m ∷ [])) (shown_lines verbosity ts ms)
      ∙ ap (with_lines file) (sym (shown_lines-cons m ms))

  with_messages-cons :
      (fb : Feedback) (m : Message) (ms : List Message)
      → with_messages (with_messages fb (m ∷ [])) ms ≡ with_messages fb (m ∷ ms)
  with_messages-cons fb m ms =
      let first = with_messages (with_messages fb (m ∷ [])) ms in
      ap (λ x. record first { cout = x }) (stream-cons false fb.cout m ms)
      ∙ ap
          (λ x. record first {
            cout = fb.cout ++ stream_lines false verbosity ts (m ∷ ms);
            cerr = x;
          })
          (stream-cons true fb.cerr m ms)
      ∙ ap (λ x. record (with_messages fb (m ∷ ms)) { log_file = x }) (log-cons fb.log_file m ms)

  -- After any messages, the log file, if it is open, has got the lines of those whose level is at most
  -- the verbosity, in order; standard output has got the lines of the messages among them, and
  -- standard error those of the errors; and a file that is not open stays so.
  pub print_each_lem :
      (fb : Feedback) (ms : List Message) → print_each verbosity ts fb ms ≡ with_messages fb ms
  print_each_lem fb [] = sym (with_messages-nil fb)
  print_each_lem fb (m ∷ ms) =
      rw (print_one-with_messages fb m)
        (print_each_lem (with_messages fb (m ∷ [])) ms ∙ with_messages-cons fb m ms)
