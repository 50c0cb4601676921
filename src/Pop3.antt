-- ===== src/Pop3.antt =====
-- src/pop3.cc and src/pop3.hh: a session with a POP3 server. The network is a `Connection` of
-- src/connection.hh, whose state is `S`, and the scanner and parser of a message header are a
-- parameter. What a session writes, reads, prints and stores is recorded in order.
pub mod Replies
pub mod History
pub mod Round
pub mod Transcript
pub mod TestMode
pub mod Login
use mailfilter.Base.{
  ℕ, zero, suc, [], ◌∷◌, none, some, length, ◌==◌, if◌then◌else◌, ◌+◌, Bool, true, false, not, ◌&&◌,
  Option, List, ◌++◌, map,
}
use mailfilter.Base.Int.{pos_part, ltb_ℤ, eq_ℤ, signed, ℤ, pos, negsuc}
use mailfilter.Base.Result.{die, Result, ok, exit, throw}
use mailfilter.Text.{Text, codes, int_to_string}
use mailfilter.Weeder.Duplicates.{Weeder}
use mailfilter.Pop3.Replies.{atoi, second_word, behind_last_blank, below_first_line}
use mailfilter.Feedback.{error, Message, message}
use mailfilter.Header.{Entry, byte, new_header, Header, add_entries}
use mailfilter.Filter.{Regex}
use mailfilter.Preferences.{Preferences}
use mailfilter.Weeder.Report.{gen_failure}
use mailfilter.Weeder.{is_weed}

-- The operations of src/connection.hh: `c_open host port time_out protocol` and so on.
pub record Connection (S : Type 0) : Type 0 where
  pub c_open : Text → ℕ → ℕ → ℕ → S → ℤ × S
  pub c_close : S → ℤ × S
  pub c_read : Bool → S → ℤ × S
  pub c_write : Text → S → ℤ × S
  pub c_reply : S → Option Text

-- The pairs of a tag and a body that the parser reduces, in order, and whether it accepts its
-- input behind them.
abbrev pub HeaderParser : Type 0
HeaderParser = Text → List Entry × Bool

-- A message is printed; `c_write` is called with a command, whether it takes it or returns -1;
-- `c_read` is called; a header is stored; the connection is closed.
pub data Event : Type 0 where
  printed : Message → Event
  write_call : Text → Event
  read : Bool → Event
  stored : Text → Event
  closed : Event

pub record Session (S : Type 0) : Type 0 where
  pub net : S
  pub weeder : Weeder
  pub events : List Event

-- MEM_FAILURE_FLAG
abbrev pub mem_failure : ℤ
mem_failure = negsuc 1

module _ {S : Type 0} where
  abbrev pub record_event : Session S → Event → Session S
  record_event s e = record s { events = s.events ++ e ∷ [] }

  abbrev pub print_all : Session S → List Message → Session S
  print_all s ms = record s { events = s.events ++ map printed ms }

  abbrev pub complain : Session S → Text → Session S
  complain s msg = record_event s (printed (error msg (pos 1)))

module _ {S : Type 0} (conn : Connection S) where
  -- `c_write (cmd) == -1`; the call is recorded in either case.
  abbrev pub write_fails : Text → Session S → Bool × Session S
  write_fails cmd s =
      let (bytes, net) = conn.c_write cmd s.net in
      (eq_ℤ bytes (negsuc 0), record_event (record s { net = net }) (write_call cmd))

  -- A reply that is there and begins with `+`.
  abbrev pub is_positive : Option Text → Bool
  is_positive none = false
  is_positive (some r) = byte r 0 == b'+'

  -- REPLY_OK, and HEADER_OK where `read_header` is true.
  abbrev pub reply_ok : Bool → Session S → Bool × Session S
  reply_ok read_header s =
      let (bytes, net) = conn.c_read read_header s.net in
      (
        ltb_ℤ (pos 0) bytes && is_positive (conn.c_reply net),
        record_event (record s { net = net }) (read read_header),
      )

  -- `!(c_write (cmd) == -1 || !REPLY_OK)`
  unfoldable pub send : Bool → Text → Session S → Bool × Session S
  send read_header cmd s =
      let (failed, s1) = write_fails cmd s in
      let answered = reply_ok read_header s1 in if failed then (false, s1) else answered

  abbrev pub reply : Session S → Text
  reply s = elim (conn.c_reply s.net) [ none ↦ [] | some r ↦ r ]

  -- POP3 :: login, with the user's name and password.
  unfoldable pub login : Text → Text → Session S → Bool × Session S
  login usr pass s =
      let (bytes, net) = conn.c_read false s.net in
      let s0 = record_event (record s { net = net }) (read false) in
      let (named, s1) = send false (codes "USER " ++ usr ++ codes "\r\n") s0 in
      let (passed, s2) = send false (codes "PASS " ++ pass ++ codes "\r\n") s1 in
      if eq_ℤ bytes (negsuc 0)
      then (false, s0)
      else if not named
      then (false, complain s1 (codes "Error occurred while sending username to server."))
      else if not passed
      then (false, complain s2 (codes "Error occurred while sending password to server."))
      else (true, s2)

  -- POP3 :: status
  unfoldable pub status : Session S → ℤ × Session S
  status s =
      let (answered, s1) = send false (codes "STAT\r\n") s in
      (if answered then atoi (second_word (reply s1)) else gen_failure, s1)

  -- POP3 :: logout
  unfoldable pub logout : Session S → Bool × Session S
  logout s = let (failed, s1) = write_fails (codes "QUIT\r\n") s in (not failed, s1)

module _ {R S : Type 0} (conn : Connection S) (p : Preferences R) where
  -- POP3 :: remove_msg
  unfoldable pub remove_msg : ℕ → Session S → ℤ × Session S
  remove_msg num s =
      let (failed, s1) =
        write_fails conn (codes "DELE " ++ int_to_string (pos num) ++ codes "\r\n") s in
      if p.test
      then (
        pos 0,
        record_event s (printed (message (codes "Debugging: Simulating DELE command.") (pos 6))),
      )
      else (if failed then gen_failure else pos 0, s1)

module _ {R : Type 0} (signed : Bool) (rfc : HeaderParser) (p : Preferences R) where
  -- POP3 :: invoke_msg_parser; the error routine of src/rfc822.yy, whose text is left out, exits.
  unfoldable pub invoke_msg_parser : Header → Text → Header × List Message × Result ℤ
  invoke_msg_parser h text =
      let (es, accepted) = rfc text in
      let (h', ms, ending) = add_entries signed p h es in
      (
        h',
        ms,
        elim ending [
          | ok _ ↦ if accepted then ok (pos 0) else exit (negsuc 0) []
          | exit c m ↦ exit c m
          | throw m ↦ ok mem_failure
        ],
      )

module _ {R S : Type 0} (conn : Connection S) (can_store : Bool) (p : Preferences R) where
  -- SHOW_HEADERS; whether the file can be written is an argument.
  unfoldable pub show_header : Session S → Session S
  show_header s =
      if length p.headers_file_name == 0
      then s
      else if can_store
      then record_event s (stored (reply conn s))
      else complain s (codes "Could not write headers to separate file.")

module _ {R S : Type 0} (rx : Regex R) (conn : Connection S) (p : Preferences R) where
  -- What follows on the header that was read.
  unfoldable pub judge : ℕ → Header → Session S → Session S
  judge i h s =
      let (verdict, ms, w) = is_weed rx p s.weeder (some h) in
      let s1 = print_all (record s { weeder = w }) ms in
      let (_, s2) = remove_msg conn p i s1 in if eq_ℤ verdict (pos 1) then s2 else s1

module _ {R S : Type 0} (rx : Regex R) (signed : Bool) (rfc : HeaderParser) (conn : Connection S)
    (p : Preferences R) where
  -- The reply to TOP is parsed, and the round goes on if that succeeds.
  unfoldable pub parse_reply : ℕ → ℤ → Session S → Result (Option ℤ) × Session S
  parse_reply i size s =
      let (h, ms, ending) =
        invoke_msg_parser signed rfc p (record new_header { msg_size = size })
          (below_first_line (reply conn s)) in
      let s1 = print_all s ms in
      let failure =
        codes "Parsing the header of message " ++ int_to_string (pos i) ++ codes " failed." in
      elim ending [
        | ok n ↦
            if ltb_ℤ n (pos 0)
            then (ok (some gen_failure), complain s1 failure)
            else (ok none, judge rx conn p i h s1)
        | exit c m ↦ (exit c m, s1)
        | throw m ↦ (throw m, s1)
      ]

module _ {R S : Type 0} (rx : Regex R) (signed : Bool) (rfc : HeaderParser) (conn : Connection S)
    (can_store : Bool) (p : Preferences R) where
  -- One round of the loop of `scan`: `some` is an early return.
  unfoldable pub examine : ℕ → Session S → Result (Option ℤ) × Session S
  examine i s =
      let number = int_to_string (pos i) in
      let (listed, s1) = send conn false (codes "LIST " ++ number ++ codes "\r\n") s in
      let (topped, s2) = send conn true (codes "TOP " ++ number ++ codes " 0\r\n") s1 in
      if not listed
      then (
        ok (some gen_failure),
        complain s1 (codes "Error occurred while sending LIST to server."),
      )
      else if not topped
      then (
        ok (some gen_failure),
        complain s2 (codes "Error occurred while sending TOP to server."),
      )
      else parse_reply rx signed rfc conn p i (atoi (behind_last_blank (reply conn s1)))
          (show_header conn can_store p s2)

  unfoldable pub rounds : ℕ → ℕ → Session S → Result ℤ × Session S
  rounds zero i s = (ok (pos 0), s)
  rounds (suc n) i s =
      let (ending, s1) = examine i s in
      let rest = rounds n (i + 1) s1 in
      elim ending [
        | ok none ↦ rest
        | ok (some code) ↦ (ok code, s1)
        | exit c m ↦ (exit c m, s1)
        | throw m ↦ (throw m, s1)
      ]

  -- POP3 :: scan
  unfoldable pub scan : Session S → Result ℤ × Session S
  scan s =
      let (num_messages, s1) = status conn s in
      if ltb_ℤ num_messages (pos 0)
      then (ok gen_failure, complain s1 (codes "Error occurred while sending STAT to server."))
      else rounds (pos_part num_messages) 1 s1
