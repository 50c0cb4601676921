-- ===== src/Socket/Arrival.antt =====
-- What `c_read` makes of the bytes that arrive on a connection without encryption.
use mailfilter.Base.{
  ℕ, [], ◌∷◌, length, zero, suc, ◌<◌, ◌≡◌, Bool, true, false, ◌&&◌, some, List, ◌++◌, arith,
  length-append, append-nil, append_assoc, refl,
}
use mailfilter.Base.Int.{ltb_ℤ, ℤ, pos, eq_ℤ, negsuc}
use mailfilter.Text.{Text, until_nul}
use mailfilter.Header.{byte-append}
use mailfilter.Socket.Read.{
  c_read, c_reply, accept_input, take_in, lacks_dot, goes_on, read_loop, finished, read_once, finds,
  fetch_completed, out_of_fuel,
}
use mailfilter.Socket.{System, Socket}
use mathlib.Core.Path.{subst}

abbrev pub flatten : List Text → Text
flatten [] = []
flatten (c ∷ cs) = c ++ flatten cs

-- From the state `n` on, `recv` delivers the chunks in order, and then no byte, in the state `last`.
-- A chunk is not empty and has no NUL.
abbrev pub Sends : {N : Type 0} → System N → ℤ → N → List Text → N → Type 0
Sends sys sd n [] last = (ltb_ℤ (pos 0) (sys.recv sd n).0 ≡ false) × ((sys.recv sd n).2 ≡ last)
Sends sys sd n (c ∷ cs) last =
    ((sys.recv sd n).0 ≡ pos (length c))
    × ((sys.recv sd n).1 ≡ c)
    × (0 < length c)
    × (until_nul c ≡ c)
    × Sends sys sd (sys.recv sd n).2 cs last

-- What the loop wants at the end of a header is a full stop, a carriage return and a line feed, on
-- whatever line the full stop stands; any other reply may end anywhere.
abbrev pub EndsReply : Bool → Text → Type 0
EndsReply false input = Unit
EndsReply true input = (body : Text) × (input ≡ body ++ b'.' ∷ 13 ∷ 10 ∷ [])

take_in_chunk :
    (bytes : ℤ) (buffer c input : Text)
    → bytes ≡ pos (length c)
    → buffer ≡ c
    → 0 < length c
    → until_nul c ≡ c
    → take_in bytes buffer input ≡ input ++ c
unfolding take_in
take_in_chunk bytes buffer c [] count got h e = ground (arith, e)
take_in_chunk bytes buffer c (d ∷ input) count got h e = ground arith

take_in_none :
    (bytes : ℤ) (buffer input : Text)
    → ltb_ℤ (pos 0) bytes ≡ false
    → take_in bytes buffer input ≡ input
unfolding take_in
take_in_none bytes buffer input h = rw h

goes_on_more :
    (read_header : Bool) (bytes : ℤ) (c input : Text)
    → bytes ≡ pos (length c)
    → 0 < length c
    → goes_on read_header bytes input ≡ some true
unfolding goes_on
goes_on_more read_header bytes c input count h = ground arith

lacks_dot-dot : (body : Text) → lacks_dot (body ++ b'.' ∷ 13 ∷ 10 ∷ []) ≡ some false
unfolding lacks_dot
lacks_dot-dot body =
    let tail : Text = b'.' ∷ 13 ∷ 10 ∷ [] in
    ground (
      arith,
      length-append body tail,
      byte-append body tail 0,
      byte-append body tail 1,
      byte-append body tail 2,
    )

-- The loop ends when no byte arrives behind a complete reply.
goes_on_end :
    (read_header : Bool) (bytes : ℤ) (input : Text)
    → ltb_ℤ (pos 0) bytes ≡ false
    → EndsReply read_header input
    → goes_on read_header bytes input ≡ some false
unfolding goes_on
goes_on_end false bytes input h e = rw h
goes_on_end true bytes input h (body, e) = rw (goes_on, h, e, lacks_dot-dot body)

module _ {N : Type 0} (sys : System N) where
  read_once_plain :
      (s : Socket N)
      → (sys.with_ssl && s.ssl_used) ≡ false
      → read_once sys s ≡ (
        some ((sys.recv s.sd s.os).0, (sys.recv s.sd s.os).1),
        record s { os = (sys.recv s.sd s.os).2 },
      )
  unfolding read_once
  read_once_plain s plain = rw plain

  pub read_loop-flatten :
      (cs : List Text) (f : ℕ) (read_header : Bool) (input : Text) (s : Socket N) (last : N)
      → (sys.with_ssl && s.ssl_used) ≡ false
      → Sends sys s.sd s.os cs last
      → length cs < f
      → EndsReply read_header (input ++ flatten cs)
      → read_loop sys f read_header input s
        ≡ (finished (some (input ++ flatten cs)), record s { os = last })
  unfolding read_loop
  read_loop-flatten cs zero read_header input s last plain sent h e = absurd (omega arith)
  read_loop-flatten [] (suc f) read_header input s last plain (none_left, after) h e =
      let (bytes, buffer, _) = sys.recv s.sd s.os in
      let complete = subst (EndsReply read_header) (append-nil input) e in
      rw
        (
          read_loop,
          read_once_plain s plain,
          take_in_none bytes buffer input none_left,
          goes_on_end read_header bytes input none_left complete,
        )
        (rw (
          read_once_plain s plain,
          take_in_none bytes buffer input none_left,
          after,
          append-nil input,
        ))
  read_loop-flatten (c ∷ cs) (suc f) read_header input s last plain
        (count, got, some_left, no_nul, rest) h e =
      let (bytes, buffer, _) = sys.recv s.sd s.os in
      let taken = take_in_chunk bytes buffer c input count got some_left no_nul in
      let more = goes_on_more read_header bytes c (input ++ c) count some_left in
      rw (read_loop, read_once_plain s plain, taken, more)
        (rw (read_once_plain s plain, taken, ← append_assoc input c (flatten cs))
          (read_loop-flatten cs f read_header (input ++ c)
            (record s { os = (sys.recv s.sd s.os).2 }) last plain rest (omega arith)
            (rw (append_assoc input c (flatten cs)) e)))

positive_tests :
    (n : ℤ) → ltb_ℤ (pos 0) n ≡ true → (ltb_ℤ n (pos 0) ≡ false) × (eq_ℤ n (pos 0) ≡ false)
positive_tests n h = ground arith

module _ {N : Type 0} (sys : System N) where
  accept_input-reply :
      (flags : ℤ) (input : Text) (s : Socket N)
      → 0 < length input
      → eq_ℤ (sys.fcntl_set s.sd flags false s.os).0 (negsuc 0) ≡ false
      → ((accept_input sys flags input s).0 ≡ finished (pos (length input)))
        × ((accept_input sys flags input s).1.read_buffer ≡ some input)
  unfolding accept_input
  accept_input-reply flags input s h reset = ground arith

module _ {N : Type 0} (sys : System N) (s : Socket N) where
  -- The flags of the descriptor, and the states of the system during `c_read`.
  abbrev pub flags : ℤ
  flags = (sys.fcntl_get s.sd s.os).0

  abbrev pub nonblocking : ℤ × N
  nonblocking = sys.fcntl_set s.sd flags true (sys.fcntl_get s.sd s.os).1

  abbrev pub waited : ℤ × Bool × N
  waited = sys.select s.sd s.time_out nonblocking.1

  -- The descriptor is set to be read without blocking, and is ready.
  pub record IsReady : Type 0 where
    pub flags_read : eq_ℤ flags (negsuc 0) ≡ false
    pub flags_set : eq_ℤ nonblocking.0 (negsuc 0) ≡ false
    pub one_ready : ltb_ℤ (pos 0) waited.0 ≡ true
    pub is_set : waited.1 ≡ true

  -- `c_read` on a connection without encryption, where the descriptor is ready and its flags can be
  -- set before and behind the loop. If chunks of bytes arrive without NUL, one byte at least, and
  -- then `recv` gives no more, and where a header is asked for the bytes end with a full stop, a
  -- carriage return and a line feed, be the full stop on a line of its own or at the end of a
  -- longer one, then for any fuel above the number of chunks it ends, returns their length, and the
  -- reply is all the bytes in order.
  pub c_read_reply :
      (read_header : Bool) (fuel : ℕ) (cs : List Text) (last : N)
      → IsReady
      → (sys.with_ssl && s.ssl_used) ≡ false
      → Sends sys s.sd waited.2 cs last
      → length cs < fuel
      → 0 < length (flatten cs)
      → EndsReply read_header (flatten cs)
      → eq_ℤ (sys.fcntl_set s.sd flags false last).0 (negsuc 0) ≡ false
      → ((c_read sys fuel read_header s).0 ≡ finished (pos (length (flatten cs))))
        × (c_reply sys (c_read sys fuel read_header s).1 ≡ some (flatten cs))
  unfolding c_read
  c_read_reply read_header fuel cs last ready plain sent enough some_bytes ended reset =
      let done =
        read_loop-flatten sys cs fuel read_header [] (record s { os = waited.2 }) last plain sent
          enough ended in
      let not_negative = positive_tests waited.0 ready.one_ready in
      rw (ready.flags_read, ready.flags_set, not_negative.0, not_negative.1, ready.is_set, done)
        (rw done
          (accept_input-reply sys flags (flatten cs) (record s { os = last }) some_bytes reset))

-- Where the peer has closed the connection, so that `recv` gives no byte and changes nothing from
-- now on, and the header so far is not complete and has a byte that tells so, the loop never ends: it
-- uses up any fuel.
pub read_loop_stuck :
    {N : Type 0} (sys : System N) (input : Text) (s : Socket N)
    → (sys.with_ssl && s.ssl_used) ≡ false
    → ltb_ℤ (pos 0) (sys.recv s.sd s.os).0 ≡ false
    → (sys.recv s.sd s.os).2 ≡ s.os
    → lacks_dot input ≡ some true
    → finds fetch_completed input ≡ false
    → (fuel : ℕ) → (read_loop sys fuel true input s).0 ≡ out_of_fuel
unfolding read_loop
read_loop_stuck sys input s plain closed same open_end no_fetch zero = refl
read_loop_stuck sys input s plain closed same open_end no_fetch (suc fuel) =
    let (bytes, buffer, _) = sys.recv s.sd s.os in
    let kept = take_in_none bytes buffer input closed in
    let again : goes_on true bytes input ≡ some true =
      unfold goes_on in rw (closed, open_end, no_fetch) in
    rw (read_loop, read_once_plain sys s plain, kept, again)
      (rw (read_once_plain sys s plain, kept, same)
        (read_loop_stuck sys input s plain closed same open_end no_fetch fuel))
