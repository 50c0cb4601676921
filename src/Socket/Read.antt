-- ===== src/Socket/Read.antt =====
-- `c_read` of src/socket.cc. Its loop runs on fuel.
use mailfilter.Base.{
  ℕ, [], ◌∷◌, length, ltb, ◌==◌, if◌then◌else◌, zero, suc, ◌-◌, Bool, true, false, not, ◌&&◌, ◌||◌,
  Option, none, some, ◌++◌,
}
use mailfilter.Base.Int.{ltb_ℤ, eq_ℤ, ℤ, pos, negsuc}
use mailfilter.Text.{Text, codes, until_nul}
use mailfilter.Header.{byte}
use mailfilter.Socket.{
  no_error, want_read, want_write, zero_return, other_error, log_err, System, starts_with, Socket,
  SslError, say,
}
use mailfilter.Weeder.Report.{gen_failure}

-- How a loop or a call ends: it may also read outside a string, where the behaviour is undefined.
pub data Outcome (A : Type 0) : Type 0 where
  finished : A → Outcome A
  undefined out_of_fuel : Outcome A

-- `input[input.length () - k]`, which is undefined if the string is shorter.
abbrev pub byte_from_end : ℕ → Text → Option ℕ
byte_from_end k s = if ltb (length s) k then none else some (byte s (length s - k))

-- `input.find (word)` finds a place.
abbrev pub finds : Text → Text → Bool
finds word [] = starts_with word []
finds word (c ∷ s) = starts_with word (c ∷ s) || finds word s

-- The end of the answer of an IMAP server.
abbrev pub fetch_completed : Text
fetch_completed = codes ")\r\na OK FETCH completed\r\n"

-- The bytes are read from the end until one is not that of the end of a POP3 reply; `none` is
-- undefined behaviour.
unfoldable pub lacks_dot : Text → Option Bool
lacks_dot input = elim (byte_from_end 1 input) [
  | none ↦ none
  | some a ↦ if not (a == 10) then some true else elim (byte_from_end 2 input) [
    | none ↦ none
    | some b ↦
        if not (b == 13)
        then some true
        else elim (byte_from_end 3 input) [ none ↦ none | some c ↦ some (not (c == b'.')) ]
  ]
]

-- The condition under which the loop goes on.
unfoldable pub goes_on : Bool → ℤ → Text → Option Bool
goes_on read_header bytes input =
    if ltb_ℤ (pos 0) bytes
    then some true
    else if not read_header
    then some false
    else elim (lacks_dot input) [
      | none ↦ none
      | some false ↦ some false
      | some true ↦ some (not (finds fetch_completed input))
    ]

-- What is read is put behind the input; the first buffer is taken as a C string.
unfoldable pub take_in : ℤ → Text → Text → Text
take_in bytes buffer input =
    if ltb_ℤ (pos 0) bytes
    then (if not (length input == 0) then input ++ buffer else until_nul buffer)
    else input

abbrev pub warning : Text → Text
warning name = codes "Debugging: Warning: Received " ++ name ++ codes "."

module _ {N : Type 0} (sys : System N) where
  -- What the `switch` on an error of SSL_read prints, and whether the call goes on.
  unfoldable pub ssl_status : SslError → Socket N → Bool × Socket N
  ssl_status no_error s = (true, s)
  ssl_status want_read s = (true, say (warning (codes "SSL_ERROR_WANT_READ")) 6 s)
  ssl_status want_write s = (true, say (warning (codes "SSL_ERROR_WANT_WRITE")) 6 s)
  ssl_status zero_return s = (true, say (warning (codes "SSL_ERROR_ZERO_RETURN")) 6 s)
  ssl_status other_error s = (false, log_err (codes "SSL_read returned unknown error.") s)

  -- One read: the bytes and the buffer, or `none` where `c_read` returns a failure.
  unfoldable pub read_once : Socket N → Option (ℤ × Text) × Socket N
  read_once s =
      let (ssl_bytes, ssl_buffer, ssl_os) = sys.ssl_read s.os in
      let (fine, s1) = ssl_status (sys.ssl_get_error ssl_bytes ssl_os) (record s { os = ssl_os }) in
      let (bytes, buffer, os) = sys.recv s.sd s.os in
      if not (sys.with_ssl && s.ssl_used)
      then (some (bytes, buffer), record s { os = os })
      else if not s.ssl
      then (none, log_err (codes "For unknown reason the SSL connection was closed.") s)
      else (if fine then some (ssl_bytes, ssl_buffer) else none, s1)

  -- The loop: the input, or `none` where `c_read` returns a failure.
  unfoldable pub read_loop : ℕ → Bool → Text → Socket N → Outcome (Option Text) × Socket N
  read_loop zero read_header input s = (out_of_fuel, s)
  read_loop (suc f) read_header input s =
      let (got, s1) = read_once s in
      elim got [
        | none ↦ (finished none, s1)
        | some (bytes, buffer) ↦
            let input1 = take_in bytes buffer input in
            elim (goes_on read_header bytes input1) [
              | none ↦ (undefined, s1)
              | some false ↦ (finished (some input1), s1)
              | some true ↦ read_loop f read_header input1 s1
            ]
      ]

  -- What `c_read` does with the input: the message on the last byte of an empty input is undefined.
  unfoldable pub accept_input : ℤ → Text → Socket N → Outcome ℤ × Socket N
  accept_input flags input s =
      let (reset, os) = sys.fcntl_set s.sd flags false s.os in
      elim (byte_from_end 1 input) [
        | none ↦ (undefined, s)
        | some c ↦
            let ended = if not (c == 10) then input ++ 10 ∷ [] else input in
            let s1 = say (codes "Debugging: Read: " ++ ended) 6 s in
            let s2 = record s1 { os = os } in
            if eq_ℤ reset (negsuc 0)
            then (finished gen_failure, log_err (sys.strerror os) s2)
            else (finished (pos (length input)), record s2 { read_buffer = some input })
      ]

  -- Socket :: c_read, on a fuel for its loop.
  unfoldable pub c_read : ℕ → Bool → Socket N → Outcome ℤ × Socket N
  c_read fuel read_header s =
      let (flags, os1) = sys.fcntl_get s.sd s.os in
      let (set, os2) = sys.fcntl_set s.sd flags true os1 in
      let (ready, is_set, os3) = sys.select s.sd s.time_out os2 in
      let s1 = record s { os = os1 } in
      let s2 = record s { os = os2 } in
      let s3 = record s { os = os3 } in
      let (outcome, s4) = read_loop fuel read_header [] s3 in
      if eq_ℤ flags (negsuc 0)
      then (finished gen_failure, log_err (sys.strerror os1) s1)
      else if eq_ℤ set (negsuc 0)
      then (finished gen_failure, log_err (sys.strerror os2) s2)
      else if ltb_ℤ ready (pos 0)
      then (finished gen_failure, log_err (sys.strerror os3) s3)
      else if eq_ℤ ready (pos 0)
      then (finished gen_failure, log_err (codes "Connection has timed out.") s3)
      else if not is_set
      then (finished gen_failure, s3)
      else elim outcome [
        | undefined ↦ (undefined, s4)
        | out_of_fuel ↦ (out_of_fuel, s4)
        | finished none ↦ (finished gen_failure, s4)
        | finished (some input) ↦ accept_input flags input s4
      ]

  -- Socket :: c_reply
  abbrev pub c_reply : Socket N → Option Text
  c_reply s = s.read_buffer
