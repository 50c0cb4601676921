-- ===== src/Socket.antt =====
-- src/socket.cc and src/socket.hh: a `Connection` over a socket, with or without encryption. The
-- operating system and OpenSSL are a `System`, whose state is `N`.
pub mod Read
pub mod Arrival
pub mod Opening
pub mod Clear
pub mod Link
pub mod Encryption
use mailfilter.Base.{
  ℕ, [], ◌∷◌, ◌==◌, if◌then◌else◌, ◌+◌, Bool, true, false, not, ◌&&◌, ◌||◌, Option, none, some,
  List, ◌++◌,
}
use mailfilter.Base.Int.{ltb_ℤ, ℤ, pos, negsuc}
use mailfilter.Base.Result.{Result, ok, exit}
use mailfilter.Text.{Text, codes}
use mailfilter.Feedback.{error, message, Message}
use mailfilter.Preferences.{protocol_pop3, ssl_c, protocol_apop}
use mailfilter.Weeder.Report.{gen_failure}

-- The values of SSL_get_error that `c_read` tells apart.
pub data SslError : Type 0 where
  no_error want_read want_write zero_return other_error : SslError

-- The calls that a socket makes. A call that blocks while an alarm is set gives `none` if the
-- alarm goes off; `recv` and `ssl_read` give the number of bytes, or less than 1, and the bytes.
pub record System (N : Type 0) : Type 0 where
  -- USE_SSL, a choice of the build
  pub with_ssl : Bool
  pub sigaction : N → ℤ × N
  pub socket : N → ℤ × N
  pub gethostbyname : Text → N → Option Bool × N
  pub connect : ℤ → ℕ → N → Option ℤ × N
  pub ssl_new : N → Bool × N
  pub bio_new_socket : ℤ → N → Bool × N
  pub ssl_connect : Text → N → Option ℤ × N
  pub ssl_shutdown : N → N
  pub close : ℤ → N → ℤ × N
  pub write : ℤ → Text → N → ℤ × N
  pub ssl_write : Text → N → ℤ × N
  pub fcntl_get : ℤ → N → ℤ × N
  pub fcntl_set : ℤ → ℤ → Bool → N → ℤ × N
  -- The number of descriptors that are ready, and whether this one is.
  pub select : ℤ → ℕ → N → ℤ × Bool × N
  pub recv : ℤ → N → ℤ × Text × N
  pub ssl_read : N → ℤ × Text × N
  pub ssl_get_error : ℤ → N → SslError
  -- `strerror (errno)`
  pub strerror : N → Text

-- The members of a `Socket`, whether the global `ssl` is set, the seconds of the pending alarm, and
-- what was printed.
pub record Socket (N : Type 0) : Type 0 where
  pub os : N
  pub sd : ℤ
  pub time_out : ℕ
  pub read_buffer : Option Text
  pub ssl_used : Bool
  pub ssl : Bool
  pub alarm : ℕ
  pub printed : List Message

module _ {N : Type 0} where
  abbrev pub say : Text → ℕ → Socket N → Socket N
  say msg level s = record s { printed = s.printed ++ message msg (pos level) ∷ [] }

  abbrev pub log_err : Text → Socket N → Socket N
  log_err msg s = record s { printed = s.printed ++ error msg (pos 1) ∷ [] }

  abbrev pub disarm : Socket N → Socket N
  disarm s = record s { alarm = 0 }

  -- The jump of `connect_alarm` to the other branch of `sigsetjmp`; the alarm has gone off.
  abbrev pub timed_out : Socket N → Result ℤ × Socket N
  timed_out s = (ok gen_failure, log_err (codes "Timeout occurred.") (disarm s))

  abbrev pub no_host : Socket N → Result ℤ × Socket N
  no_host s =
      (ok gen_failure, disarm (log_err (codes "DNS look up error; is the hostname correct?") s))

abbrev pub is_ssl : ℕ → Bool
is_ssl protocol = protocol == protocol_pop3 + ssl_c || protocol == protocol_apop + ssl_c

-- Socket :: verify_callback
unfoldable pub verify_callback : Bool → Bool → Text → ℕ × List Message
verify_callback preverify_ok skip err =
    let failed = error (codes "SSL connection could not be established: " ++ err) (pos 1) in
    if not preverify_ok
    then (if skip
        then (
          1,
          failed
              ∷ message
                  (codes "Debugging: SSL certificate verification failed, but continuing anyway.")
                  (pos 6)
              ∷ [],
        )
        else (
          0,
          failed ∷ message (codes "Debugging: SSL certificate verification failed.") (pos 6) ∷ [],
        ))
    else (1, message (codes "Debugging: SSL certificate verification successful.") (pos 6) ∷ [])

module _ {N : Type 0} (sys : System N) where
  -- The choice of encryption at the start of `c_open`.
  unfoldable pub choose_ssl : ℕ → Socket N → Socket N
  choose_ssl protocol s =
      if not sys.with_ssl
      then s
      else if is_ssl protocol
      then say (codes "Debugging: Using SSL encrypted communication.") 6
          (record s { ssl_used = true })
      else say (codes "Debugging: Client-server communication is not encrypted.") 6 s

  -- The negotiation of encryption at the end of `c_open`.
  unfoldable pub start_ssl : Text → Socket N → Result ℤ × Socket N
  start_ssl host_name s =
      let (made, os1) = sys.ssl_new s.os in
      let s1 = record s { os = os1; ssl = made } in
      let (bound, os2) = sys.bio_new_socket s.sd os1 in
      let s2 = record s1 { os = os2 } in
      let (connected, os3) = sys.ssl_connect host_name os2 in
      let s3 = record s2 { os = os3 } in
      if not (sys.with_ssl && s.ssl_used)
      then (ok (pos 0), disarm s)
      else if not made
      then (exit (negsuc 0) [], log_err (codes "SSL connection structure could not be created.") s1)
      else if not bound
      then (ok gen_failure, log_err (codes "Socket-BIO could not be created.") s2)
      else elim connected [
        | none ↦ timed_out s3
        | some r ↦
            if not (ltb_ℤ (pos 0) r)
            then (ok gen_failure, log_err (codes "SSL connection could not be established.") s3)
            else (ok (pos 0), disarm s3)
      ]

  -- The socket, the look-up of the host and the connection.
  unfoldable pub connect_host : Text → ℕ → Socket N → Result ℤ × Socket N
  connect_host host_name port s =
      let (sd, os1) = sys.socket s.os in
      let s1 = record s { os = os1; sd = sd } in
      let (host, os2) = sys.gethostbyname host_name os1 in
      let s2 = record s1 { os = os2 } in
      let (connected, os3) = sys.connect sd port os2 in
      let s3 = record s2 { os = os3 } in
      if ltb_ℤ sd (pos 0) then no_host s1 else elim host [
        | none ↦ timed_out s2
        | some false ↦ no_host s2
        | some true ↦ elim connected [
          | none ↦ timed_out s3
          | some r ↦
              if ltb_ℤ r (pos 0)
              then (
                ok gen_failure,
                disarm (log_err (codes "Server connection could not be established.") s3),
              )
              else start_ssl host_name s3
        ]
      ]

  -- Socket :: c_open, with a host name that is not null.
  unfoldable pub c_open : Text → ℕ → ℕ → ℕ → Socket N → Result ℤ × Socket N
  c_open host_name port new_time_out the_protocol s =
      let (installed, os) = sys.sigaction s.os in
      let s1 = record s { os = os; time_out = new_time_out } in
      if ltb_ℤ installed (pos 0)
      then (ok gen_failure, log_err (codes "Installation of signal handler failed.") s1)
      else connect_host host_name port
          (choose_ssl the_protocol (record s1 { alarm = new_time_out }))

  -- Socket :: c_close
  unfoldable pub c_close : Socket N → ℤ × Socket N
  c_close s =
      let (close_err, os) =
        sys.close s.sd (if sys.with_ssl && s.ssl_used then sys.ssl_shutdown s.os else s.os) in
      (close_err, record s { os = os })

-- `text.find (word)` is 0.
abbrev pub starts_with : Text → Text → Bool
starts_with [] text = true
starts_with (c ∷ word) [] = false
starts_with (c ∷ word) (d ∷ text) = c == d && starts_with word text

module _ {N : Type 0} (sys : System N) where
  -- Socket :: c_write, on a pointer that may be null.
  unfoldable pub c_write : Option Text → Socket N → ℤ × Socket N
  c_write none s = (gen_failure, s)
  c_write (some msg) s =
      let (bytes, os) =
        if sys.with_ssl && s.ssl_used then sys.ssl_write msg s.os else sys.write s.sd msg s.os in
      let s1 = record s { os = os } in
      let s2 = if ltb_ℤ bytes (pos 0) then log_err (sys.strerror os) s1 else s1 in
      let wrote = codes "Debugging: Wrote: " in
      let s3 =
        if not (starts_with (codes "PASS ") msg)
        then say (wrote ++ msg) 6 s2
        else say (wrote ++ codes "PASS *****") 6 s2 in
      (bytes, s3)
