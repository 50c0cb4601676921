-- ===== src/Socket/Encryption.antt =====
-- What a socket with encryption does after `c_open`: nothing goes over the connection in the clear.
use mailfilter.Base.Int.{pos, ℤ, ltb_ℤ}
use mailfilter.Text.{Text}
use mailfilter.Base.{ℕ, ◌≡◌, true, ◌&&◌, arith, Bool, Option, none, some, false}
use mailfilter.Socket.{
  c_open, choose_ssl, c_write, System, connect_host, start_ssl, Socket, choose_ssl, is_ssl,
}
use mailfilter.Base.Result.{ok, Result}
use mailfilter.Socket.Read.{c_read}
use mailfilter.Socket.Clear.{in_the_clear, c_write_encrypted, c_read_encrypted}

-- An answer of SSL_connect that means success.
abbrev pub succeeds : Option ℤ → Bool
succeeds none = false
succeeds (some r) = ltb_ℤ (pos 0) r

module _ {N : Type 0} (sys : System N) (host_name : Text) where
  -- What SSL_connect answers in `start_ssl`, and in `connect_host`.
  abbrev pub answer : Socket N → Option ℤ
  answer s = (sys.ssl_connect host_name (sys.bio_new_socket s.sd (sys.ssl_new s.os).1).1).0

  abbrev pub connected_answer : ℕ → Socket N → Option ℤ
  connected_answer port s =
      let (sd, os1) = sys.socket s.os in
      answer
        (record s { os = (sys.connect sd port (sys.gethostbyname host_name os1).1).1; sd = sd })

  -- `start_ssl` with encryption returns 0 only if the negotiation has succeeded.
  start_ssl_accepted :
      (s : Socket N)
      → (sys.with_ssl && s.ssl_used) ≡ true
      → (start_ssl sys host_name s).0 ≡ ok (pos 0)
      → ((start_ssl sys host_name s).1.ssl_used ≡ true)
        × ((start_ssl sys host_name s).1.ssl ≡ true)
        × ((start_ssl sys host_name s).1.alarm ≡ 0)
        × (succeeds (answer s) ≡ true)
  unfolding start_ssl
  start_ssl_accepted s h e = ground (arith, h, e)

  connect_host_accepted :
      (port : ℕ) (s : Socket N)
      → (sys.with_ssl && s.ssl_used) ≡ true
      → (connect_host sys host_name port s).0 ≡ ok (pos 0)
      → ((connect_host sys host_name port s).1.ssl_used ≡ true)
        × ((connect_host sys host_name port s).1.ssl ≡ true)
        × ((connect_host sys host_name port s).1.alarm ≡ 0)
        × (succeeds (connected_answer port s) ≡ true)
  unfolding connect_host
  connect_host_accepted port s h e =
      let (sd, os1) = sys.socket s.os in
      let (host, os2) = sys.gethostbyname host_name os1 in
      let s3 = record s { os = (sys.connect sd port os2).1; sd = sd } in
      ground (arith, start_ssl_accepted s3 h, e)

module _ {N : Type 0} (sys : System N) (host_name : Text) (port new_time_out protocol : ℕ)
    (s : Socket N) where
  abbrev pub opening : Result ℤ × Socket N
  opening = c_open sys host_name port new_time_out protocol s

  -- What SSL_connect answers in `c_open`.
  abbrev pub final_answer : Option ℤ
  final_answer = connected_answer sys host_name port (record s { os = (sys.sigaction s.os).1 })

  c_open_accepted :
      sys.with_ssl ≡ true
      → is_ssl protocol ≡ true
      → opening.0 ≡ ok (pos 0)
      → (opening.1.ssl_used ≡ true)
        × (opening.1.ssl ≡ true)
        × (opening.1.alarm ≡ 0)
        × (succeeds final_answer ≡ true)
  unfolding c_open choose_ssl
  c_open_accepted has_ssl wants_ssl e =
      let (installed, os) = sys.sigaction s.os in
      let s1 = record s { os = os; time_out = new_time_out; alarm = new_time_out } in
      let chosen = choose_ssl sys protocol s1 in
      let used : (sys.with_ssl && chosen.ssl_used) ≡ true = ground (arith, has_ssl, wants_ssl) in
      ground (arith, e, connect_host_accepted sys host_name port chosen used)

  -- In a build with encryption and for a protocol with it, if `c_open` returns 0, then SSL_connect has
  -- succeeded, there is an SSL structure and no alarm is pending; and what `c_write` and `c_read` do
  -- next, whatever the message and the fuel, does not depend on `write` and `recv`, the calls that do
  -- not encrypt.
  pub c_open_encrypted :
      (write : ℤ → Text → N → ℤ × N) (recv : ℤ → N → ℤ × Text × N) (msg : Option Text) (fuel : ℕ)
      (read_header : Bool)
      → sys.with_ssl ≡ true
      → is_ssl protocol ≡ true
      → opening.0 ≡ ok (pos 0)
      → (succeeds final_answer ≡ true)
        × (opening.1.ssl ≡ true)
        × (opening.1.alarm ≡ 0)
        × (c_write (in_the_clear sys write recv) msg opening.1 ≡ c_write sys msg opening.1)
        × (c_read (in_the_clear sys write recv) fuel read_header opening.1
            ≡ c_read sys fuel read_header opening.1)
  c_open_encrypted write recv msg fuel read_header has_ssl wants_ssl e =
      let (used, made, idle, success) = c_open_accepted has_ssl wants_ssl e in
      let both : (sys.with_ssl && opening.1.ssl_used) ≡ true = ground (arith, has_ssl, used) in
      (
        success,
        made,
        idle,
        c_write_encrypted sys write recv msg opening.1 both,
        c_read_encrypted sys write recv fuel read_header opening.1 both,
      )
