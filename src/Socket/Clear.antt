-- ===== src/Socket/Clear.antt =====
-- `c_write` and `c_read` with encryption, on systems that differ in the calls that do not encrypt.
use mailfilter.Socket.{c_write, System, Socket, SslError}
use mailfilter.Socket.Read.{
  c_read, undefined, out_of_fuel, finished, read_once, ssl_status, accept_input, read_loop, Outcome,
  goes_on, take_in,
}
use mailfilter.Base.Int.{ℤ}
use mailfilter.Text.{Text}
use mailfilter.Base.{
  ℕ, zero, suc, ◌≡◌, refl, Bool, true, false, ◌&&◌, Option, none, some, [], arith,
}

module _ {N : Type 0} (sys : System N) (write : ℤ → Text → N → ℤ × N)
    (recv : ℤ → N → ℤ × Text × N) where
  -- The same system with other answers to `write` and `recv`.
  abbrev pub in_the_clear : System N
  in_the_clear = record sys { write = write; recv = recv }

  pub c_write_encrypted :
      (msg : Option Text) (s : Socket N)
      → (sys.with_ssl && s.ssl_used) ≡ true
      → c_write in_the_clear msg s ≡ c_write sys msg s
  unfolding c_write
  c_write_encrypted none s h = refl
  c_write_encrypted (some msg) s h = rw h refl

  ssl_status-ssl_used : (e : SslError) (s : Socket N) → (ssl_status sys e s).1.ssl_used ≡ s.ssl_used
  unfolding ssl_status
  ssl_status-ssl_used e s = ground arith

  read_once-ssl_used : (s : Socket N) → (read_once sys s).1.ssl_used ≡ s.ssl_used
  unfolding read_once
  read_once-ssl_used s = ground (
    arith,
    ssl_status-ssl_used (sys.ssl_get_error (sys.ssl_read s.os).0 (sys.ssl_read s.os).2)
        (record s { os = (sys.ssl_read s.os).2 }),
  )

  read_once_encrypted :
      (s : Socket N)
      → (sys.with_ssl && s.ssl_used) ≡ true
      → read_once in_the_clear s ≡ read_once sys s
  unfolding read_once ssl_status
  read_once_encrypted s h = rw h refl

  -- What `read_loop_encrypted` states of a fuel.
  abbrev LoopEncrypted : ℕ → Type 0
  LoopEncrypted fuel =
      (read_header : Bool) (input : Text) (s : Socket N)
      → (sys.with_ssl && s.ssl_used) ≡ true
      → read_loop in_the_clear fuel read_header input s ≡ read_loop sys fuel read_header input s

  loop_goes_on :
      (fuel : ℕ) (read_header : Bool) (input : Text) (s : Socket N) (bytes : ℤ) (buffer : Text)
      (more : Option Bool)
      → LoopEncrypted fuel
      → (sys.with_ssl && s.ssl_used) ≡ true
      → (read_once sys s).0 ≡ some (bytes, buffer)
      → goes_on read_header bytes (take_in bytes buffer input) ≡ more
      → read_loop in_the_clear (suc fuel) read_header input s
        ≡ read_loop sys (suc fuel) read_header input s
  unfolding read_loop
  loop_goes_on fuel read_header input s bytes buffer none rest h e m =
      rw (read_loop, read_once_encrypted s h, e, m) (rw (read_once_encrypted s h) refl)
  loop_goes_on fuel read_header input s bytes buffer (some false) rest h e m =
      rw (read_loop, read_once_encrypted s h, e, m) (rw (read_once_encrypted s h) refl)
  loop_goes_on fuel read_header input s bytes buffer (some true) rest h e m =
      let kept : (sys.with_ssl && (read_once sys s).1.ssl_used) ≡ true =
        ground (arith, h, read_once-ssl_used s) in
      let same = rest read_header (take_in bytes buffer input) (read_once sys s).1 kept in
      rw (read_loop, read_once_encrypted s h, e, m) (rw (read_once_encrypted s h) same)

  loop_starts :
      (fuel : ℕ) (read_header : Bool) (input : Text) (s : Socket N) (got : Option (ℤ × Text))
      → LoopEncrypted fuel
      → (sys.with_ssl && s.ssl_used) ≡ true
      → (read_once sys s).0 ≡ got
      → read_loop in_the_clear (suc fuel) read_header input s
        ≡ read_loop sys (suc fuel) read_header input s
  unfolding read_loop
  loop_starts fuel read_header input s none rest h e =
      rw (read_loop, read_once_encrypted s h, e) (rw (read_once_encrypted s h) refl)
  loop_starts fuel read_header input s (some (bytes, buffer)) rest h e =
      loop_goes_on fuel read_header input s bytes buffer _ rest h e refl

  read_loop_encrypted :
      (fuel : ℕ) (read_header : Bool) (input : Text) (s : Socket N)
      → (sys.with_ssl && s.ssl_used) ≡ true
      → read_loop in_the_clear fuel read_header input s ≡ read_loop sys fuel read_header input s
  unfolding read_loop
  read_loop_encrypted zero read_header input s h = refl
  read_loop_encrypted (suc fuel) read_header input s h =
      loop_starts fuel read_header input s _ (read_loop_encrypted fuel) h refl

  -- The socket when `c_read` enters its loop.
  abbrev entering : Socket N → Socket N
  entering s =
      let (flags, os1) = sys.fcntl_get s.sd s.os in
      let (_, os2) = sys.fcntl_set s.sd flags true os1 in
      record s { os = (sys.select s.sd s.time_out os2).2 }

  c_read_ending :
      (fuel : ℕ) (read_header : Bool) (s : Socket N) (left : Outcome (Option Text)) (s4 : Socket N)
      → read_loop in_the_clear fuel read_header [] (entering s) ≡ (left, s4)
      → read_loop sys fuel read_header [] (entering s) ≡ (left, s4)
      → c_read in_the_clear fuel read_header s ≡ c_read sys fuel read_header s
  unfolding c_read accept_input
  c_read_ending fuel read_header s undefined s4 e k = rw (e, k) (rw (e, k) refl)
  c_read_ending fuel read_header s out_of_fuel s4 e k = rw (e, k) (rw (e, k) refl)
  c_read_ending fuel read_header s (finished none) s4 e k = rw (e, k) (rw (e, k) refl)
  c_read_ending fuel read_header s (finished (some input)) s4 e k = rw (e, k) (rw (e, k) refl)

  pub c_read_encrypted :
      (fuel : ℕ) (read_header : Bool) (s : Socket N)
      → (sys.with_ssl && s.ssl_used) ≡ true
      → c_read in_the_clear fuel read_header s ≡ c_read sys fuel read_header s
  c_read_encrypted fuel read_header s h =
      c_read_ending fuel read_header s _ _ (read_loop_encrypted fuel read_header [] (entering s) h)
        refl
