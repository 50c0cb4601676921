-- ===== src/Socket/Opening.antt =====
-- `c_open` and `c_write` of src/socket.cc: what is left pending, and what is printed.
use mailfilter.Base.{
  ℕ, ◌≡◌, ◌≢◌, ◌↔◌, Bool, Bool-cases, Option-cases, false, ◌&&◌, some, ◌++◌, arith, ◌⊎◌, inl, inr,
  true, Option,
}
use mailfilter.Base.Int.{pos, ltb_ℤ, ℤ}
use mailfilter.Text.{Text, codes}
use mailfilter.Socket.{c_open, c_write, System, Socket, choose_ssl, connect_host, start_ssl}
use mailfilter.Base.Result.{ok}

module _ {N : Type 0} (sys : System N) (host_name : Text) where
  -- The answers of the system during the negotiation of encryption.
  abbrev pub created : Socket N → Bool × N
  created s = sys.ssl_new s.os

  abbrev pub bound : Socket N → Bool × N
  bound s = sys.bio_new_socket s.sd (created s).1

  abbrev pub negotiated : Socket N → Option ℤ × N
  negotiated s = sys.ssl_connect host_name (bound s).1

  -- Encryption is wanted, and its negotiation fails: there is no BIO, or SSL_connect does not
  -- succeed.
  abbrev pub IsRefused : Socket N → Type 0
  IsRefused s =
      ((sys.with_ssl && s.ssl_used) ≡ true)
      × (((bound s).0 ≡ false)
          ⊎ (((bound s).0 ≡ true)
              × ((r : ℤ) × ((negotiated s).0 ≡ some r) × (ltb_ℤ (pos 0) r ≡ false))))

  start_ssl_pending :
      (s : Socket N) (c : ℤ)
      → (start_ssl sys host_name s).0 ≡ ok c
      → (start_ssl sys host_name s).1.alarm ≢ 0
      → IsRefused s
  unfolding start_ssl
  start_ssl_pending s c returns pending = elim (Bool-cases (sys.with_ssl && s.ssl_used)) [
    | inr k ↦ absurd (ground (arith, k, pending))
    | inl k ↦ elim (Bool-cases (created s).0) [
      | inr m ↦ absurd (ground (arith, k, m, returns))
      | inl m ↦ elim (Bool-cases (bound s).0) [
        | inr n ↦ (k, inl n)
        | inl n ↦ elim (Option-cases (negotiated s).0) [
          | inl e ↦ absurd (ground (arith, k, m, n, e, pending))
          | inr ((r, e)) ↦ elim (Bool-cases (ltb_ℤ (pos 0) r)) [
            | inl t ↦ absurd (ground (arith, k, m, n, e, t, pending))
            | inr t ↦ (k, inr (n, (r, e, t)))
          ]
        ]
      ]
    ]
  ]

  start_ssl_refused : (s : Socket N) → IsRefused s → (start_ssl sys host_name s).1.alarm ≡ s.alarm
  unfolding start_ssl
  start_ssl_refused s (k, inl n) = ground (arith, k, n)
  start_ssl_refused s (k, inr (n, (r, e, t))) = ground (arith, k, n, e, t)

  module _ (port : ℕ) where
    -- The answers of the system before the negotiation.
    abbrev pub endpoint : Socket N → ℤ × N
    endpoint s = sys.socket s.os

    abbrev pub looked_up : Socket N → Option Bool × N
    looked_up s = sys.gethostbyname host_name (endpoint s).1

    abbrev pub connected : Socket N → Option ℤ × N
    connected s = sys.connect (endpoint s).0 port (looked_up s).1

    -- The socket is made, the host is found, and it accepts the connection.
    pub record IsConnected (s : Socket N) : Type 0 where
      pub has_socket : ltb_ℤ (endpoint s).0 (pos 0) ≡ false
      pub has_host : (looked_up s).0 ≡ some true
      pub answer : ℤ
      pub has_answer : (connected s).0 ≡ some answer
      pub accepted : ltb_ℤ answer (pos 0) ≡ false

    -- The socket behind the connection.
    abbrev pub opened : Socket N → Socket N
    opened s = record s { os = (connected s).1; sd = (endpoint s).0 }

    connect_host_made :
        (s : Socket N)
        → IsConnected s
        → connect_host sys host_name port s ≡ start_ssl sys host_name (opened s)
    unfolding connect_host
    connect_host_made s made = rw (made.has_socket, made.has_host, made.has_answer, made.accepted)

    connect_host_pending :
        (s : Socket N) → (connect_host sys host_name port s).1.alarm ≢ 0 → IsConnected s
    unfolding connect_host
    connect_host_pending s pending = elim (Bool-cases (ltb_ℤ (endpoint s).0 (pos 0))) [
      | inl k ↦ absurd (ground (arith, k, pending))
      | inr k ↦ elim (Option-cases (looked_up s).0) [
        | inl e ↦ absurd (ground (arith, k, e, pending))
        | inr ((false, e)) ↦ absurd (ground (arith, k, e, pending))
        | inr ((true, e)) ↦ elim (Option-cases (connected s).0) [
          | inl m ↦ absurd (ground (arith, k, e, m, pending))
          | inr ((r, m)) ↦ elim (Bool-cases (ltb_ℤ r (pos 0))) [
            | inl t ↦ absurd (ground (arith, k, e, m, t, pending))
            | inr t ↦ record {
              has_socket = k;
              has_host = e;
              answer = r;
              has_answer = m;
              accepted = t;
            }
          ]
        ]
      ]
    ]

    connect_host_pending_iff :
        (s : Socket N) (c : ℤ)
        → (connect_host sys host_name port s).0 ≡ ok c
        → s.alarm ≢ 0
        → ((connect_host sys host_name port s).1.alarm ≢ 0) ↔ (IsConnected s × IsRefused (opened s))
    connect_host_pending_iff s c returns set = (
      λ pending.
          let made = connect_host_pending s pending in
          let e = connect_host_made s made in
          (made, start_ssl_pending (opened s) c (rw e at returns) (rw e at pending)),
      λ failure.
          rw (connect_host_made s failure.0) (rw (start_ssl_refused (opened s) failure.1) set),
    )

    module _ (new_time_out protocol : ℕ) (s : Socket N) where
      -- The socket when the handler is installed, the alarm is set and encryption is chosen.
      abbrev pub chosen : Socket N
      chosen =
          choose_ssl sys protocol (record s {
            os = (sys.sigaction s.os).1;
            time_out = new_time_out;
            alarm = new_time_out;
          })

      choose_ssl_alarm : chosen.alarm ≡ new_time_out
      unfolding choose_ssl
      choose_ssl_alarm = ground arith

      -- If no alarm was pending and the time out is not 0, then behind a `c_open` that returns an
      -- alarm is pending exactly when the handler was installed, the connection was made and
      -- encryption, which was wanted, failed: there was no BIO, or SSL_connect did not succeed.
      pub c_open_pending :
          (c : ℤ)
          → s.alarm ≡ 0
          → new_time_out ≢ 0
          → (c_open sys host_name port new_time_out protocol s).0 ≡ ok c
          → ((c_open sys host_name port new_time_out protocol s).1.alarm ≢ 0) ↔ (
              (ltb_ℤ (sys.sigaction s.os).0 (pos 0) ≡ false)
              × IsConnected chosen
              × IsRefused (opened chosen))
      unfolding c_open
      c_open_pending c idle set returns = elim (Bool-cases (ltb_ℤ (sys.sigaction s.os).0 (pos 0))) [
        | inl k ↦ (
          λ pending. absurd (ground (arith, k, idle, pending)),
          λ failure. absurd (ground (arith, k, failure.0)),
        )
        | inr k ↦
            let both =
              connect_host_pending_iff chosen c (rw k at returns) (rw choose_ssl_alarm set) in
            (
              λ pending. let found = both.0 (rw k at pending) in (k, found.0, found.1),
              λ failure. rw k (both.1 (failure.1, failure.2)),
            )
      ]

-- What `c_write` does with a command that begins with PASS does not depend on the password, as far
-- as the system's answer does not: the same is printed, the same is returned and the state is the
-- same.
pub c_write_hides_password :
    {N : Type 0} (sys : System N) (x y : Text) (s : Socket N)
    → sys.write s.sd (codes "PASS " ++ x) s.os ≡ sys.write s.sd (codes "PASS " ++ y) s.os
    → sys.ssl_write (codes "PASS " ++ x) s.os ≡ sys.ssl_write (codes "PASS " ++ y) s.os
    → c_write sys (some (codes "PASS " ++ x)) s ≡ c_write sys (some (codes "PASS " ++ y)) s
unfolding c_write
c_write_hides_password sys x y s h k = rw (h, k)
