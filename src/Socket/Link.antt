-- ===== src/Socket/Link.antt =====
-- The class Socket as a Connection: a session of src/pop3.cc over a socket of src/socket.cc.
use mailfilter.Base.Int.{ℤ, eq_ℤ, pos, negsuc, ltb_ℤ}
use mailfilter.Text.{Text}
use mailfilter.Base.{
  ℕ, Bool, Option, none, some, length, ◌==◌, ◌<◌, ◌≡◌, refl, false, ◌&&◌, List, true, arith,
}
use mailfilter.Socket.Read.{c_read, undefined, out_of_fuel, finished}
use mailfilter.Socket.{c_open, c_close, c_write, Socket, System}
use mailfilter.Pop3.{Connection, Session, send}
use mailfilter.Weeder.Report.{gen_failure}
use mailfilter.Base.Result.{ok, exit, throw}
use mailfilter.Socket.Arrival.{IsReady, Sends, waited, flatten, flags, c_read_reply}
use mailfilter.Header.{byte}

-- A socket that works, or none any more, when the process has been left, hangs or has no defined
-- behaviour; what the operations return then is without meaning.
pub data Link (N : Type 0) : Type 0 where
  live : Socket N → Link N
  dead : Link N

module _ {N : Type 0} (sys : System N) (fuel : ℕ) where
  abbrev pub link_open : Text → ℕ → ℕ → ℕ → Link N → ℤ × Link N
  link_open host port time_out protocol dead = (gen_failure, dead)
  link_open host port time_out protocol (live s) =
      let (result, s1) = c_open sys host port time_out protocol s in
      elim result [
        | ok v ↦ (v, live s1)
        | exit status text ↦ (gen_failure, dead)
        | throw what ↦ (gen_failure, dead)
      ]

  abbrev pub link_close : Link N → ℤ × Link N
  link_close dead = (gen_failure, dead)
  link_close (live s) = let (v, s1) = c_close sys s in (v, live s1)

  abbrev pub link_read : Bool → Link N → ℤ × Link N
  link_read read_header dead = (gen_failure, dead)
  link_read read_header (live s) =
      let (outcome, s1) = c_read sys fuel read_header s in
      elim outcome [
        | finished v ↦ (v, live s1)
        | undefined ↦ (gen_failure, dead)
        | out_of_fuel ↦ (gen_failure, dead)
      ]

  abbrev pub link_write : Text → Link N → ℤ × Link N
  link_write msg dead = (gen_failure, dead)
  link_write msg (live s) = let (v, s1) = c_write sys (some msg) s in (v, live s1)

  abbrev pub link_reply : Link N → Option Text
  link_reply dead = none
  link_reply (live s) = s.read_buffer

  -- class Socket : public Connection
  abbrev pub socket_connection : Connection (Link N)
  socket_connection = record {
    c_open = link_open;
    c_close = link_close;
    c_read = link_read;
    c_write = link_write;
    c_reply = link_reply;
  }

-- A session over a socket, and the socket when a command has been written.
abbrev pub over : {N : Type 0} → Session (Link N) → Socket N → Session (Link N)
over s sock = record s { net = live sock }

abbrev pub written : {N : Type 0} → System N → Text → Socket N → Socket N
written sys cmd sock = (c_write sys (some cmd) sock).1

module _ {N : Type 0} (sys : System N) (fuel : ℕ) where
  link_read_reply :
      (sock : Socket N) (text : Text)
      → (c_read sys fuel false sock).0 ≡ finished (pos (length text))
      → (link_read sys fuel false (live sock))
        ≡ (pos (length text), live (c_read sys fuel false sock).1)
  link_read_reply sock text e = rw (link_read, e) refl

  -- Where a command can be written on a connection without encryption, and the chunks of a reply
  -- arrive, as for `c_read`, with fewer chunks than fuel, `send` takes the command as accepted exactly
  -- if the first byte of the first chunk is `+`, and the reply is all of the chunks.
  pub send_on_socket :
      (cmd : Text) (s : Session (Link N)) (sock : Socket N) (cs : List Text) (last : N)
      → eq_ℤ (c_write sys (some cmd) sock).0 (negsuc 0) ≡ false
      → IsReady sys (written sys cmd sock)
      → (sys.with_ssl && (written sys cmd sock).ssl_used) ≡ false
      → Sends sys (written sys cmd sock).sd (waited sys (written sys cmd sock)).2 cs last
      → length cs < fuel
      → 0 < length (flatten cs)
      → eq_ℤ
          (sys.fcntl_set (written sys cmd sock).sd (flags sys (written sys cmd sock)) false last).0
          (negsuc 0)
        ≡ false
      → ((send (socket_connection sys fuel) false cmd (over s sock)).0
          ≡ (byte (flatten cs) 0 == b'+'))
        × (link_reply sys fuel (send (socket_connection sys fuel) false cmd (over s sock)).1.net
            ≡ some (flatten cs))
  unfolding send
  send_on_socket cmd s sock cs last wrote ready plain sent enough some_bytes reset =
      let (count, answer) =
        c_read_reply sys (written sys cmd sock) false fuel cs last ready plain sent enough
          some_bytes tt reset in
      let read_back = link_read_reply (written sys cmd sock) (flatten cs) count in
      let held : (c_read sys fuel false (c_write sys (some cmd) sock).1).1.read_buffer
          ≡ some (flatten cs) =
        answer in
      let positive : ltb_ℤ (pos 0) (pos (length (flatten cs))) ≡ true =
        ground (arith, some_bytes) in
      (rw (wrote, read_back, held, positive) refl, rw (wrote, read_back) answer)
