-- ===== src/Tests/Network.antt =====
-- Examples for a socket over a system that delivers chunks of bytes, and for the login by APOP.
use mailfilter.Base.Int.{ℤ, pos, negsuc, ltb_ℤ}
use mailfilter.Base.{
  length, ◌≡◌, refl, Bool, true, false, none, some, List, [], ◌∷◌, arith, ◌%◌, Option, ◌++◌, ◌<◌,
  ◌≢◌, ◌↔◌,
}
use mailfilter.Text.{Text, codes}
use mailfilter.Socket.Arrival.{IsReady, c_read_reply, read_loop_stuck, Sends}
use mailfilter.Socket.{
  connect_host, choose_ssl, start_ssl, c_open, c_write, System, Socket, no_error,
}
use mailfilter.Socket.Read.{c_read, c_reply, finished, lacks_dot, read_loop, out_of_fuel}
use mailfilter.Socket.Opening.{
  IsConnected, IsRefused, opened, chosen, c_write_hides_password, c_open_pending,
}
use mailfilter.Socket.Link.{
  dead, send_on_socket, written, Link, socket_connection, over, link_reply,
}
use mailfilter.Pop3.{Connection, Session, reply, send}
use mailfilter.Apop.{Md5, time_stamp, apop_login, get_hash, hex_bytes, apop_command}
use mailfilter.Base.Result.{ok, Result}
use mailfilter.Apop.Digest.{IsStamp, unhex, greeted, get_hash_lem, apop_login_success}
use mailfilter.Tests.Samples.{toy_weeder}
use mailfilter.Pop3.History.{Adds}
use mailfilter.Socket.Encryption.{opening, c_open_encrypted, succeeds, final_answer}
use mailfilter.Socket.Clear.{in_the_clear}

-- The state is the list of the chunks that are still to come; `ssl` is what SSL_connect answers.
abbrev toy_system : Bool → ℤ → System (List Text)
toy_system use_ssl answer = record {
  with_ssl = use_ssl;
  sigaction = λ os. (pos 0, os);
  socket = λ os. (pos 4, os);
  gethostbyname = λ host os. (some true, os);
  connect = λ sd port os. (some (pos 0), os);
  ssl_new = λ os. (true, os);
  bio_new_socket = λ sd os. (true, os);
  ssl_connect = λ host os. (some answer, os);
  ssl_shutdown = λ os. os;
  close = λ sd os. (pos 0, os);
  write = λ sd text os. (pos (length text), os);
  ssl_write = λ text os. (pos (length text), os);
  fcntl_get = λ sd os. (pos 2, os);
  fcntl_set = λ sd flags nonblocking os. (pos 0, os);
  select = λ sd time os. (pos 1, true, os);
  recv = λ sd os. elim os [ [] ↦ (pos 0, [], []) | ◌∷◌ c cs ↦ (pos (length c), c, cs) ];
  ssl_read = λ os. (pos 0, [], os);
  ssl_get_error = λ bytes os. no_error;
  strerror = λ os. [];
}

abbrev plain_system : System (List Text)
plain_system = toy_system false (pos 0)

abbrev toy_socket : List Text → Socket (List Text)
toy_socket chunks = record {
  os = chunks;
  sd = pos 4;
  time_out = 30;
  read_buffer = none;
  ssl_used = false;
  ssl = false;
  alarm = 0;
  printed = [];
}

abbrev two_chunks : List Text
two_chunks = codes "Subject: a\r\n" ∷ codes ".\r\n" ∷ []

toy_ready : IsReady plain_system (toy_socket two_chunks)
toy_ready = record { flags_read = refl; flags_set = refl; one_ready = refl; is_set = refl }

c_read_reply_example :
    ((c_read plain_system 3 true (toy_socket two_chunks)).0 ≡ finished (pos 15))
    × (c_reply plain_system (c_read plain_system 3 true (toy_socket two_chunks)).1
        ≡ some (codes "Subject: a\r\n.\r\n"))
c_read_reply_example =
    let end : Sends plain_system (pos 4) (codes ".\r\n" ∷ []) (codes ".\r\n" ∷ []) [] =
      (refl, refl, omega arith, refl, (refl, refl)) in
    c_read_reply plain_system (toy_socket two_chunks) true 3 two_chunks [] toy_ready refl
      (refl, refl, omega arith, refl, end) (omega arith) (omega arith)
      (codes "Subject: a\r\n", refl) refl

read_loop_stuck_example :
    (read_loop plain_system 1000 true (codes "Subject: a\r\n") (toy_socket [])).0 ≡ out_of_fuel
unfolding lacks_dot
read_loop_stuck_example =
    read_loop_stuck plain_system (codes "Subject: a\r\n") (toy_socket []) refl refl refl refl refl
      1000

-- A system on which SSL_connect fails.
abbrev refusing : System (List Text)
refusing = toy_system true (pos 0)

refusing_returns : (c_open refusing (codes "x") 995 30 4098 (toy_socket [])).0 ≡ ok (negsuc 0)
unfolding c_open choose_ssl connect_host start_ssl
refusing_returns = refl

-- The socket when SSL_connect is called.
abbrev refusing_opened : Socket (List Text)
refusing_opened =
    opened refusing (codes "x") 995 (chosen refusing (codes "x") 995 30 4098 (toy_socket []))

c_open_pending_example : ((c_open refusing (codes "x") 995 30 4098 (toy_socket [])).1.alarm ≢ 0) ↔ (
    (ltb_ℤ (refusing.sigaction []).0 (pos 0) ≡ false)
    × IsConnected refusing (codes "x") 995 (chosen refusing (codes "x") 995 30 4098 (toy_socket []))
    × IsRefused refusing (codes "x") refusing_opened)
c_open_pending_example =
    c_open_pending refusing (codes "x") 995 30 4098 (toy_socket []) (negsuc 0) refl (omega arith)
      refusing_returns

c_write_hides_password_example :
    c_write plain_system (some (codes "PASS " ++ codes "one\r\n")) (toy_socket [])
    ≡ c_write plain_system (some (codes "PASS " ++ codes "two\r\n")) (toy_socket [])
c_write_hides_password_example =
    c_write_hides_password plain_system (codes "one\r\n") (codes "two\r\n") (toy_socket []) refl
      refl

-- A digest of 16 bytes that are all the length of the text, modulo 256.
abbrev toy_md5 : Md5 Text
toy_md5 = record {
  md5_init = [];
  md5_update = λ context text. context ++ text;
  md5_final = λ context.
      let b = length context % 256 in
      b ∷ b ∷ b ∷ b ∷ b ∷ b ∷ b ∷ b ∷ b ∷ b ∷ b ∷ b ∷ b ∷ b ∷ b ∷ b ∷ [];
}

abbrev toy_digest : Text
toy_digest = toy_md5.md5_final (codes "<1@x>" ++ codes "pw")

get_hash_lem_example :
    (length (get_hash toy_md5 (codes "<1@x>") (codes "pw")) ≡ 32)
    × (unhex (get_hash toy_md5 (codes "<1@x>") (codes "pw")) ≡ some toy_digest)
get_hash_lem_example =
    let small : 7 < 256 = omega arith in
    get_hash_lem toy_md5 (codes "<1@x>") (codes "pw") refl (
      small,
      (
        small,
        (
          small,
          (
            small,
            (
              small,
              (
                small,
                (
                  small,
                  (
                    small,
                    (small, (small, (small, (small, (small, (small, (small, (small, tt)))))))),
                  ),
                ),
              ),
            ),
          ),
        ),
      ),
    )

-- The replies that the server has still to send, and the last one that was read.
abbrev Replies : Type 0
Replies = List Text × Option Text

abbrev toy_replies : Replies → ℤ × Replies
toy_replies ([], last) = (negsuc 0, ([], last))
toy_replies (r ∷ rs, last) = (pos (length r), (rs, some r))

abbrev apop_server : Connection Replies
apop_server = record {
  c_open = λ host port time_out protocol net. (pos 0, net);
  c_close = λ net. (pos 0, net);
  c_read = λ header. toy_replies;
  c_write = λ cmd net. (pos (length cmd), net);
  c_reply = λ net. net.1;
}

abbrev apop_session : Text → Session Replies
apop_session greeting = record {
  net = (greeting ∷ codes "+OK" ∷ [], none);
  weeder = toy_weeder;
  events = [];
}

abbrev stamped : Session Replies
stamped = apop_session (codes "+OK ready <1@x>")

apop_succeeds : (apop_login toy_md5 apop_server (codes "me") (codes "pw") stamped).0 ≡ true
unfolding apop_login time_stamp get_hash hex_bytes send
apop_succeeds = refl

apop_login_success_example :
    (stamp : Text) × IsStamp (reply apop_server (greeted toy_md5 apop_server stamped)) stamp
    × Adds []
        (apop_login toy_md5 apop_server (codes "me") (codes "pw") stamped).1.events
        (apop_command toy_md5 (codes "me") stamp (codes "pw") ∷ [])
        2
apop_login_success_example =
    apop_login_success toy_md5 apop_server (codes "me") (codes "pw") stamped apop_succeeds

-- A system on which SSL_connect succeeds, and one where nothing can be sent in the clear.
abbrev encrypting : System (List Text)
encrypting = toy_system true (pos 1)

abbrev encrypted : Result ℤ × Socket (List Text)
encrypted = opening encrypting (codes "x") 995 30 4098 (toy_socket [])

opens_encrypted : encrypted.0 ≡ ok (pos 0)
unfolding c_open connect_host choose_ssl start_ssl
opens_encrypted = refl

c_open_encrypted_example :
    (succeeds (final_answer encrypting (codes "x") 995 30 4098 (toy_socket [])) ≡ true)
    × (encrypted.1.ssl ≡ true)
    × (encrypted.1.alarm ≡ 0)
    × (c_write
          (in_the_clear encrypting (λ sd text os. (negsuc 0, os)) (λ sd os. (negsuc 0, [], os)))
          (some (codes "QUIT\r\n"))
          encrypted.1
        ≡ c_write encrypting (some (codes "QUIT\r\n")) encrypted.1)
    × (c_read
          (in_the_clear encrypting (λ sd text os. (negsuc 0, os)) (λ sd os. (negsuc 0, [], os)))
          5
          false
          encrypted.1
        ≡ c_read encrypting 5 false encrypted.1)
c_open_encrypted_example =
    c_open_encrypted encrypting (codes "x") 995 30 4098 (toy_socket [])
      (λ sd text os. (negsuc 0, os)) (λ sd os. (negsuc 0, [], os)) (some (codes "QUIT\r\n")) 5 false
      refl refl opens_encrypted

-- A reply in two chunks.
abbrev in_two : List Text
in_two = codes "+O" ∷ codes "K\r\n" ∷ []

abbrev link_session : Session (Link (List Text))
link_session = record { net = dead; weeder = toy_weeder; events = [] }

ready_to_read : IsReady plain_system (written plain_system (codes "QUIT\r\n") (toy_socket in_two))
unfolding c_write
ready_to_read = record { flags_read = refl; flags_set = refl; one_ready = refl; is_set = refl }

send_on_socket_example :
    ((send
        (socket_connection plain_system 3)
        false
        (codes "QUIT\r\n")
        (over link_session (toy_socket in_two))).0
      ≡ true)
    × (link_reply plain_system 3
          (send
            (socket_connection plain_system 3)
            false
            (codes "QUIT\r\n")
            (over link_session (toy_socket in_two))).1.net
        ≡ some (codes "+OK\r\n"))
unfolding c_write
send_on_socket_example =
    let end : Sends plain_system (pos 4) (codes "K\r\n" ∷ []) (codes "K\r\n" ∷ []) [] =
      (refl, refl, omega arith, refl, (refl, refl)) in
    send_on_socket plain_system 3 (codes "QUIT\r\n") link_session (toy_socket in_two) in_two [] refl
      ready_to_read refl (refl, refl, omega arith, refl, end) (omega arith) (omega arith) refl
