-- ===== src/Pop3/Login.antt =====
-- The exchange of `login`.
use mailfilter.Base.{
  [], ◌∷◌, Bool-cases, ◌≡◌, refl, ap, ◌∙◌, inl, inr, true, false, ◌++◌, arith, append_assoc,
}
use mailfilter.Base.Int.{eq_ℤ, ltb_ℤ, negsuc, pos}
use mailfilter.Text.{Text, codes}
use mailfilter.Pop3.{login, Connection, Session, record_event, read, write_call, send, is_positive}

abbrev pub user_command : Text → Text
user_command usr = codes "USER " ++ usr ++ codes "\r\n"

abbrev pub pass_command : Text → Text
pass_command pass = codes "PASS " ++ pass ++ codes "\r\n"

module _ {S : Type 0} (conn : Connection S) where
  -- The session behind the greeting.
  abbrev pub greeted : Session S → Session S
  greeted s = record_event (record s { net = (conn.c_read false s.net).1 }) (read false)

  -- The session behind the call of `c_write` with a command, and the one behind the reply to it.
  abbrev pub told : Text → Session S → Session S
  told c s = record_event (record s { net = (conn.c_write c s.net).1 }) (write_call c)

  abbrev pub asked : Text → Session S → Session S
  asked c s =
      record_event (record (told c s) { net = (conn.c_read false (told c s).net).1 }) (read false)

  -- `c_write` takes the command without an error, `c_read` gives at least one byte of the reply, and
  -- the reply that is there begins with `+`.
  abbrev pub Answers : Text → Session S → Type 0
  Answers c s =
      (eq_ℤ (conn.c_write c s.net).0 (negsuc 0) ≡ false)
      × (ltb_ℤ (pos 0) (conn.c_read false (told c s).net).0 ≡ true)
      × (is_positive conn (conn.c_reply (asked c s).net) ≡ true)

  send-Answers :
      (c : Text) (s : Session S)
      → (send conn false c s).0 ≡ true
      → Answers c s × ((send conn false c s).1 ≡ asked c s)
  unfolding send
  send-Answers c s h = elim (Bool-cases (eq_ℤ (conn.c_write c s.net).0 (negsuc 0))) [
    | inl k ↦ absurd (ground (arith, rw k at h))
    | inr k ↦ elim (Bool-cases (ltb_ℤ (pos 0) (conn.c_read false (told c s).net).0)) [
      | inr m ↦ absurd (ground (arith, rw (k, m) at h))
      | inl m ↦ ((k, m, rw (k, m) at h), rw k refl)
    ]
  ]

  -- Two commands, one behind the other.
  both_Answers :
      (c d : Text) (s : Session S)
      → (send conn false c s).0 ≡ true
      → (send conn false d (send conn false c s).1).0 ≡ true
      → Answers c s
        × Answers d (asked c s)
        × ((send conn false d (send conn false c s).1).1 ≡ asked d (asked c s))
  both_Answers c d s h k =
      let first = send-Answers c s h in
      let second = send-Answers d (asked c s) (rw first.1 at k) in
      (first.0, second.0, ap (λ t. (send conn false d t).1) first.1 ∙ second.1)

  -- If `login` succeeds, the greeting was read without an error, USER and then PASS were taken by
  -- `c_write` and answered by a reply that begins with `+`; and what has happened is, in this order,
  -- that the greeting was read, USER was written and its reply read, and PASS was written and its
  -- reply read.
  pub login_commands :
      (usr pass : Text) (s : Session S)
      → (login conn usr pass s).0 ≡ true
      → (eq_ℤ (conn.c_read false s.net).0 (negsuc 0) ≡ false)
        × Answers (user_command usr) (greeted s)
        × Answers (pass_command pass) (asked (user_command usr) (greeted s))
        × ((login conn usr pass s).1.events
            ≡ s.events
              ++ read false
                ∷ write_call (user_command usr)
                ∷ read false
                ∷ write_call (pass_command pass)
                ∷ read false
                ∷ [])
  unfolding login
  login_commands usr pass s h = elim (Bool-cases (eq_ℤ (conn.c_read false s.net).0 (negsuc 0))) [
    | inl k ↦ absurd (ground (arith, k, h))
    | inr k ↦ elim (Bool-cases (send conn false (user_command usr) (greeted s)).0) [
      | inr m ↦ absurd (ground (arith, k, m, h))
      | inl m ↦
          let s1 = (send conn false (user_command usr) (greeted s)).1 in
          elim (Bool-cases (send conn false (pass_command pass) s1).0) [
            | inr n ↦ absurd (ground (arith, k, m, n, h))
            | inl n ↦
                let both = both_Answers (user_command usr) (pass_command pass) (greeted s) m n in
                let end : (login conn usr pass s).1
                    ≡ asked (pass_command pass) (asked (user_command usr) (greeted s)) =
                  rw (login, k, m, n) both.2 in
                (k, both.0, both.1, ap (λ t. t.events) end ∙ simp (append_assoc))
          ]
    ]
  ]
