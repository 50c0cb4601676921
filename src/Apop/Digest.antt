-- ===== src/Apop/Digest.antt =====
-- What the login by APOP sends.
use mailfilter.Base.{
  ℕ, [], ◌∷◌, length, all, All, ltb, ◌==◌, if◌then◌else◌, ◌+◌, ◌-◌, ◌*◌, ◌/◌, ◌%◌, ◌<◌, ◌≡◌, refl,
  ap, true, not, Option, none, some, ◌++◌, arith, Bool-cases, inl, inr, sym, ◌∙◌, false, append-nil,
}
use mailfilter.Text.{Text}
use mailfilter.Apop.{
  hex_digit, get_hash, hex_bytes, Md5, up_to, index, time_stamp, apop_login, apop_command,
}
use mailfilter.Base.Int.{eq_ℤ, negsuc}
use mailfilter.Pop3.{Connection, Session, reply, record_event, read, send}
use mailfilter.Pop3.History.{Adds, Adds-trans, Adds-read, send-Adds, writes}

-- The value of a digit, and the bytes that a text of pairs of digits stands for.
abbrev pub digit_value : ℕ → ℕ
digit_value c = if ltb c 58 then c - 48 else c - 87

abbrev pub unhex : Text → Option Text
unhex [] = some []
unhex (c ∷ []) = none
unhex (c ∷ d ∷ s) = elim (unhex s) [
  | none ↦ none
  | some bs ↦ some ((16 * digit_value c + digit_value d) ∷ bs)
]

hex_digit_value : (d : ℕ) → d < 16 → digit_value (hex_digit d) ≡ d
hex_digit_value d h = ground arith

unhex-hex_bytes : (bs : Text) → All (λ b. b < 256) bs → unhex (hex_bytes bs) ≡ some bs
unfolding hex_bytes
unhex-hex_bytes [] h = refl
unhex-hex_bytes (b ∷ bs) (small, h) =
    let high = hex_digit_value (b / 16) (omega arith) in
    let low = hex_digit_value (b % 16) (omega arith) in
    rw (unhex-hex_bytes bs h) (ap (λ x. some (x ∷ bs)) (omega (arith, high, low)))

length-hex_bytes : (bs : Text) → length (hex_bytes bs) ≡ 2 * length bs
unfolding hex_bytes
length-hex_bytes [] = refl
length-hex_bytes (b ∷ bs) = omega (arith, length-hex_bytes bs)

-- Where MD5 gives 16 bytes, the hash has 32 characters, so that it fits the buffer with its
-- terminator, and the bytes can be read back from it: the digest of the time stamp and the password.
pub get_hash_lem :
    {C : Type 0} (md5 : Md5 C) (stamp pass : Text)
    → length (md5.md5_final (md5.md5_update (md5.md5_update md5.md5_init stamp) pass)) ≡ 16
    → All (λ b. b < 256) (md5.md5_final (md5.md5_update (md5.md5_update md5.md5_init stamp) pass))
    → (length (get_hash md5 stamp pass) ≡ 32)
      × (unhex (get_hash md5 stamp pass)
          ≡ some (md5.md5_final (md5.md5_update (md5.md5_update md5.md5_init stamp) pass)))
unfolding get_hash
get_hash_lem md5 stamp pass long bytes =
    let digest = md5.md5_final (md5.md5_update (md5.md5_update md5.md5_init stamp) pass) in
    (omega (arith, length-hex_bytes digest), unhex-hex_bytes digest bytes)

-- A stamp begins with `<` and ends with `>`, and has no other `>`; the greeting has no `<` before it.
pub record IsStamp (greet stamp : Text) : Type 0 where
  pub before : Text
  pub inside : Text
  pub middle : Text
  pub behind : Text
  pub start : stamp ≡ b'<' ∷ inside
  pub shape : stamp ≡ middle ++ b'>' ∷ []
  pub place : greet ≡ before ++ (stamp ++ behind)
  pub first : all (λ c. not (c == b'<')) before ≡ true
  pub next : all (λ c. not (c == b'>')) middle ≡ true

index-place :
    (c : ℕ) (s t : Text)
    → index c s ≡ some t
    → (before : Text) × (r : Text) × (s ≡ before ++ t)
      × (t ≡ c ∷ r)
      × (all (λ d. not (d == c)) before ≡ true)
index-place c [] t e = absurd (ground (arith, e))
index-place c (d ∷ s) t e = elim (Bool-cases (d == c)) [
  | inl k ↦ ([], s, ground (arith, e, k), ground (arith, e, k), refl)
  | inr k ↦
      let (before, r, place, shape, first) = index-place c s t (rw k at e) in
      (d ∷ before, r, ap (λ x. d ∷ x) place, shape, ground (arith, k, first))
]

up_to_tail :
    (c d : ℕ) (s t : Text) (rest : Option Text)
    → up_to c s ≡ rest
    → (d == c) ≡ false
    → up_to c (d ∷ s) ≡ some t
    → (u : Text) × (up_to c s ≡ some u) × (t ≡ d ∷ u)
up_to_tail c d s t none r k e = absurd (ground (arith, r, k, e))
up_to_tail c d s t (some u) r k e = (u, r, ground (arith, r, k, e))

up_to-place :
    (c : ℕ) (s t : Text)
    → up_to c s ≡ some t
    → (middle : Text) × (behind : Text) × (t ≡ middle ++ c ∷ [])
      × (s ≡ t ++ behind)
      × (all (λ d. not (d == c)) middle ≡ true)
up_to-place c [] t e = absurd (ground (arith, e))
up_to-place c (d ∷ s) t e = elim (Bool-cases (d == c)) [
  | inl k ↦ ([], s, ground (arith, e, k), ground (arith, e, k), refl)
  | inr k ↦
      let (u, found, shape) = up_to_tail c d s t _ refl k e in
      let (middle, behind, ends, place, next) = up_to-place c s u found in
      (
        d ∷ middle,
        behind,
        shape ∙ ap (λ x. d ∷ x) ends,
        ap (λ x. d ∷ x) place ∙ ap (λ x. x ++ behind) (sym shape),
        ground (arith, k, next),
      )
]

starts_stamp :
    (middle stamp behind r : Text)
    → stamp ≡ middle ++ b'>' ∷ []
    → b'<' ∷ r ≡ stamp ++ behind
    → (inside : Text) × (stamp ≡ b'<' ∷ inside)
starts_stamp [] [] behind r e h = absurd (ground (arith, e))
starts_stamp (m ∷ middle) [] behind r e h = absurd (ground (arith, e))
starts_stamp middle (d ∷ inside) behind r e h = (inside, ground (arith, h))

time_stamp_shape :
    (greet stamp : Text) (found : Option Text)
    → index b'<' greet ≡ found
    → time_stamp greet ≡ some stamp
    → IsStamp greet stamp
unfolding time_stamp
time_stamp_shape greet stamp none e h = absurd (ground (arith, e, h))
time_stamp_shape greet stamp (some ts) e h =
    let (before, r, place, head, first) = index-place b'<' greet ts e in
    let (middle, behind, shape, cut, next) = up_to-place b'>' ts stamp (rw (time_stamp, e) at h) in
    let (inside, start) = starts_stamp middle stamp behind r shape (sym head ∙ cut) in
    record {
      before = before;
      inside = inside;
      middle = middle;
      behind = behind;
      start = start;
      shape = shape;
      place = place ∙ ap (λ x. before ++ x) cut;
      first = first;
      next = next;
    }

module _ {C S : Type 0} (md5 : Md5 C) (conn : Connection S) where
  -- The session when the greeting has been read.
  abbrev pub greeted : Session S → Session S
  greeted s = record_event (record s { net = (conn.c_read false s.net).1 }) (read false)

  apop_login_ending :
      (usr pass : Text) (s : Session S) (stamp : Option Text)
      → time_stamp (reply conn (greeted s)) ≡ stamp
      → (apop_login md5 conn usr pass s).0 ≡ true
      → (t : Text) × (time_stamp (reply conn (greeted s)) ≡ some t)
        × Adds s.events
            (apop_login md5 conn usr pass s).1.events
            (apop_command md5 usr t pass ∷ [])
            2
  unfolding apop_login
  apop_login_ending usr pass s none e h = absurd (ground (arith, e, h))
  apop_login_ending usr pass s (some t) e h =
      elim (Bool-cases (eq_ℤ (conn.c_read false s.net).0 (negsuc 0))) [
        | inl k ↦ absurd (ground (arith, k, h))
        | inr k ↦ elim (Bool-cases (send conn false (apop_command md5 usr t pass) (greeted s)).0) [
          | inr m ↦ absurd (ground (arith, k, e, m, h))
          | inl m ↦ (
            t,
            e,
            rw (k, e, m)
                (Adds-trans (Adds-read s.events false)
                  (send-Adds conn false (apop_command md5 usr t pass) (greeted s) m)),
          )
        ]
      ]

-- When the login by APOP succeeds, it has read the greeting, written one command and read one reply;
-- and the command has the user's name and the hash of the password with a time stamp, which stands
-- in the greeting from its first `<` to the next `>`.
pub apop_login_success :
    {C S : Type 0} (md5 : Md5 C) (conn : Connection S) (usr pass : Text) (s : Session S)
    → (apop_login md5 conn usr pass s).0 ≡ true
    → (stamp : Text) × IsStamp (reply conn (greeted md5 conn s)) stamp
      × Adds s.events
          (apop_login md5 conn usr pass s).1.events
          (apop_command md5 usr stamp pass ∷ [])
          2
apop_login_success md5 conn usr pass s h =
    let (stamp, found, added) = apop_login_ending md5 conn usr pass s _ refl h in
    (stamp, time_stamp_shape (reply conn (greeted md5 conn s)) stamp _ refl found, added)

-- A greeting that has no time stamp ends the login by APOP before anything is written.
pub apop_login_no_stamp :
    {C S : Type 0} (md5 : Md5 C) (conn : Connection S) (usr pass : Text) (s : Session S)
    → time_stamp (reply conn (greeted md5 conn s)) ≡ none
    → ((apop_login md5 conn usr pass s).0 ≡ false)
      × (writes (apop_login md5 conn usr pass s).1.events ≡ writes s.events)
unfolding apop_login
apop_login_no_stamp md5 conn usr pass s e =
    let quiet = (Adds-read s.events false).commands ∙ append-nil (writes s.events) in
    elim (Bool-cases (eq_ℤ (conn.c_read false s.net).0 (negsuc 0))) [
      | inl k ↦ rw k (refl, quiet)
      | inr k ↦ rw (k, e) (refl, quiet)
    ]
