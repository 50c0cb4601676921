-- ===== src/Apop.antt =====
-- src/apop.cc and src/apop.hh: the login with a digest of the server's time stamp and the password.
-- MD5, which src/ has as a copy of another library, is a parameter with the state `C`.
pub mod Digest
use mailfilter.Base.{
  ℕ, [], ◌∷◌, ltb, ◌==◌, if◌then◌else◌, ◌+◌, ◌/◌, ◌%◌, Bool, true, false, not, Option, none, some,
  ◌++◌,
}
use mailfilter.Base.Int.{eq_ℤ, negsuc}
use mailfilter.Text.{Text, codes}
use mailfilter.Pop3.{Connection, Session, record_event, read, reply, send, complain}

pub record Md5 (C : Type 0) : Type 0 where
  pub md5_init : C
  pub md5_update : C → Text → C
  pub md5_final : C → Text

-- The digit that `%x` prints, and the two that `%02x` prints for a byte.
abbrev pub hex_digit : ℕ → ℕ
hex_digit d = if ltb d 10 then 48 + d else 87 + d

unfoldable pub hex_bytes : Text → Text
hex_bytes [] = []
hex_bytes (b ∷ bs) = hex_digit (b / 16) ∷ hex_digit (b % 16) ∷ hex_bytes bs

-- The text up to and with the first `c`, and the text from the first `c` on, as `index` finds it.
abbrev pub up_to : ℕ → Text → Option Text
up_to c [] = none
up_to c (d ∷ s) =
    let rest = up_to c s in
    if d == c then some (d ∷ []) else (elim rest [ none ↦ none | some t ↦ some (d ∷ t) ])

abbrev pub index : ℕ → Text → Option Text
index c [] = none
index c (d ∷ s) = let rest = index c s in if d == c then some (d ∷ s) else rest

-- The time stamp of a greeting: from its first `<` up to the next `>`.
unfoldable pub time_stamp : Text → Option Text
time_stamp greet = elim (index b'<' greet) [ none ↦ none | some ts ↦ up_to b'>' ts ]

module _ {C : Type 0} (md5 : Md5 C) where
  -- APOP :: get_hash
  unfoldable pub get_hash : Text → Text → Text
  unfolding hex_bytes
  get_hash stamp pass =
      hex_bytes (md5.md5_final (md5.md5_update (md5.md5_update md5.md5_init stamp) pass))

  abbrev pub apop_command : Text → Text → Text → Text
  apop_command usr stamp pass =
      codes "APOP " ++ usr ++ codes " " ++ get_hash stamp pass ++ codes "\r\n"

  module _ {S : Type 0} (conn : Connection S) where
    -- APOP :: login
    unfoldable pub apop_login : Text → Text → Session S → Bool × Session S
    apop_login usr pass s =
        let (bytes, net) = conn.c_read false s.net in
        let s0 = record_event (record s { net = net }) (read false) in
        if eq_ℤ bytes (negsuc 0) then (false, s0) else elim (time_stamp (reply conn s0)) [
          | none ↦ (false, s0)
          | some stamp ↦
              let (answered, s1) = send conn false (apop_command usr stamp pass) s0 in
              if not answered
              then (false, complain s1 (codes "APOP protocol initialisation error."))
              else (true, s1)
        ]
