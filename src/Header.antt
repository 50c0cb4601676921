-- ===== src/Header.antt =====
-- src/header.cc and src/header.hh: the header of one message.
pub mod Spaces
pub mod Normal
pub mod MessageId
pub mod History
use native.Mathlib.Nat.{zero-add, suc-add}
use mailfilter.Base.{
  ℕ, zero, suc, ◌+◌, ◌-◌, Bool, true, false, not, ◌&&◌, ◌||◌, Option, none, some, List, [], ◌∷◌,
  ◌++◌, ltb, ◌==◌, if◌then◌else◌, length, ◌*◌, any, ◌≡◌,
}
use mailfilter.Base.Int.{ℤ, pos, negsuc, eq_ℤ, ltb_ℤ, signed}
use mailfilter.Base.Result.{Result, ok, throw, die, exit}
use mailfilter.Text.{Text, codes, same_no_case, isalpha, isdigit, isspace}
use mailfilter.Preferences.{Preferences}
use mailfilter.Text.Buffer.{at, erase}
use mailfilter.Feedback.{Message, error}
use native.Mathlib.Nat.{zero-add}

-- struct entry
pub record Entry : Type 0 where
  pub tag : Text
  pub body : Text

pub record Header : Type 0 where
  pub msg_entries : List Entry
  pub msg_id : Text
  pub msg_from : Text
  pub msg_to : Text
  pub msg_subject : Text
  pub msg_normal_subject : Text
  pub msg_date : Text
  pub msg_size : ℤ

-- A new header; the size is set before it is read.
abbrev pub new_header : Header
new_header = record {
  msg_entries = [];
  msg_id = [];
  msg_from = [];
  msg_to = [];
  msg_subject = [];
  msg_normal_subject = [];
  msg_date = [];
  msg_size = pos 0;
}

-- The value of a plain `char` whose byte is `b`; on some platforms it is signed.
abbrev pub char_value : Bool → ℕ → ℤ
char_value signed b = if signed && ltb 127 b then negsuc (255 - b) else pos b

abbrev pub byte : Text → ℕ → ℕ
byte [] i = 0
byte (c ∷ s) zero = c
byte (c ∷ s) (suc i) = byte s i

pub byte-append : (s t : Text) (i : ℕ) → byte (s ++ t) (length s + i) ≡ byte t i
byte-append [] t i = rw zero-add
byte-append (c ∷ s) t i = rw (suc-add (length s) i) (byte-append s t i)

-- Header :: rfc822_valid_msgid
unfoldable pub rfc822_valid_msgid : Bool → Text → ℤ
rfc822_valid_msgid signed msgid =
    let l = length msgid in
    if l == 0
    then negsuc 0
    else if ltb l 5
    then negsuc 0
    else if not (byte msgid 0 == b'<') || not (byte msgid (l - 1) == b'>')
    then negsuc 0
    else if not (any (λ c. c == b'@') msgid)
    then negsuc 0
    else if any (λ c. ltb_ℤ (pos 127) (char_value signed c)) msgid
    then negsuc 0
    else pos 0

infixl 5 ◌>>=◌
abbrev ◌>>=◌ : {A B : Type 0} → Option A → (A → Option B) → Option B
none >>= f = none
some a >>= f = f a

-- The condition of the inner loop of `set_normal_subject`, which reads the second byte only if the
-- first is white space.
both_spaces : Text → ℕ → Option Bool
unfolding at
both_spaces s i = do
  c ← at s i
  if isspace c then (do d ← at s (i + 1); some (isspace d && ltb i (length s))) else some false

-- The inner loop, which deletes multiple spaces. `none` is undefined behaviour, an exception or a
-- lack of fuel.
pub delete_spaces : ℕ → Text → ℕ → Option Text
unfolding erase
delete_spaces zero s i = none
delete_spaces (suc f) s i = do
  both ← both_spaces s i
  elim both [ true ↦ (do t ← erase s i; delete_spaces f t i) | false ↦ some s ]

unfoldable pub is_junk : ℕ → Bool
is_junk c = not (isalpha c) && not (isspace c) && not (c == b'@') && not (isdigit c)

-- The outer loop. Each round lowers twice the length less the index, so `2 * length + 1` is enough.
normalise : ℕ → Text → ℕ → Option Text
normalise zero s i = none
normalise (suc f) s i = elim (ltb i (length s)) [
  | true ↦ do
    t ← delete_spaces (suc (length s)) s i
    c ← at t i
    elim (is_junk c) [
      | true ↦ (do u ← erase t i; normalise f u (i - (if ltb 0 i then 1 else 0)))
      | false ↦ normalise f t (i + 1)
    ]
  | false ↦ some s
]

-- Header :: set_normal_subject
unfoldable pub set_normal_subject : Header → Text → Option Header
unfolding normalise delete_spaces both_spaces is_junk
set_normal_subject h ssubject = do
  s ← normalise (2 * length ssubject + 1) ssubject 0
  some (record h { msg_normal_subject = codes "Subject: " ++ s })

abbrev pub message_id : Text
message_id = codes "Message-Id"

abbrev pub same_tag : Text → Text → Bool
same_tag tag name = same_no_case tag name

abbrev pub id_error : Text
id_error = codes "POP timestamp in message-ID invalid."

abbrev pub normal_error : Text
normal_error = codes "Runtime exception occurred while parsing rcfile: "

-- Header :: add_entry: the header, the messages printed, and how the call ends.
unfoldable pub add_entry :
    {R : Type 0}
    → Bool
    → Preferences R
    → Header
    → Text
    → Text
    → Header × List Message × Result (Unit {0})
add_entry signed p h tag body =
    let h1 = record h { msg_entries = h.msg_entries ++ record { tag = tag; body = body } ∷ [] } in
    if same_tag tag message_id
    then (if not p.ignore_time_stamp && ltb_ℤ (rfc822_valid_msgid signed body) (pos 0)
        then (h1, error id_error (pos 1) ∷ [], throw id_error)
        else (record h1 { msg_id = body }, [], ok tt))
    else if same_tag tag (codes "From")
    then (record h1 { msg_from = body }, [], ok tt)
    else if same_tag tag (codes "To")
    then (record h1 { msg_to = body }, [], ok tt)
    else if same_tag tag (codes "Subject")
    then (let h2 = record h1 { msg_subject = body } in
        if p.norm
        then (elim (set_normal_subject h2 body) [
          | none ↦ (h2, [], die normal_error)
          | some h3 ↦ (h3, [], ok tt)
        ])
        else (h2, [], ok tt))
    else if same_tag tag (codes "Date")
    then (record h1 { msg_date = body }, [], ok tt)
    else (h1, [], ok tt)

module _ {R : Type 0} (signed : Bool) (p : Preferences R) where
  -- `header` of src/rfc822.yy: the entries are added in order, until a call does not return.
  abbrev pub add_entries : Header → List Entry → Header × List Message × Result (Unit {0})
  add_entries h [] = (h, [], ok tt)
  add_entries h (e ∷ es) =
      let (h', ms, ending) = add_entry signed p h e.tag e.body in
      let (last, ns, rest) = add_entries h' es in
      elim ending [
        | ok _ ↦ (last, ms ++ ns, rest)
        | exit c m ↦ (h', ms, exit c m)
        | throw m ↦ (h', ms, throw m)
      ]
