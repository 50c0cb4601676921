-- ===== src/Header/History.antt =====
-- `add_entry` over the entries of a header: what is stored.
use mailfilter.Base.Result.{ok, throw}
use mailfilter.Base.{
  if◌then◌else◌, Bool-cases, ◌≡◌, sym, ◌∙◌, inl, inr, Bool, true, false, List, [], ◌∷◌, map, arith,
  ◌++◌, refl, ap, not, ◌&&◌, append-nil, append_assoc,
}
use mailfilter.Text.{Text, codes, toupper, str_eq}
use mailfilter.Preferences.{Preferences}
use mailfilter.Header.{
  same_tag, message_id, Entry, Header, add_entry, rfc822_valid_msgid, id_error, add_entries,
}
use mailfilter.Text.Compare.{cmp_no_case-eq-zero_iff, str_eq_iff}
use mailfilter.Header.Normal.{set_normal_subject_lem}
use mathlib.Core.Bool.{false≢true}
use mailfilter.Base.Int.{eq_ℤ, signed, negsuc}
use mailfilter.Header.MessageId.{rfc822_valid_msgid_lem}

-- The body of the last entry with a tag, in any case; `before` if there is none.
abbrev pub last_body : Text → Text → List Entry → Text
last_body before name [] = before
last_body before name (e ∷ es) = last_body (if same_tag e.tag name then e.body else before) name es

same_upper : (s t : Text) → same_tag s t ≡ true → map toupper s ≡ map toupper t
same_upper s t e = (cmp_no_case-eq-zero_iff s t).0 (ground arith)

tags_differ :
    (tag a b : Text)
    → str_eq (map toupper a) (map toupper b) ≡ false
    → same_tag tag a ≡ true
    → same_tag tag b ≡ false
tags_differ tag a b ne h = elim (Bool-cases (same_tag tag b)) [
  | inl k ↦ absurd (
      false≢true (
        sym ne
        ∙ (str_eq_iff (map toupper a) (map toupper b)).1
            (sym (same_upper tag a h) ∙ same_upper tag b k)))
  | inr k ↦ k
]

-- The five tags that a header stores.
abbrev pub from_tag : Text
from_tag = codes "From"

abbrev pub to_tag : Text
to_tag = codes "To"

abbrev pub subject_tag : Text
subject_tag = codes "Subject"

abbrev pub date_tag : Text
date_tag = codes "Date"

-- At most one of them is the tag of an entry.
record Exclusive (tag : Text) : Type 0 where
  id_from : same_tag tag message_id ≡ true → same_tag tag from_tag ≡ false
  id_to : same_tag tag message_id ≡ true → same_tag tag to_tag ≡ false
  id_subject : same_tag tag message_id ≡ true → same_tag tag subject_tag ≡ false
  id_date : same_tag tag message_id ≡ true → same_tag tag date_tag ≡ false
  from_to : same_tag tag from_tag ≡ true → same_tag tag to_tag ≡ false
  from_subject : same_tag tag from_tag ≡ true → same_tag tag subject_tag ≡ false
  from_date : same_tag tag from_tag ≡ true → same_tag tag date_tag ≡ false
  to_subject : same_tag tag to_tag ≡ true → same_tag tag subject_tag ≡ false
  to_date : same_tag tag to_tag ≡ true → same_tag tag date_tag ≡ false
  subject_date : same_tag tag subject_tag ≡ true → same_tag tag date_tag ≡ false

exclusive : (tag : Text) → Exclusive tag
unfolding toupper
exclusive tag = record {
  id_from = tags_differ tag message_id from_tag refl;
  id_to = tags_differ tag message_id to_tag refl;
  id_subject = tags_differ tag message_id subject_tag refl;
  id_date = tags_differ tag message_id date_tag refl;
  from_to = tags_differ tag from_tag to_tag refl;
  from_subject = tags_differ tag from_tag subject_tag refl;
  from_date = tags_differ tag from_tag date_tag refl;
  to_subject = tags_differ tag to_tag subject_tag refl;
  to_date = tags_differ tag to_tag date_tag refl;
  subject_date = tags_differ tag subject_tag date_tag refl;
}

-- The members of a header after entries that were all accepted.
pub record Stored (before h : Header) (es : List Entry) : Type 0 where
  pub entries : h.msg_entries ≡ before.msg_entries ++ es
  pub id : h.msg_id ≡ last_body before.msg_id message_id es
  pub sender : h.msg_from ≡ last_body before.msg_from from_tag es
  pub receiver : h.msg_to ≡ last_body before.msg_to to_tag es
  pub subject : h.msg_subject ≡ last_body before.msg_subject subject_tag es
  pub date : h.msg_date ≡ last_body before.msg_date date_tag es
  pub size : h.msg_size ≡ before.msg_size

module _ {R : Type 0} (signed : Bool) (p : Preferences R) where
  add_entry-Stored :
      (h : Header) (e : Entry)
      → (add_entry signed p h e.tag e.body).2 ≡ ok tt
      → Stored h (add_entry signed p h e.tag e.body).0 (e ∷ [])
  unfolding add_entry
  add_entry-Stored h e r = ground (
    arith,
    exclusive e.tag,
    set_normal_subject_lem
        (record h { msg_entries = h.msg_entries ++ e ∷ []; msg_subject = e.body }) e.body,
  )

  Stored-trans :
      (a b c : Header) (e : Entry) (es : List Entry)
      → Stored a b (e ∷ [])
      → Stored b c es
      → Stored a c (e ∷ es)
  Stored-trans a b c e es s t = record {
    entries = t.entries ∙ ap (λ l. l ++ es) s.entries ∙ append_assoc a.msg_entries (e ∷ []) es;
    id = t.id ∙ ap (λ x. last_body x message_id es) s.id;
    sender = t.sender ∙ ap (λ x. last_body x from_tag es) s.sender;
    receiver = t.receiver ∙ ap (λ x. last_body x to_tag es) s.receiver;
    subject = t.subject ∙ ap (λ x. last_body x subject_tag es) s.subject;
    date = t.date ∙ ap (λ x. last_body x date_tag es) s.date;
    size = t.size ∙ s.size;
  }

  Stored-refl : (h : Header) → Stored h h []
  Stored-refl h = record {
    entries = sym (append-nil h.msg_entries);
    id = refl;
    sender = refl;
    receiver = refl;
    subject = refl;
    date = refl;
    size = refl;
  }

  ending_ok :
      (h : Header) (e : Entry) (es : List Entry)
      → (add_entries signed p h (e ∷ es)).2 ≡ ok tt
      → ((add_entry signed p h e.tag e.body).2 ≡ ok tt)
        × ((add_entries signed p h (e ∷ es)).0
            ≡ (add_entries signed p (add_entry signed p h e.tag e.body).0 es).0)
        × ((add_entries signed p (add_entry signed p h e.tag e.body).0 es).2 ≡ ok tt)
  ending_ok h e es k = ground arith

  add_entries-Stored_from :
      (h : Header) (es : List Entry)
      → (add_entries signed p h es).2 ≡ ok tt
      → Stored h (add_entries signed p h es).0 es
  add_entries-Stored_from h [] k = Stored-refl h
  add_entries-Stored_from h (e ∷ es) k =
      let h' = (add_entry signed p h e.tag e.body).0 in
      let (first, same, later) = ending_ok h e es k in
      let rest = add_entries-Stored_from h' es later in
      rw same (Stored-trans h h' _ e es (add_entry-Stored h e first) rest)

-- When all entries of a message have been accepted, the header holds them in order, and its
-- Message-Id, From, To, Subject and Date are each the body of the last entry whose tag is that
-- name in any case, or what they were before if there is none; the size has not changed.
pub add_entries-Stored :
    {R : Type 0} (signed : Bool) (p : Preferences R) (h : Header) (es : List Entry)
    → (add_entries signed p h es).2 ≡ ok tt
    → Stored h (add_entries signed p h es).0 es
add_entries-Stored signed p h es k = add_entries-Stored_from signed p h es k

-- `add_entry` stores the entry whatever happens. It throws exactly if the tag is Message-Id in
-- any case, time stamps are not ignored and the identifier is not valid, and it returns otherwise:
-- it never exits, since normalising a subject raises no exception.
pub add_entry_ending :
    {R : Type 0} (signed : Bool) (p : Preferences R) (h : Header) (tag body : Text)
    → ((add_entry signed p h tag body).0.msg_entries
        ≡ h.msg_entries ++ record { tag = tag; body = body } ∷ [])
      × ((add_entry signed p h tag body).2 ≡ (
          if same_tag tag message_id
            && not p.ignore_time_stamp
            && eq_ℤ (rfc822_valid_msgid signed body) (negsuc 0)
          then throw id_error
          else ok tt))
unfolding add_entry
add_entry_ending signed p h tag body = ground (
  arith,
  (rfc822_valid_msgid_lem signed body).1,
  set_normal_subject_lem
      (record h {
        msg_entries = h.msg_entries ++ record { tag = tag; body = body } ∷ [];
        msg_subject = body;
      })
      body,
)
