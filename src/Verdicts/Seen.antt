-- ===== src/Verdicts/Seen.antt =====
-- `check_duplicates` over the messages of a run.
use mailfilter.Base.Int.{ℤ, pos}
use mailfilter.Base.{
  length, any, ◌==◌, if◌then◌else◌, not, ◌&&◌, some, List, [], ◌∷◌, ==_iff, Bool-cases, ◌≡◌, refl,
  ap, ◌∙◌, ◌≢◌, inl, inr, Bool, true, false, ◌||◌, ◌++◌, arith,
}
use mailfilter.Text.{Text, str_eq}
use mailfilter.Preferences.{Preferences}
use mailfilter.Weeder.Duplicates.{Weeder, check_duplicates}
use mailfilter.Header.{Header}
use mathlib.Core.Path.{ap₂}
use mailfilter.Text.Compare.{str_eq_iff}

module _ {R : Type 0} (p : Preferences R) where
  -- The statuses for one header after another, and the weeder at the end.
  abbrev pub check_all : Weeder → List Header → List ℤ × Weeder
  check_all w [] = ([], w)
  check_all w (h ∷ hs) =
      let (status, _, w') = check_duplicates p w (some h) in
      let (rest, last) = check_all w' hs in (status ∷ rest, last)

  -- The same from the identifiers of all earlier messages, repeated ones and empty ones included.
  abbrev pub seen_before : List Text → List Header → List ℤ
  seen_before ids [] = []
  seen_before ids (h ∷ hs) =
      (if not (length h.msg_id == 0) && any (λ cur_ID. str_eq h.msg_id cur_ID) ids
        then pos 1
        else pos 0)
      ∷ seen_before (h.msg_id ∷ ids) hs

any-append : (p : Text → Bool) (xs ys : List Text) → any p (xs ++ ys) ≡ (any p xs || any p ys)
any-append p [] ys = refl
any-append p (x ∷ xs) ys = ground (arith, any-append p xs ys)

str_eq-nil : (t : Text) → length t ≢ 0 → str_eq t [] ≡ false
str_eq-nil [] h = absurd (h refl)
str_eq-nil (c ∷ t) h = refl

abbrev is_in : Text → List Text → Bool
is_in t ids = any (λ id. str_eq t id) ids

-- Both lists hold the same identifiers, the empty one aside.
abbrev SameIds : List Text → List Text → Type 0
SameIds xs ys = (t : Text) → length t ≢ 0 → is_in t xs ≡ is_in t ys

SameIds-empty : (xs ys : List Text) → SameIds xs ys → SameIds xs ([] ∷ ys)
SameIds-empty xs ys h t n = ground (arith, str_eq-nil t n, h t n)

is_in_of_eq : (t id : Text) (xs : List Text) → str_eq t id ≡ true → is_in t xs ≡ is_in id xs
is_in_of_eq t id xs e = ap (λ s. is_in s xs) ((str_eq_iff t id).0 e)

SameIds-known :
    (xs ys : List Text) (id : Text) → SameIds xs ys → is_in id xs ≡ true → SameIds xs (id ∷ ys)
SameIds-known xs ys id h k t n = elim (Bool-cases (str_eq t id)) [
  | inl e ↦ rw e (is_in_of_eq t id xs e ∙ k)
  | inr e ↦ rw e (h t n)
]

SameIds-new : (xs ys : List Text) (id : Text) → SameIds xs ys → SameIds (xs ++ id ∷ []) (id ∷ ys)
SameIds-new xs ys id h t n = ground (arith, any-append (λ i. str_eq t i) xs (id ∷ []), h t n)

length-zero : (t : Text) → length t ≡ 0 → t ≡ []
length-zero [] e = refl
length-zero (c ∷ t) e = absurd (omega arith)

module _ {R : Type 0} (p : Preferences R) (on : p.del_duplicates ≡ true) where
  abbrev after : Weeder → Header → Weeder
  after w h = (check_duplicates p w (some h)).2

  after_ids :
      (w : Weeder) (h : Header)
      → (after w h).msg_ids ≡ (
          if length h.msg_id == 0 || is_in h.msg_id w.msg_ids
          then w.msg_ids
          else w.msg_ids ++ h.msg_id ∷ [])
  unfolding check_duplicates
  after_ids w h = ground arith

  SameIds-after :
      (w : Weeder) (ids : List Text) (h : Header)
      → SameIds w.msg_ids ids
      → SameIds (after w h).msg_ids (h.msg_id ∷ ids)
  SameIds-after w ids h s = elim (Bool-cases (length h.msg_id == 0)) [
    | inl e ↦
        rw (after_ids w h, e, length-zero h.msg_id ((==_iff _ _).0 e))
          (SameIds-empty w.msg_ids ids s)
    | inr e ↦ elim (Bool-cases (is_in h.msg_id w.msg_ids)) [
      | inl k ↦ rw (after_ids w h, e, k) (SameIds-known w.msg_ids ids h.msg_id s k)
      | inr k ↦ rw (after_ids w h, e, k) (SameIds-new w.msg_ids ids h.msg_id s)
    ]
  ]

  status_from :
      (w : Weeder) (ids : List Text) (h : Header)
      → SameIds w.msg_ids ids
      → (check_duplicates p w (some h)).0
        ≡ (if not (length h.msg_id == 0) && is_in h.msg_id ids then pos 1 else pos 0)
  unfolding check_duplicates
  status_from w ids h s = elim (Bool-cases (length h.msg_id == 0)) [
    | inl e ↦ rw e
    | inr e ↦
        let n : length h.msg_id ≢ 0 = ground arith in rw (e, on, ← s h.msg_id n) (ground arith)
  ]

  check_all-eq-seen_from :
      (w : Weeder) (ids : List Text) (hs : List Header)
      → SameIds w.msg_ids ids
      → (check_all p w hs).0 ≡ seen_before p ids hs
  check_all-eq-seen_from w ids [] s = refl
  check_all-eq-seen_from w ids (h ∷ hs) s =
      ap₂ ◌∷◌ (status_from w ids h s)
        (check_all-eq-seen_from (after w h) (h.msg_id ∷ ids) hs (SameIds-after w ids h s))

-- With DEL_DUPLICATES on, the list of identifiers that the weeder keeps decides as the identifiers
-- of all earlier messages would: over a run, a message has status 1 exactly if its Message-Id is not
-- empty and an earlier message of the run had it, or the weeder held it before the run; and 0
-- otherwise.
pub check_all-eq-seen_before :
    {R : Type 0} (p : Preferences R)
    → p.del_duplicates ≡ true
    → (w : Weeder) (hs : List Header) → (check_all p w hs).0 ≡ seen_before p w.msg_ids hs
check_all-eq-seen_before p on w hs = check_all-eq-seen_from p on w w.msg_ids hs (λ t n. refl)
