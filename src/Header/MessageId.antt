-- ===== src/Header/MessageId.antt =====
-- `rfc822_valid_msgid` of src/header.cc, and the identifiers that a header accepts.
use mailfilter.Base.Int.{ltb_ℤ, signed, pos, negsuc}
use mailfilter.Base.{
  length, any, all, ltb, ◌==◌, ℕ, suc, ◌≤◌, ◌≡◌, refl, ap, Bool, true, false, not, ◌||◌, [], ◌∷◌,
  ◌++◌, arith, ◌-◌, ◌∙◌, ◌↔◌, ◌⊎◌, length-append,
}
use mailfilter.Text.{Text}
use mailfilter.Header.{char_value, byte, rfc822_valid_msgid}
use mathlib.Core.Path.{ap₂, subst}

-- What is accepted: `<`, a text with an at sign, `>`, at least five bytes in all, and only ASCII
-- bytes where `char` is unsigned.
pub record IsMsgId (signed : Bool) (s : Text) : Type 0 where
  pub middle : Text
  pub shape : s ≡ b'<' ∷ (middle ++ b'>' ∷ [])
  pub long : 3 ≤ length middle
  pub has_at : any (λ c. c == b'@') middle ≡ true
  pub ascii : signed ≡ false → all (λ c. ltb c 128) s ≡ true

-- All bytes but the last, and the last byte of `c ∷ s`.
front : ℕ → Text → Text
front c [] = []
front c (d ∷ s) = c ∷ front d s

last : ℕ → Text → ℕ
last c [] = c
last c (d ∷ s) = last d s

front-last : (c : ℕ) (s : Text) → c ∷ s ≡ front c s ++ last c s ∷ []
unfolding front last
front-last c [] = refl
front-last c (d ∷ s) = ap (λ t. c ∷ t) (front-last d s)

length-front : (c : ℕ) (s : Text) → length (front c s) ≡ length s
unfolding front
length-front c [] = refl
length-front c (d ∷ s) = ap suc (length-front d s)

byte-last : (c : ℕ) (s : Text) → byte (c ∷ s) (length s) ≡ last c s
unfolding last
byte-last c [] = refl
byte-last c (d ∷ s) = byte-last d s

any-snoc : (p : ℕ → Bool) (xs : Text) (x : ℕ) → any p (xs ++ x ∷ []) ≡ (any p xs || p x)
any-snoc p [] x = ground arith
any-snoc p (y ∷ xs) x = ground (arith, any-snoc p xs x)

-- The test on each byte.
abbrev big : Bool → ℕ → Bool
big signed c = ltb_ℤ (pos 127) (char_value signed c)

any-big_signed : (s : Text) → any (big true) s ≡ false
any-big_signed [] = refl
any-big_signed (c ∷ s) = ground (arith, any-big_signed s)

any-big_unsigned : (s : Text) → any (big false) s ≡ not (all (λ c. ltb c 128) s)
any-big_unsigned [] = refl
any-big_unsigned (c ∷ s) = ground (arith, any-big_unsigned s)

any-big :
    (signed : Bool) (s : Text)
    → (any (big signed) s ≡ false) ↔ (signed ≡ false → all (λ c. ltb c 128) s ≡ true)
any-big true s = ((λ h e. cc), λ h. any-big_signed s)
any-big false s = ground (arith, any-big_unsigned s)

byte-snoc : (m : Text) (x : ℕ) → byte (m ++ x ∷ []) (length m) ≡ x
byte-snoc [] x = refl
byte-snoc (c ∷ m) x = byte-snoc m x

module _ (signed : Bool) where
  valid_of_shape :
      (m : Text)
      → 3 ≤ length m
      → any (λ c. c == b'@') m ≡ true
      → any (big signed) (b'<' ∷ (m ++ b'>' ∷ [])) ≡ false
      → rfc822_valid_msgid signed (b'<' ∷ (m ++ b'>' ∷ [])) ≡ pos 0
  unfolding rfc822_valid_msgid
  valid_of_shape m long has_at ascii =
      let l : length (m ++ b'>' ∷ []) ≡ suc (length m) =
        omega (arith, length-append m (b'>' ∷ [])) in
      let k : suc (suc (length m)) - 1 ≡ suc (length m) = omega arith in
      ground (arith, l, k, byte-snoc m b'>', any-snoc (λ c. c == b'@') m b'>')

  shape_of_valid :
      (c d : ℕ) (r : Text)
      → rfc822_valid_msgid signed (c ∷ d ∷ r) ≡ pos 0
      → (3 ≤ length r)
        × (c ≡ b'<')
        × (last d r ≡ b'>')
        × (any (λ c. c == b'@') (front d r ++ last d r ∷ []) ≡ true)
        × (any (big signed) (c ∷ d ∷ r) ≡ false)
  unfolding rfc822_valid_msgid
  shape_of_valid c d r h =
      let k : suc (suc (length r)) - 1 ≡ suc (length r) = omega arith in
      rw (← front-last d r) (ground (arith, k, byte-last d r))

  valid-IsMsgId : (s : Text) → rfc822_valid_msgid signed s ≡ pos 0 → IsMsgId signed s
  valid-IsMsgId [] h = absurd (unfold rfc822_valid_msgid in cc)
  valid-IsMsgId (c ∷ []) h = absurd (unfold rfc822_valid_msgid in cc)
  valid-IsMsgId (c ∷ d ∷ r) h =
      let (long, first, final, at, ascii) = shape_of_valid c d r h in
      record {
        middle = front d r;
        shape = ap₂ ◌∷◌ first (front-last d r ∙ ap (λ x. front d r ++ x ∷ []) final);
        long = omega (arith, length-front d r);
        has_at = ground (arith, any-snoc (λ c. c == b'@') (front d r) (last d r));
        ascii = (any-big signed (c ∷ d ∷ r)).0 ascii;
      }

-- `rfc822_valid_msgid` returns 0 exactly for a text of at least five bytes that begins with `<`,
-- ends with `>`, has an at sign between them and, on a platform whose `char` is unsigned, has no
-- byte above 127; and -1 for every other text. Where `char` is signed, no byte is too large.
pub rfc822_valid_msgid_lem :
    (signed : Bool) (s : Text)
    → ((rfc822_valid_msgid signed s ≡ pos 0) ↔ IsMsgId signed s)
      × ((rfc822_valid_msgid signed s ≡ pos 0) ⊎ (rfc822_valid_msgid signed s ≡ negsuc 0))
rfc822_valid_msgid_lem signed s = (
  (
    valid-IsMsgId signed s,
    λ k. rw k.shape (
        valid_of_shape signed k.middle k.long k.has_at (
          (any-big signed (b'<' ∷ (k.middle ++ b'>' ∷ []))).1
            (λ e. subst (λ t. all (λ c. ltb c 128) t ≡ true) k.shape (k.ascii e)))),
  ),
  unfold rfc822_valid_msgid in ground arith,
)
