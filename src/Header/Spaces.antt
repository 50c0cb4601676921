-- ===== src/Header/Spaces.antt =====
-- White space in a subject: what it is squeezed to, and what deleting a run of it leaves.
use mailfilter.Base.{
  ℕ, zero, suc, ◌≡◌, refl, true, false, some, [], ◌∷◌, arith, length, ◌<◌, keep_if, if◌then◌else◌,
  ◌&&◌, not, ◌≤◌, Bool-cases, inl, inr, ◌∙◌, ap,
}
use mailfilter.Text.{Text, isspace}
use mailfilter.Text.Buffer.{onto, at-onto, at-onto_next, length-onto, erase-onto}
use mailfilter.Header.{is_junk, both_spaces, delete_spaces}

-- Each run of white space becomes its last byte.
abbrev pub squeeze : Text → Text
squeeze [] = []
squeeze (c ∷ []) = c ∷ []
squeeze (c ∷ d ∷ s) =
    let rest = squeeze (d ∷ s) in if isspace c && isspace d then rest else c ∷ rest

-- A subject without junk, and with its white space squeezed.
abbrev pub normal_form : Text → Text
normal_form s = squeeze (keep_if (λ c. not (is_junk c)) s)

-- `r` with the white space at its start squeezed.
abbrev dedupe : Text → Text
dedupe [] = []
dedupe (c ∷ []) = c ∷ []
dedupe (c ∷ d ∷ r) = let rest = dedupe (d ∷ r) in if isspace c && isspace d then rest else c ∷ d ∷ r

-- What lies behind the index: no junk, and no two bytes of white space in a row.
abbrev pub Meets : ℕ → Text → Type 0
Meets c [] = Unit
Meets c (d ∷ s) = (isspace c && isspace d) ≡ false

abbrev pub IsTidy : Text → Type 0
IsTidy [] = Unit
IsTidy (c ∷ p) = (is_junk c ≡ false) × Meets c p × IsTidy p

both_spaces-onto :
    (p : Text) (c d : ℕ) (r : Text)
    → both_spaces (onto p (c ∷ d ∷ r)) (length p) ≡ some (isspace c && isspace d)
unfolding both_spaces
both_spaces-onto p c d r =
    ground (arith, at-onto p (c ∷ d ∷ r), at-onto_next p (c ∷ d ∷ r), length-onto p (c ∷ d ∷ r))

both_spaces-onto_one : (p : Text) (c : ℕ) → both_spaces (onto p (c ∷ [])) (length p) ≡ some false
unfolding both_spaces isspace
both_spaces-onto_one p c = ground (arith, at-onto p (c ∷ []), at-onto_next p (c ∷ []))

pub delete_spaces-onto :
    (f : ℕ) (p : Text) (c : ℕ) (r : Text)
    → length (c ∷ r) < f
    → delete_spaces f (onto p (c ∷ r)) (length p) ≡ some (onto p (dedupe (c ∷ r)))
unfolding delete_spaces
delete_spaces-onto zero p c r h = absurd (omega arith)
delete_spaces-onto (suc f) p c [] h = rw (both_spaces-onto_one p c)
delete_spaces-onto (suc f) p c (d ∷ r) h = elim (Bool-cases (isspace c && isspace d)) [
  | inl e ↦
      rw (both_spaces-onto p c d r, e)
        (rw (erase-onto p (d ∷ r) c) (delete_spaces-onto f p d r (omega arith)))
  | inr e ↦ rw (both_spaces-onto p c d r, e)
]

-- The first byte of `dedupe (c ∷ r)` and the rest of it.
pub dedupe_head : ℕ → Text → ℕ
dedupe_head c [] = c
dedupe_head c (d ∷ r) = let rest = dedupe_head d r in if isspace c && isspace d then rest else c

pub dedupe_tail : ℕ → Text → Text
dedupe_tail c [] = []
dedupe_tail c (d ∷ r) = let rest = dedupe_tail d r in if isspace c && isspace d then rest else d ∷ r

pub dedupe_parts : (c : ℕ) (r : Text) → dedupe (c ∷ r) ≡ dedupe_head c r ∷ dedupe_tail c r
unfolding dedupe_head dedupe_tail
dedupe_parts c [] = refl
dedupe_parts c (d ∷ r) = ground (arith, dedupe_parts d r)

pub dedupe-Meets : (c : ℕ) (r : Text) → Meets (dedupe_head c r) (dedupe_tail c r)
unfolding dedupe_head dedupe_tail
dedupe-Meets c [] = tt
dedupe-Meets c (d ∷ r) = ground (arith, dedupe-Meets d r)

-- The head is white space exactly if the original head is.
pub isspace-dedupe_head : (c : ℕ) (r : Text) → isspace (dedupe_head c r) ≡ isspace c
unfolding dedupe_head
isspace-dedupe_head c [] = refl
isspace-dedupe_head c (d ∷ r) = ground (arith, isspace-dedupe_head d r)

pub length-dedupe_tail : (c : ℕ) (r : Text) → length (dedupe_tail c r) ≤ length r
unfolding dedupe_tail
length-dedupe_tail c [] = omega arith
length-dedupe_tail c (d ∷ r) = ground (arith, length-dedupe_tail d r)

abbrev pub kept : Text → Text
kept s = keep_if (λ c. not (is_junk c)) s

squeeze-onto_congr :
    (p u v : Text) (x : ℕ)
    → squeeze (x ∷ u) ≡ squeeze (x ∷ v)
    → squeeze (onto p (x ∷ u)) ≡ squeeze (onto p (x ∷ v))
squeeze-onto_congr [] u v x h = h
squeeze-onto_congr (y ∷ p) u v x h = squeeze-onto_congr p (x ∷ u) (x ∷ v) y (ground arith)

squeeze-onto_spaces :
    (p : Text) (c d : ℕ) (r : Text)
    → (isspace c && isspace d) ≡ true
    → squeeze (onto p (c ∷ d ∷ r)) ≡ squeeze (onto p (d ∷ r))
squeeze-onto_spaces [] c d r h = ground arith
squeeze-onto_spaces (x ∷ p) c d r h = squeeze-onto_congr p (c ∷ d ∷ r) (d ∷ r) x (ground arith)

squeeze-onto_tidy :
    (p r : Text) (c : ℕ) → IsTidy (c ∷ p) → squeeze (onto p (c ∷ r)) ≡ onto p (squeeze (c ∷ r))
squeeze-onto_tidy [] r c h = refl
squeeze-onto_tidy (x ∷ p) r c (_, meets, tidy) =
    let here : squeeze (x ∷ c ∷ r) ≡ x ∷ squeeze (c ∷ r) = ground arith in
    squeeze-onto_tidy p (c ∷ r) x tidy ∙ ap (onto p) here

pub squeeze_of_tidy : (p : Text) → IsTidy p → squeeze (onto p []) ≡ onto p []
squeeze_of_tidy [] h = refl
squeeze_of_tidy (x ∷ p) h = squeeze-onto_tidy p [] x h

space_no_junk : (c : ℕ) → isspace c ≡ true → is_junk c ≡ false
unfolding is_junk
space_no_junk c h = ground arith

pub squeeze-kept-dedupe :
    (p : Text) (c : ℕ) (r : Text)
    → squeeze (onto p (kept (dedupe (c ∷ r)))) ≡ squeeze (onto p (kept (c ∷ r)))
squeeze-kept-dedupe p c [] = refl
squeeze-kept-dedupe p c (d ∷ r) = elim (Bool-cases (isspace c && isspace d)) [
  | inl e ↦
      let k : kept (c ∷ d ∷ r) ≡ c ∷ d ∷ kept r =
        ground (arith, space_no_junk c, space_no_junk d) in
      let l : kept (d ∷ r) ≡ d ∷ kept r = ground (arith, space_no_junk d) in
      rw (e, k, squeeze-onto_spaces p c d (kept r) e, ← l) (squeeze-kept-dedupe p d r)
  | inr e ↦ rw e
]
