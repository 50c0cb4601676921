-- ===== src/Header/Normal.antt =====
-- `set_normal_subject` against a description that does not edit in place.
use mailfilter.Base.{
  ℕ, zero, suc, ◌+◌, ◌≡◌, true, false, some, [], ◌∷◌, ◌++◌, arith, length, ◌<◌, if◌then◌else◌,
  Bool-cases, inl, inr, ltb, ◌-◌, ◌*◌, ◌∙◌, ap, sym,
}
use mailfilter.Text.{Text, codes}
use mailfilter.Text.Buffer.{at, onto, at-onto, length-onto, erase-onto}
use mailfilter.Header.{Header, is_junk, delete_spaces, normalise, set_normal_subject}
use native.Mathlib.Numerals.{add-one}
use mailfilter.Base.Result.{◌>>=◌}
use mailfilter.Header.Spaces.{
  dedupe_tail, dedupe_head, IsTidy, dedupe_parts, normal_form, Meets, delete_spaces-onto, squeeze,
  isspace-dedupe_head, kept, squeeze_of_tidy, squeeze-kept-dedupe, length-dedupe_tail, dedupe-Meets,
}

abbrev Joins : Text → Text → Type 0
Joins [] r = Unit
Joins (x ∷ p) r = Meets x r

module _ (f : ℕ) (p : Text) (c : ℕ) (r : Text) where
  abbrev next_head : ℕ
  next_head = dedupe_head c r

  abbrev next_tail : Text
  next_tail = dedupe_tail c r

  before_end : ltb (length p) (length (onto p (c ∷ r))) ≡ true
  before_end = ground (arith, length-onto p (c ∷ r))

  deleted :
      delete_spaces (suc (length (onto p (c ∷ r)))) (onto p (c ∷ r)) (length p)
      ≡ some (onto p (next_head ∷ next_tail))
  deleted =
      rw (← dedupe_parts c r) (delete_spaces-onto _ p c r (omega (arith, length-onto p (c ∷ r))))

  round_kept :
      is_junk next_head ≡ false
      → normalise (suc f) (onto p (c ∷ r)) (length p)
        ≡ normalise f (onto (next_head ∷ p) next_tail) (suc (length p))
  unfolding normalise at
  round_kept k =
      ground (arith, before_end, deleted, at-onto p (next_head ∷ next_tail), add-one (length p))

  round_junk :
      is_junk next_head ≡ true
      → normalise (suc f) (onto p (c ∷ r)) (length p)
        ≡ normalise f (onto p next_tail) (length p - (if ltb 0 (length p) then 1 else 0))
  unfolding normalise at
  round_junk k = ground (
    arith,
    before_end,
    deleted,
    at-onto p (next_head ∷ next_tail),
    erase-onto p next_tail next_head,
  )

step_back : (n : ℕ) → suc n - (if ltb 0 (suc n) then 1 else 0) ≡ n
step_back n = ground arith

normalise_at_end : (f : ℕ) (p : Text) → normalise (suc f) (onto p []) (length p) ≡ some (onto p [])
unfolding normalise
normalise_at_end f p =
    let e : ltb (length p) (length (onto p [])) ≡ false = ground (arith, length-onto p []) in
    rw (e, normalise)

module _ (p : Text) (c : ℕ) (r : Text) where
  kept_head :
      is_junk (dedupe_head c r) ≡ false
      → squeeze (onto p (dedupe_head c r ∷ kept (dedupe_tail c r)))
        ≡ squeeze (onto p (kept (c ∷ r)))
  kept_head k =
      let e : kept (dedupe_head c r ∷ dedupe_tail c r) ≡ dedupe_head c r ∷ kept (dedupe_tail c r) =
        ground arith in
      ap (λ s. squeeze (onto p s)) (sym e ∙ ap kept (sym (dedupe_parts c r)))
      ∙ squeeze-kept-dedupe p c r

  kept_tail :
      is_junk (dedupe_head c r) ≡ true
      → squeeze (onto p (kept (dedupe_tail c r))) ≡ squeeze (onto p (kept (c ∷ r)))
  kept_tail j =
      let e : kept (dedupe_head c r ∷ dedupe_tail c r) ≡ kept (dedupe_tail c r) = ground arith in
      ap (λ s. squeeze (onto p s)) (sym e ∙ ap kept (sym (dedupe_parts c r)))
      ∙ squeeze-kept-dedupe p c r

Meets-head : (p : Text) (c : ℕ) (r : Text) → Joins p (c ∷ r) → Meets (dedupe_head c r) p
Meets-head [] c r h = tt
Meets-head (x ∷ p) c r h = ground (arith, isspace-dedupe_head c r)

Joins-of_tidy : (x : ℕ) (p t : Text) → IsTidy (x ∷ p) → Joins p (x ∷ t)
Joins-of_tidy x [] t h = tt
Joins-of_tidy x (y ∷ p) t h = ground arith

-- The loop, started behind a tidy part of the buffer.
normalise-onto :
    (f : ℕ) (p r : Text)
    → IsTidy p
    → Joins p r
    → 2 * length r + length p < f
    → normalise f (onto p r) (length p) ≡ some (squeeze (onto p (kept r)))
normalise-onto zero p r tidy joins h = absurd (omega arith)
normalise-onto (suc f) p [] tidy joins h =
    normalise_at_end f p ∙ ap some (sym (squeeze_of_tidy p tidy))
normalise-onto (suc f) [] (c ∷ r) tidy joins h =
    let shorter = length-dedupe_tail c r in
    elim (Bool-cases (is_junk (dedupe_head c r))) [
      | inl j ↦
          round_junk f [] c r j
          ∙ normalise-onto f [] (dedupe_tail c r) tt tt (omega (arith, shorter))
          ∙ ap some (kept_tail [] c r j)
      | inr k ↦
          round_kept f [] c r k
          ∙ normalise-onto f (dedupe_head c r ∷ []) (dedupe_tail c r) (k, tt, tt) (dedupe-Meets c r)
              (omega (arith, shorter))
          ∙ ap some (kept_head [] c r k)
    ]
normalise-onto (suc f) (x ∷ p) (c ∷ r) tidy joins h =
    let shorter = length-dedupe_tail c r in
    elim (Bool-cases (is_junk (dedupe_head c r))) [
      | inl j ↦
          let e : kept (x ∷ dedupe_tail c r) ≡ x ∷ kept (dedupe_tail c r) = ground arith in
          round_junk f (x ∷ p) c r j
          ∙ ap (normalise f (onto (x ∷ p) (dedupe_tail c r))) (step_back (length p))
          ∙ normalise-onto f p (x ∷ dedupe_tail c r) tidy.2 (Joins-of_tidy x p _ tidy)
              (omega (arith, shorter))
          ∙ ap (λ s. some (squeeze (onto p s))) e
          ∙ ap some (kept_tail (x ∷ p) c r j)
      | inr k ↦
          round_kept f (x ∷ p) c r k
          ∙ normalise-onto f (dedupe_head c r ∷ x ∷ p) (dedupe_tail c r)
              (k, Meets-head (x ∷ p) c r joins, tidy) (dedupe-Meets c r) (omega (arith, shorter))
          ∙ ap some (kept_head (x ∷ p) c r k)
    ]

-- `set_normal_subject` always returns: it reads no byte past the terminator, erases none past the
-- end and ends its loops; and it stores "Subject: " and the subject without its junk, in which each
-- run of white space has become its last byte. The other members stay.
pub set_normal_subject_lem :
    (h : Header) (s : Text)
    → set_normal_subject h s
      ≡ some (record h { msg_normal_subject = codes "Subject: " ++ normal_form s })
unfolding set_normal_subject
set_normal_subject_lem h s = rw (normalise-onto (2 * length s + 1) [] s tt tt (omega arith), ◌>>=◌)
