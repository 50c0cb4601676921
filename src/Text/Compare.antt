-- ===== src/Text/Compare.antt =====
-- `cmp_no_case` is the lexicographic order of the values of the upper-case forms.
use mailfilter.Base.{
  ℕ, suc, ◌+◌, ◌<◌, ◌≤◌, ◌≡◌, ◌≢◌, ap, refl, ◌↔◌, ◌⊎◌, true, [], ◌∷◌, map, arith, length, List,
  Bool-cases, inl, inr, ltb,
}
use native.Mathlib.Nat.{zero-add}
use mailfilter.Base.Int.{pos, negsuc, neg, ℤ, eq_ℤ, ltb_ℤ, pos_part}
use mailfilter.Text.{Text, str_eq, toupper, cmp_loop, cmp_no_case, upper}

pub str_eq_iff : (s t : Text) → (str_eq s t ≡ true) ↔ (s ≡ t)
str_eq_iff [] [] = ((λ h. refl), λ h. refl)
str_eq_iff [] (d ∷ t) = ground arith
str_eq_iff (c ∷ s) [] = ground arith
str_eq_iff (c ∷ s) (d ∷ t) = ground (arith, str_eq_iff s t)

-- Lexicographic order of lists of values.
abbrev pub Lex : List ℤ → List ℤ → Type 0
Lex [] [] = ⊥
Lex [] (d ∷ t) = Unit
Lex (c ∷ s) [] = ⊥
Lex (c ∷ s) (d ∷ t) = (ltb_ℤ c d ≡ true) ⊎ ((c ≡ d) × Lex s t)

eq_ℤ_iff : (a b : ℤ) → (eq_ℤ a b ≡ true) ↔ (a ≡ b)
eq_ℤ_iff a b = ground arith

toupper-lt : (c : ℕ) → c < 128 → toupper c < 128
unfolding toupper
toupper-lt c h = ground arith

toupper-high : (c : ℕ) → 128 ≤ c → toupper c ≡ c
unfolding toupper
toupper-high c h = ground arith

module _ (high : ℕ → ℤ) where
  cmp_loop-eq-zero_iff :
      (k : ℕ) (s t : Text)
      → (cmp_loop high (k + length s) (k + length t) s t ≡ pos 0)
        ↔ (map (upper high) s ≡ map (upper high) t)
  unfolding cmp_loop
  cmp_loop-eq-zero_iff k [] [] = ground arith
  cmp_loop-eq-zero_iff k [] (d ∷ t) = ground arith
  cmp_loop-eq-zero_iff k (c ∷ s) [] = ground arith
  cmp_loop-eq-zero_iff k (c ∷ s) (d ∷ t) = ground (arith, cmp_loop-eq-zero_iff (suc k) s t)

  cmp_loop-eq-negative_iff :
      (k : ℕ) (s t : Text)
      → (cmp_loop high (k + length s) (k + length t) s t ≡ negsuc 0)
        ↔ Lex (map (upper high) s) (map (upper high) t)
  unfolding cmp_loop
  cmp_loop-eq-negative_iff k [] [] = ground arith
  cmp_loop-eq-negative_iff k [] (d ∷ t) = ground arith
  cmp_loop-eq-negative_iff k (c ∷ s) [] = ground arith
  cmp_loop-eq-negative_iff k (c ∷ s) (d ∷ t) = ground (arith, cmp_loop-eq-negative_iff (suc k) s t)

  cmp_loop_swap : (n n2 : ℕ) (s t : Text) → cmp_loop high n2 n t s ≡ neg (cmp_loop high n n2 s t)
  unfolding cmp_loop
  cmp_loop_swap n n2 [] [] = ground arith
  cmp_loop_swap n n2 [] (d ∷ t) = ground arith
  cmp_loop_swap n n2 (c ∷ s) [] = ground arith
  cmp_loop_swap n n2 (c ∷ s) (d ∷ t) = ground (arith, cmp_loop_swap n n2 s t)

  cmp_no_case-zero :
      (s t : Text) → (cmp_no_case high s t ≡ pos 0) ↔ (map (upper high) s ≡ map (upper high) t)
  unfolding cmp_no_case
  cmp_no_case-zero s t = simp zero-add at (cmp_loop-eq-zero_iff 0 s t)

  -- What `toupper` gives for a byte from 128 on is another value for another such byte, and none of
  -- those of the bytes below 128.
  pub record IsHigh : Type 0 where
    pub apart : (c d : ℕ) → 128 ≤ c → 128 ≤ d → high c ≡ high d → c ≡ d
    pub outside : (c d : ℕ) → 128 ≤ c → d < 128 → high c ≢ pos d

  upper_iff : IsHigh → (c d : ℕ) → (upper high c ≡ upper high d) ↔ (toupper c ≡ toupper d)
  upper_iff h c d = elim (Bool-cases (ltb c 128)) [
    | inl k ↦ elim (Bool-cases (ltb d 128)) [
      | inl m ↦ ground (arith, k, m)
      | inr m ↦
          let differ =
            h.outside d (toupper c) (ground (arith, m)) (toupper-lt c (ground (arith, k))) in
          ground (arith, k, m, toupper-high d, toupper-lt c, differ)
    ]
    | inr k ↦ elim (Bool-cases (ltb d 128)) [
      | inl m ↦
          let differ =
            h.outside c (toupper d) (ground (arith, k)) (toupper-lt d (ground (arith, m))) in
          ground (arith, k, m, toupper-high c, toupper-lt d, differ)
      | inr m ↦ ground (arith, k, m, toupper-high c, toupper-high d, h.apart c d)
    ]
  ]

  all_upper_iff :
      IsHigh
      → (s t : Text) → (map (upper high) s ≡ map (upper high) t) ↔ (map toupper s ≡ map toupper t)
  all_upper_iff h [] [] = ground arith
  all_upper_iff h [] (d ∷ t) = ground arith
  all_upper_iff h (c ∷ s) [] = ground arith
  all_upper_iff h (c ∷ s) (d ∷ t) = ground (arith, upper_iff h c d, all_upper_iff h s t)

  -- `cmp_no_case s t` is 0 exactly when the two strings agree in upper case, byte for byte; it is -1
  -- exactly when the values that `toupper` gives for the first come before those for the second in
  -- the dictionary; and swapping the arguments negates the result. Here the values for the bytes
  -- from 128 on, which depend on whether `char` is signed, are any that differ from each other and
  -- from those of the other bytes.
  pub cmp_no_case_order :
      IsHigh
      → (s t : Text)
      → ((cmp_no_case high s t ≡ pos 0) ↔ (map toupper s ≡ map toupper t))
        × ((cmp_no_case high s t ≡ negsuc 0) ↔ Lex (map (upper high) s) (map (upper high) t))
        × (cmp_no_case high t s ≡ neg (cmp_no_case high s t))
  unfolding cmp_no_case
  cmp_no_case_order h s t =
      let zero_iff = cmp_no_case-zero s t in
      let both = all_upper_iff h s t in
      (
        (λ e. both.0 (zero_iff.0 e), λ e. zero_iff.1 (both.1 e)),
        simp zero-add at (cmp_loop-eq-negative_iff 0 s t),
        cmp_loop_swap (length s) (length t) s t,
      )

unsigned-IsHigh : IsHigh pos
unsigned-IsHigh = record {
  apart = λ c d h k e. cc;
  outside = λ c d h k e. omega (arith, ap pos_part e);
}

pub cmp_no_case-eq-zero_iff :
    (s t : Text) → (cmp_no_case pos s t ≡ pos 0) ↔ (map toupper s ≡ map toupper t)
cmp_no_case-eq-zero_iff s t = (cmp_no_case_order pos unsigned-IsHigh s t).0
