-- ===== src/Flex/Splits.antt =====
-- A match, with what is behind it, is the input of a scanner, and it is not empty.
use mailfilter.Base.{
  ℕ, length, all, All, ltb, if◌then◌else◌, Bool-cases, ◌<◌, ◌≡◌, refl, ap, inl, inr, ◌⊎◌, Bool,
  true, false, Option, none, some, List, [], ◌∷◌, ◌++◌, arith,
}
use mailfilter.Text.{Text}
use mailfilter.Flex.{byte_match, Match, run, longest, Taken, Candidate, further}

abbrev pub Splits : Text → Option Match → Type 0
Splits s none = Unit {0}
Splits s (some (m, rest)) = (m ++ rest ≡ s) × (0 < length m)

pub run_lem : (p : ℕ → Bool) (s : Text) → (run p s).0 ++ (run p s).1 ≡ s
unfolding run
run_lem p [] = refl
run_lem p (c ∷ s) = ground (arith, run_lem p s)

pub if-Splits :
    (b : Bool) (s : Text) (x y : Option Match)
    → (b ≡ true → Splits s x)
    → (b ≡ false → Splits s y)
    → Splits s (if b then x else y)
if-Splits true s x y p q = p refl
if-Splits false s x y p q = q refl

pub further-Splits :
    (c : ℕ) (s : Text) (x : Option Match) → Splits s x → Splits (c ∷ s) (further c x)
further-Splits c s none p = tt
further-Splits c s (some (m, rest)) p = (ap (λ t. c ∷ t) p.0, omega arith)

pub byte_match-Splits : (p : ℕ → Bool) (s : Text) → Splits s (byte_match p s)
unfolding byte_match
byte_match-Splits p [] = tt
byte_match-Splits p (c ∷ s) =
    if-Splits (p c) (c ∷ s) (some (c ∷ [], s)) none (λ h. (refl, omega arith)) (λ h. tt)

pub run_stop :
    (p : ℕ → Bool) (xs : Text) (d : ℕ) (rest : Text)
    → all p xs ≡ true
    → p d ≡ false
    → run p (xs ++ d ∷ rest) ≡ (xs, d ∷ rest)
unfolding run
run_stop p [] d rest h k = rw k
run_stop p (c ∷ xs) d rest h k = ground (arith, h, k, run_stop p xs d rest)

-- What holds of every candidate holds of the one that is taken.
abbrev pub OfTaken : {R : Type 0} → (Candidate R → Type 0) → Option (Taken R) → Type 0
OfTaken P none = Unit {0}
OfTaken P (some (r, m, rest)) = P (r, some (m, rest))

longer-OfTaken :
    {R : Type 0} (P : Candidate R → Type 0) (r : R) (m rest : Text) (o : Option (Taken R))
    → P (r, some (m, rest))
    → OfTaken P o
    → OfTaken P (elim o [
      | none ↦ some (r, m, rest)
      | some (q, n, last) ↦
          if ltb (length m) (length n) then some (q, n, last) else some (r, m, rest)
    ])
longer-OfTaken P r m rest none p q = p
longer-OfTaken P r m rest (some (u, n, last)) p q = elim (Bool-cases (ltb (length m) (length n))) [
  | inl h ↦ rw h q
  | inr h ↦ rw h p
]

pub longest-OfTaken :
    {R : Type 0} (P : Candidate R → Type 0) (cs : List (Candidate R))
    → All P cs
    → OfTaken P (longest cs)
unfolding longest
longest-OfTaken P [] all = tt
longest-OfTaken P ((r, none) ∷ cs) all = longest-OfTaken P cs all.1
longest-OfTaken P ((r, some (m, rest)) ∷ cs) all =
    longer-OfTaken P r m rest (longest cs) all.0 (longest-OfTaken P cs all.1)

-- Some candidate is there with a match that is not empty.
abbrev pub Covers : {R : Type 0} → List (Candidate R) → Type 0
Covers [] = ⊥
Covers ((r, none) ∷ cs) = Covers cs
Covers ((r, some (m, rest)) ∷ cs) = (0 < length m) ⊎ Covers cs

pub Covers-cons :
    {R : Type 0} (c : Candidate R) (cs : List (Candidate R)) → Covers cs → Covers (c ∷ cs)
Covers-cons (r, none) cs h = h
Covers-cons (r, some (m, rest)) cs h = inr h

pub Covers-append : {R : Type 0} (cs ds : List (Candidate R)) → Covers ds → Covers (cs ++ ds)
Covers-append [] ds h = h
Covers-append (c ∷ cs) ds h = Covers-cons c (cs ++ ds) (Covers-append cs ds h)

-- What is taken is there, and is not empty.
abbrev pub IsFilled : {R : Type 0} → Option (Taken R) → Type 0
IsFilled {R} o = (taken : Taken R) × (o ≡ some taken) × (0 < length taken.1)

longer-IsFilled :
    {R : Type 0} (r : R) (m rest : Text) (o : Option (Taken R))
    → (0 < length m) ⊎ IsFilled o
    → IsFilled (elim o as (λ x. Option (Taken R)) [
      | none ↦ some (r, m, rest)
      | some (q, n, last) ↦
          if ltb (length m) (length n) then some (q, n, last) else some (r, m, rest)
    ])
longer-IsFilled r m rest none (inl h) = ((r, m, rest), refl, h)
longer-IsFilled r m rest none (inr (taken, e, h)) = cc
longer-IsFilled r m rest (some (u, n, last)) h = elim (Bool-cases (ltb (length m) (length n))) [
  | inl k ↦ ((u, n, last), rw k refl, ground (arith, k))
  | inr k ↦ (
    (r, m, rest),
    rw k refl,
    elim h [ inl long ↦ long | inr ((taken, e, long)) ↦ ground (arith, k, e, long) ],
  )
]

pub longest-IsFilled : {R : Type 0} (cs : List (Candidate R)) → Covers cs → IsFilled (longest cs)
unfolding longest
longest-IsFilled [] h = elim h [ ]
longest-IsFilled ((r, none) ∷ cs) h = longest-IsFilled cs h
longest-IsFilled ((r, some (m, rest)) ∷ cs) (inl h) = longer-IsFilled r m rest (longest cs) (inl h)
longest-IsFilled ((r, some (m, rest)) ∷ cs) (inr h) =
    longer-IsFilled r m rest (longest cs) (inr (longest-IsFilled cs h))
