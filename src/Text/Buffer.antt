-- ===== src/Text/Buffer.antt =====
-- `std :: string` as a buffer that is edited in place: reading and erasing at an index. A buffer in
-- front of which a loop has passed is written `onto p r`: the bytes behind the index, last first,
-- and the bytes from the index on.
use mathlib.Core.Option
use mailfilter.Base.{ℕ, zero, suc, ◌+◌, ◌≡◌, refl, Option, none, some, [], ◌∷◌, arith, length}
use mailfilter.Text.{Text}
use native.Mathlib.Nat.{zero-add, add-zero}

-- `s[i]`: the terminator at the end, and undefined behaviour past it.
unfoldable pub at : Text → ℕ → Option ℕ
at [] zero = some 0
at [] (suc i) = none
at (c ∷ s) zero = some c
at (c ∷ s) (suc i) = at s i

-- `s.erase (i, 1)`, which throws `out_of_range` past the end.
unfoldable pub erase : Text → ℕ → Option Text
erase [] zero = some []
erase [] (suc i) = none
erase (c ∷ s) zero = some s
erase (c ∷ s) (suc i) = Option.map (λ t. c ∷ t) (erase s i)

abbrev pub onto : Text → Text → Text
onto [] r = r
onto (x ∷ p) r = onto p (x ∷ r)

at-onto_from : (p r : Text) (k : ℕ) → at (onto p r) (length p + k) ≡ at r k
unfolding at
at-onto_from [] r k = rw zero-add
at-onto_from (x ∷ p) r k =
    let e : suc (length p) + k ≡ length p + suc k = omega arith in
    rw e (at-onto_from p (x ∷ r) (suc k))

pub at-onto : (p r : Text) → at (onto p r) (length p) ≡ at r 0
at-onto p r = rw add-zero at (at-onto_from p r 0)

pub at-onto_next : (p r : Text) → at (onto p r) (length p + 1) ≡ at r 1
at-onto_next p r = at-onto_from p r 1

erase-onto_from :
    (p r t : Text) (k : ℕ) → erase r k ≡ some t → erase (onto p r) (length p + k) ≡ some (onto p t)
unfolding erase
erase-onto_from [] r t k h = rw zero-add h
erase-onto_from (x ∷ p) r t k h =
    let e : suc (length p) + k ≡ length p + suc k = omega arith in
    rw e (erase-onto_from p (x ∷ r) (x ∷ t) (suc k) (rw h))

pub erase-onto : (p r : Text) (c : ℕ) → erase (onto p (c ∷ r)) (length p) ≡ some (onto p r)
erase-onto p r c = rw add-zero at (erase-onto_from p (c ∷ r) r 0 (unfold erase in refl))

pub length-onto : (p r : Text) → length (onto p r) ≡ length p + length r
length-onto [] r = rw zero-add
length-onto (x ∷ p) r = omega (arith, length-onto p (x ∷ r))
