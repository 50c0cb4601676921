-- ===== src/Base/Int.antt =====
-- The integers over the native numbers, and `int` and `unsigned int` of 32 bits as ranges of them.
-- An `int` that overflows wraps in two's complement, as the compilers in use do where they do
-- anything defined.
use Prim.Native.Nat.{ℕ, suc, ◌+◌, ◌-◌, ◌%◌, ◌^◌, ◌≤◌, ◌<◌}
use mathlib.Core.Path.{◌≡◌}
use mathlib.Core.Bool.{Bool}
use mathlib.Core.List.{List, [], ◌∷◌, ◌++◌}
use native.Mathlib.Omega.{arith}
use mailfilter.Base.Tests.{ltb, leb, ◌==◌, if◌then◌else◌}

-- `negsuc n` is -(n + 1).
pub data ℤ : Type 0 where
  pos : ℕ → ℤ
  negsuc : ℕ → ℤ

abbrev pub pos_part : ℤ → ℕ
pos_part (pos n) = n
pos_part (negsuc n) = 0

abbrev pub neg_part : ℤ → ℕ
neg_part (pos n) = 0
neg_part (negsuc n) = suc n

-- a - b, as an integer.
abbrev pub sub_ℕ : ℕ → ℕ → ℤ
sub_ℕ a b = if leb b a then pos (a - b) else negsuc (b - a - 1)

infixl 65 ◌+ℤ◌
infix 50 ◌≤ℤ◌ ◌<ℤ◌
unfoldable pub ◌+ℤ◌ : ℤ → ℤ → ℤ
a +ℤ b = sub_ℕ (pos_part a + pos_part b) (neg_part a + neg_part b)

abbrev pub ◌≤ℤ◌ : ℤ → ℤ → Type 0
a ≤ℤ b = pos_part a + neg_part b ≤ pos_part b + neg_part a

abbrev pub ◌<ℤ◌ : ℤ → ℤ → Type 0
a <ℤ b = pos_part a + neg_part b < pos_part b + neg_part a

abbrev pub ltb_ℤ : ℤ → ℤ → Bool
ltb_ℤ a b = ltb (pos_part a + neg_part b) (pos_part b + neg_part a)

abbrev pub eq_ℤ : ℤ → ℤ → Bool
eq_ℤ a b = pos_part a + neg_part b == pos_part b + neg_part a

abbrev pub neg : ℤ → ℤ
neg a = sub_ℕ (neg_part a) (pos_part a)

pub +ℤ_parts :
    (a b : ℤ)
    → pos_part (a +ℤ b) + neg_part a + neg_part b ≡ neg_part (a +ℤ b) + pos_part a + pos_part b
unfolding ◌+ℤ◌
+ℤ_parts a b = ground arith

pub eq_of_parts : (a b : ℤ) → pos_part a + neg_part b ≡ pos_part b + neg_part a → a ≡ b
eq_of_parts a b h = ground arith

pub ruleset int_laws = (arith, +ℤ_parts, eq_of_parts)

pub +ℤ_assoc : (a b c : ℤ) → a +ℤ b +ℤ c ≡ a +ℤ (b +ℤ c)
+ℤ_assoc a b c = omega int_laws

unfoldable pub sum : List ℤ → ℤ
sum [] = pos 0
sum (x ∷ xs) = x +ℤ sum xs

pub sum-append : (xs ys : List ℤ) → sum (xs ++ ys) ≡ sum xs +ℤ sum ys
unfolding sum
sum-append [] ys = omega int_laws
sum-append (x ∷ xs) ys = rw (sum-append xs ys, ← +ℤ_assoc)

-- The residue of an integer modulo 2 ^ 32.
abbrev pub residue : ℤ → ℕ
residue (pos n) = n % 2 ^ 32
residue (negsuc n) = 2 ^ 32 - 1 - n % 2 ^ 32

-- The `int` with a given bit pattern.
abbrev pub signed : ℕ → ℤ
signed r = if ltb r (2 ^ 31) then pos r else negsuc (2 ^ 32 - 1 - r)

unfoldable pub wrap : ℤ → ℤ
wrap a = signed (residue a)

abbrev pub IsInt : ℤ → Type 0
IsInt a = (negsuc (2 ^ 31 - 1) ≤ℤ a) × (a <ℤ pos (2 ^ 31))

pub wrap-IsInt : (a : ℤ) → IsInt (wrap a)
unfolding wrap
wrap-IsInt (pos n) = ground arith
wrap-IsInt (negsuc n) = ground arith

pub wrap_of_IsInt : (a : ℤ) → IsInt a → wrap a ≡ a
unfolding wrap
wrap_of_IsInt (pos n) h = ground arith
wrap_of_IsInt (negsuc n) h = ground arith

residue-wrap : (a : ℤ) → residue (wrap a) ≡ residue a
unfolding wrap
residue-wrap (pos n) = ground arith
residue-wrap (negsuc n) = ground arith

residue-+ℤ : (a b : ℤ) → residue (a +ℤ b) ≡ (residue a + residue b) % 2 ^ 32
unfolding ◌+ℤ◌
residue-+ℤ (pos a) (pos b) = ground arith
residue-+ℤ (pos a) (negsuc b) = ground arith
residue-+ℤ (negsuc a) (pos b) = ground arith
residue-+ℤ (negsuc a) (negsuc b) = ground arith

-- `a + b` of two `int`s.
unfoldable pub add_int : ℤ → ℤ → ℤ
unfolding wrap
add_int a b = wrap (a +ℤ b)

-- Wrapping after each addition or once at the end is the same.
pub add_int-wrap : (a b : ℤ) → add_int (wrap a) b ≡ wrap (a +ℤ b)
unfolding add_int
add_int-wrap a b =
    let h : residue (wrap a +ℤ b) ≡ residue (a +ℤ b) =
      omega (arith, residue-+ℤ (wrap a) b, residue-+ℤ a b, residue-wrap a) in
    rw (wrap, h)

-- `(unsigned int)a` of an `int`.
abbrev pub to_unsigned : ℤ → ℕ
to_unsigned a = residue a

pub zero-+ℤ : (a : ℤ) → pos 0 +ℤ a ≡ a
zero-+ℤ a = omega int_laws

pub +ℤ-zero : (a : ℤ) → a +ℤ pos 0 ≡ a
+ℤ-zero a = omega int_laws
