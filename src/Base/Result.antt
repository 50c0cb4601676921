-- ===== src/Base/Result.antt =====
-- How a call ends: it returns; or it has written a message and left the process by `exit (code)`; or
-- it has thrown an exception with a message.
use mathlib.Core.List.{List}
use mathlib.Core.Path.{◌≡◌, refl}
use Prim.Native.Nat.{ℕ}
use mailfilter.Base.Int.{ℤ, negsuc}

pub data Result {ℓ} (A : Type ℓ) : Type ℓ where
  ok : A → Result A
  exit : ℤ → List ℕ → Result A
  throw : List ℕ → Result A

-- What follows a call is done only if it returns.
infixl 5 ◌>>=◌
abbrev pub ◌>>=◌ {ℓ} : {A B : Type ℓ} → Result A → (A → Result B) → Result B
throw what >>= next = throw what
exit status text >>= next = exit status text
ok result >>= next = next result

-- `ERROR_MSG (m); exit (-1);`
abbrev pub die {ℓ} : {A : Type ℓ} → List ℕ → Result A
die m = exit (negsuc 0) m

pub ok-injective {ℓ} : {A : Type ℓ} {a b : A} → ok a ≡ ok b → a ≡ b
ok-injective h = cc

-- A chain returns only if its first call does.
pub returned {ℓ} :
    {A B : Type ℓ} {last : B} (call : Result A) (next : A → Result B)
    → call >>= next ≡ ok last
    → (result : A) × (call ≡ ok result) × (next result ≡ ok last)
returned (exit status text) next e = cc
returned (throw what) next e = cc
returned (ok result) next e = (result, refl, e)
