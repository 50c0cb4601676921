-- ===== src/Rcfile/Fuel.antt =====
-- src/rcfile.yy: the parser gets through its tokens.
use mailfilter.Rcfile.{
  command, num_arg, operat, str_arg, yes_no_arg, equals, not_equal, quote, part, yes_no_id, num_id,
  parts, ConfigToken, Production, derive, string_value, reduced, rcparse_from, keyword, production,
  executed,
}
use mailfilter.Base.{
  length, ℕ, suc, ◌≤◌, true, Option, none, some, List, [], ◌∷◌, arith, zero, ◌<◌, ◌≡◌, refl, ap,
  Bool,
}
use mailfilter.Base.Result.{Result, ok, exit, throw}
use mailfilter.Text.{Text}
use mailfilter.Config.Strings.{Popen, Exp, exps}
use mailfilter.Config.{Command, run_command}
use mailfilter.Filter.{Regex}
use mailfilter.Preferences.Setters.{Host}
use mailfilter.Preferences.{Preferences}
use mathlib.Core.Path.{fun_ext}

-- If a rule has been reduced, there are `n` tokens left at most.
abbrev Within : ℕ → Option (Result (Command × List ConfigToken)) → Type 0
Within n (some (ok (c, us))) = length us ≤ n
Within n _ = Unit {0}

-- The same of a string.
abbrev StringWithin : ℕ → Option (Result (Text × List ConfigToken)) → Type 0
StringWithin n (some (ok (s, us))) = length us ≤ n
StringWithin n _ = Unit {0}

Within-suc :
    (n : ℕ) (o : Option (Result (Command × List ConfigToken))) → Within n o → Within (suc n) o
Within-suc n none h = tt
Within-suc n (some (exit status text)) h = tt
Within-suc n (some (throw what)) h = tt
Within-suc n (some (ok (c, us))) h = omega arith

Within-le :
    (n m : ℕ) (o : Option (Result (Command × List ConfigToken))) → n ≤ m → Within n o → Within m o
Within-le n m none le h = tt
Within-le n m (some (exit status text)) le h = tt
Within-le n m (some (throw what)) le h = tt
Within-le n m (some (ok (c, us))) le h = omega arith

parts_shorter : (ts : List ConfigToken) → length (parts ts).1 ≤ length ts
unfolding parts
parts_shorter [] = omega arith
parts_shorter (part e ∷ ts) = omega (arith, parts_shorter ts)
parts_shorter (_ ∷ ts) = omega arith

string_value-StringWithin :
    (o : Option (Result Text)) (es : List Exp) (ts : List ConfigToken)
    → StringWithin (length ts) (string_value o es ts)
string_value-StringWithin none es ts = tt
string_value-StringWithin (some (exit status text)) es ts = tt
string_value-StringWithin (some (throw what)) es ts = tt
string_value-StringWithin (some (ok s)) [] ts = tt
string_value-StringWithin (some (ok s)) (e ∷ es) [] = tt
string_value-StringWithin (some (ok s)) (e ∷ es) (quote ∷ ts) = omega arith
string_value-StringWithin (some (ok s)) (e ∷ es) (_ ∷ ts) = tt

module _ {W : Type 0} (sh : Popen W) where
  -- What `derive` does with the value of a string.
  after_string-Within :
      (n : ℕ) (next : Text → Production) (w : W) (o : Option (Result (Text × List ConfigToken)))
      → StringWithin n o
      → ((s : Text) (us : List ConfigToken) → Within (length us) (derive sh (next s) us w).0)
      → Within n
          (elim o as (λ x. Option (Result (Command × List ConfigToken)) × W) [
            | none ↦ (none, w)
            | some (exit status text) ↦ (some (exit status text), w)
            | some (throw what) ↦ (some (throw what), w)
            | some (ok (s, us)) ↦ derive sh (next s) us w
          ]).0
  after_string-Within n next w none h k = tt
  after_string-Within n next w (some (exit status text)) h k = tt
  after_string-Within n next w (some (throw what)) h k = tt
  after_string-Within n next w (some (ok (s, us))) h k =
      Within-le (length us) n (derive sh (next s) us w).0 h (k s us)

  derive-Within :
      (rule : Production) (ts : List ConfigToken) (w : W)
      → Within (length ts) (derive sh rule ts w).0
  unfolding derive
  derive-Within (command c) ts w = omega arith
  derive-Within (num_arg next) [] w = tt
  derive-Within (num_arg next) (num_id n ∷ ts) w =
      Within-suc (length ts) (derive sh (next n) ts w).0 (derive-Within (next n) ts w)
  derive-Within (num_arg next) (_ ∷ ts) w = tt
  derive-Within (operat also next) [] w = tt
  derive-Within (operat also next) (equals op ∷ ts) w =
      Within-suc (length ts) (derive sh (next op) ts w).0 (derive-Within (next op) ts w)
  derive-Within (operat true next) (not_equal op ∷ ts) w =
      Within-suc (length ts) (derive sh (next op) ts w).0 (derive-Within (next op) ts w)
  derive-Within (operat also next) (_ ∷ ts) w = tt
  derive-Within (yes_no_arg next) (quote ∷ yes_no_id t ∷ quote ∷ ts) w =
      Within-le (length ts) (suc (suc (suc (length ts)))) (derive sh (next t) ts w).0 (omega arith)
        (derive-Within (next t) ts w)
  derive-Within (yes_no_arg next) _ w = tt
  derive-Within (str_arg next) [] w = tt
  derive-Within (str_arg next) (quote ∷ ts) w =
      let (es, rest) = parts ts in
      let (value, w1) = exps sh [] es w in
      Within-le (length rest) (suc (length ts)) _ (omega (arith, parts_shorter ts)) (
        after_string-Within (length rest) next w1 (string_value value es rest)
          (string_value-StringWithin value es rest) (λ s us. derive-Within (next s) us w1))
  derive-Within (str_arg next) (_ ∷ ts) w = tt

reduced-eq :
    {W X : Type 0} (n : ℕ) (d : Option (Result (Command × List ConfigToken)) × W)
    (first second : Command → List ConfigToken → W → Option (Result X) × W)
    → Within n d.0
    → ((c : Command) (us : List ConfigToken) (w : W) → length us ≤ n → first c us w ≡ second c us w)
    → reduced d first ≡ reduced d second
reduced-eq n (none, w) first second h k = refl
reduced-eq n (some (exit status text), w) first second h k = refl
reduced-eq n (some (throw what), w) first second h k = refl
reduced-eq n (some (ok (c, us)), w) first second h k = k c us w h

-- With more fuel than there are tokens, the parser of the configuration ends as it does with any
-- other such amount, so that what it gives does not come from a lack of fuel.
pub rcparse_from-fuel :
    {W R : Type 0} (sh : Popen W) (rx : Regex R) (host : Host) (f g : ℕ) (p : Preferences R)
    (ts : List ConfigToken) (complete : Bool) (w : W)
    → length ts < f
    → length ts < g
    → rcparse_from sh rx host f p ts complete w ≡ rcparse_from sh rx host g p ts complete w
unfolding rcparse_from
rcparse_from-fuel sh rx host zero g p ts complete w h k = absurd (omega arith)
rcparse_from-fuel sh rx host (suc f) zero p ts complete w h k = absurd (omega arith)
rcparse_from-fuel sh rx host (suc f) (suc g) p [] complete w h k = refl
rcparse_from-fuel sh rx host (suc f) (suc g) p (keyword key kw ∷ ts) complete w h k =
    reduced-eq (length ts) (derive sh (production key kw) ts w)
      (λ c us w1.
        executed (run_command rx host p c) (λ q. rcparse_from sh rx host f q us complete w1) w1)
      (λ c us w1.
        executed (run_command rx host p c) (λ q. rcparse_from sh rx host g q us complete w1) w1)
      (derive-Within sh (production key kw) ts w)
      (λ c us w1 fewer.
        ap (λ next. executed (run_command rx host p c) next w1)
          (fun_ext
            (λ q. rcparse_from-fuel sh rx host f g q us complete w1 (omega arith) (omega arith))))
rcparse_from-fuel sh rx host (suc f) (suc g) p (_ ∷ ts) complete w h k = refl
