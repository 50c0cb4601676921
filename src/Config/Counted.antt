-- ===== src/Config/Counted.antt =====
-- The counters of negative rules, and the actions that change them.
use mailfilter.Base.{
  ℕ, ◌+◌, ◌≡◌, refl, Bool, List, [], ◌∷◌, ◌++◌, ◌⊎◌, arith, length, length-append, keep_if,
  keep_if-append, All, All-append, if◌then◌else◌, ◌∙◌, ap,
}
use mailfilter.Base.Int.{ℤ, pos, wrap, add_int, add_int-wrap, ◌+ℤ◌}
use mailfilter.Text.{Text}
use mailfilter.Filter.{Regex, Filter, Score, case_sensitive, case_insensitive}
use mailfilter.Preferences.{Preferences}
use mailfilter.Preferences.Setters.{Host}
use mailfilter.Preferences.Rules.{add_deny_rule, add_allow_rule, add_score, case_of}
use native.Mathlib.Nat.{add-zero}

pos-+ℤ-one : (n : ℕ) → pos n +ℤ pos 1 ≡ pos (n + 1)
unfolding ◌+ℤ◌
pos-+ℤ-one n = ground arith

bump : (n : ℕ) → add_int (wrap (pos n)) (pos 1) ≡ wrap (pos (n + 1))
bump n = add_int-wrap (pos n) (pos 1) ∙ ap wrap (pos-+ℤ-one n)

module _ {R : Type 0} where
  abbrev pub negatives : List (Filter R) → ℕ
  negatives fs = length (keep_if (λ (f : Filter R). f.negativity) fs)

  abbrev pub negative_scores : List (Score R) → ℕ
  negative_scores ss = length (keep_if (λ (s : Score R). s.filter.negativity) ss)

  -- A stored case flag is one of the two that exist.
  abbrev pub HasCase : Filter R → Type 0
  HasCase f = (f.case_sensitivity ≡ case_sensitive) ⊎ (f.case_sensitivity ≡ case_insensitive)

  -- Each counter is the number of its negative rules, as an `int`.
  pub record IsCounted (p : Preferences R) : Type 0 where
    pub allows : p.negative_allows ≡ wrap (pos (negatives p.allows))
    pub denies : p.negative_denies ≡ wrap (pos (negatives p.denies))
    pub scores : p.negative_scores ≡ wrap (pos (negative_scores p.scores))
    pub default_case : (p.icase ≡ case_sensitive) ⊎ (p.icase ≡ case_insensitive)
    pub allow_cases : All HasCase p.allows
    pub deny_cases : All HasCase p.denies

  count_snoc :
      (b : Bool) (n : ℤ) (fs : List (Filter R)) (f : Filter R)
      → f.negativity ≡ b
      → n ≡ wrap (pos (negatives fs))
      → (if b then add_int n (pos 1) else n) ≡ wrap (pos (negatives (fs ++ f ∷ [])))
  count_snoc b n fs f e h =
      rw (keep_if-append (λ (f : Filter R). f.negativity) fs (f ∷ []), length-append)
        (ground (arith, bump (negatives fs), add-zero (negatives fs)))

  score_count_snoc :
      (b : Bool) (n : ℤ) (fs : List (Score R)) (f : Score R)
      → f.filter.negativity ≡ b
      → n ≡ wrap (pos (negative_scores fs))
      → (if b then add_int n (pos 1) else n) ≡ wrap (pos (negative_scores (fs ++ f ∷ [])))
  score_count_snoc b n fs f e h =
      rw (keep_if-append (λ (f : Score R). f.filter.negativity) fs (f ∷ []), length-append)
        (ground (arith, bump (negative_scores fs), add-zero (negative_scores fs)))

case_of_cases :
    (keyword with_case without_case : Text) (c : ℕ)
    → (c ≡ case_sensitive) ⊎ (c ≡ case_insensitive)
    → (case_of keyword with_case without_case c ≡ case_sensitive)
      ⊎ (case_of keyword with_case without_case c ≡ case_insensitive)
case_of_cases keyword with_case without_case c h = ground arith

module _ {R : Type 0} (rx : Regex R) (host : Host) where
  pub add_deny_rule-IsCounted :
      (p : Preferences R) (keyword operat id : Text)
      → IsCounted p
      → IsCounted (add_deny_rule rx p keyword operat id)
  unfolding add_deny_rule
  add_deny_rule-IsCounted p keyword operat id k = record {
    allows = k.allows;
    denies = count_snoc _ _ p.denies _ refl k.denies;
    scores = k.scores;
    default_case = k.default_case;
    allow_cases = k.allow_cases;
    deny_cases =
        All-append HasCase p.denies _ k.deny_cases
          (case_of_cases keyword _ _ p.icase k.default_case, tt);
  }

  pub add_allow_rule-IsCounted :
      (p : Preferences R) (keyword operat id : Text)
      → IsCounted p
      → IsCounted (add_allow_rule rx p keyword operat id)
  unfolding add_allow_rule
  add_allow_rule-IsCounted p keyword operat id k = record {
    allows = count_snoc _ _ p.allows _ refl k.allows;
    denies = k.denies;
    scores = k.scores;
    default_case = k.default_case;
    allow_cases =
        All-append HasCase p.allows _ k.allow_cases
          (case_of_cases keyword _ _ p.icase k.default_case, tt);
    deny_cases = k.deny_cases;
  }

  pub add_score-IsCounted :
      (p : Preferences R) (keyword : Text) (n : ℤ) (operat id : Text)
      → IsCounted p
      → IsCounted (add_score rx p keyword n operat id)
  unfolding add_score
  add_score-IsCounted p keyword n operat id k = record {
    allows = k.allows;
    denies = k.denies;
    scores = score_count_snoc _ _ p.scores _ refl k.scores;
    default_case = k.default_case;
    allow_cases = k.allow_cases;
    deny_cases = k.deny_cases;
  }

  -- What the other commands leave alone.
  pub record SameRules (p q : Preferences R) : Type 0 where
    pub allows : q.allows ≡ p.allows
    pub denies : q.denies ≡ p.denies
    pub scores : q.scores ≡ p.scores
    pub negative_allows : q.negative_allows ≡ p.negative_allows
    pub negative_denies : q.negative_denies ≡ p.negative_denies
    pub negative_scores : q.negative_scores ≡ p.negative_scores
    pub default_case :
        (q.icase ≡ p.icase) ⊎ (q.icase ≡ case_sensitive) ⊎ (q.icase ≡ case_insensitive)

  pub SameRules-IsCounted : (p q : Preferences R) → SameRules p q → IsCounted p → IsCounted q
  SameRules-IsCounted p q e k = record {
    allows = rw (e.negative_allows, e.allows) k.allows;
    denies = rw (e.negative_denies, e.denies) k.denies;
    scores = rw (e.negative_scores, e.scores) k.scores;
    default_case = ground (arith, e.default_case, k.default_case);
    allow_cases = rw e.allows k.allow_cases;
    deny_cases = rw e.denies k.deny_cases;
  }
