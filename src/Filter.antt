-- ===== src/Filter.antt =====
-- src/filter.cc, src/filter.hh, src/score.cc and src/score.hh: one rule of the configuration with
-- its regular expression, and a rule with a score. The POSIX functions `regcomp` and `regexec` are
-- a parameter; `R` is their `regex_t`.
use Prim.Native.Nat.{bit_or}
use mailfilter.Base.{ℕ, Bool, true, false, [], ◌==◌, if◌then◌else◌}
use mailfilter.Base.Int.{ℤ}
use mailfilter.Text.{Text}

-- `regcomp expr flags` is the error code, 0 on success, and the compiled expression;
-- `regexec r line` is 0 exactly on a match; `blank` is an object that nobody has compiled.
pub record Regex (R : Type 0) : Type 0 where
  pub regcomp : Text → ℕ → ℕ × R
  pub regexec : R → Text → ℕ
  pub blank : R

-- CASE_SENSITIVE and CASE_INSENSITIVE, which is REG_ICASE, and REG_EXTENDED, as in glibc.
abbrev pub case_sensitive : ℕ
case_sensitive = 0

abbrev pub case_insensitive : ℕ
case_insensitive = 2

abbrev pub reg_extended : ℕ
reg_extended = 1

pub record Filter (R : Type 0) : Type 0 where
  pub expr : Text
  pub comp_expr : R
  pub case_sensitivity : ℕ
  pub negativity : Bool
  pub compiled : Bool

module _ {R : Type 0} where
  -- Filter :: set_expression
  unfoldable pub set_expression : Filter R → Text → Filter R
  set_expression f exp = record f { expr = exp }

  -- Filter :: set_negativity
  unfoldable pub set_negativity : Filter R → Bool → Filter R
  set_negativity f t = record f { negativity = t }

  -- Filter :: set_case
  unfoldable pub set_case : Filter R → ℕ → Filter R
  set_case f c = record f { case_sensitivity = c }

module _ {R : Type 0} (rx : Regex R) where
  -- Filter :: Filter; the members that the constructor leaves alone are arbitrary.
  unfoldable pub new_filter : Filter R
  new_filter = record {
    expr = [];
    comp_expr = rx.blank;
    case_sensitivity = 0;
    negativity = false;
    compiled = false;
  }

  -- Filter :: compile, under the regular expression type of the preferences.
  unfoldable pub compile : ℕ → Filter R → ℕ × Filter R
  compile reg_type f =
      let (comp_err, r) = rx.regcomp f.expr (bit_or reg_type f.case_sensitivity) in
      (comp_err, record f { comp_expr = r; compiled = if comp_err == 0 then true else f.compiled })

  -- The test `regexec (cur->comp_exp (), line, 0, NULL, 0) == 0`.
  abbrev pub matches : Filter R → Text → Bool
  matches f line = rx.regexec f.comp_expr line == 0

-- Size_score
pub record SizeScore : Type 0 where
  pub score : ℤ
  pub size : ℤ

-- Score, which inherits from Filter
pub record Score (R : Type 0) : Type 0 where
  pub filter : Filter R
  pub scr : ℤ

-- Score :: set_score
unfoldable pub set_score : {R : Type 0} → Score R → ℤ → Score R
set_score s new_score = record s { scr = new_score }
