-- ===== src/Rcfile.antt =====
-- src/rcfile.yy: the tokens of the configuration file, and the rules of its grammar, whose actions
-- are in Config. Its scanner, src/rcfile.ll, is in Rcfile.Scanner.
pub mod Patterns
pub mod Scanner
pub mod Param
pub mod Strings
pub mod Lines
pub mod LineTokens
pub mod RoundTrip
pub mod Matches
pub mod Candidates
pub mod Progress
pub mod Fuel
pub mod Unended
use mailfilter.Config.{Command, allow_rule, deny_rule, run_command}
use mailfilter.Base.Int.{ℤ, negsuc}
use mailfilter.Base.Result.{Result, exit, ok, throw}
use mailfilter.Base.{
  if◌then◌else◌, ℕ, zero, suc, Bool, true, false, Option, none, some, List, [], ◌∷◌,
}
use mailfilter.Text.{Text}
use mailfilter.Config.Strings.{Exp, Popen, exps}
use mailfilter.Filter.{Regex}
use mailfilter.Preferences.Setters.{Host}
use mailfilter.Preferences.{Preferences}

pub data Keyword : Type 0 where
  allow allow_case allow_nocase del_duplicates deny deny_case deny_nocase highscore logfile
        maxlength maxsize_allow maxsize_deny maxsize_score normal server user pass protocol port
        reg_case reg_type show_headers score score_case score_nocase test timeout verbose :
      Keyword

-- The tokens with their values. The parts of a string are those of Config.Strings.
pub data ConfigToken : Type 0 where
  keyword : Keyword → Text → ConfigToken
  equals not_equal yes_no_id : Text → ConfigToken
  quote : ConfigToken
  num_id : ℤ → ConfigToken
  part : Exp → ConfigToken

-- What a rule has behind its keyword: `num_arg`; `=`, or `<>` where that is allowed; `str_arg`;
-- `yes_no_arg`; and the command.
pub data Production : Type 0 where
  num_arg : (ℤ → Production) → Production
  operat : Bool → (Text → Production) → Production
  str_arg yes_no_arg : (Text → Production) → Production
  command : Command → Production

abbrev pub filtered : (Text → Text → Command) → Production
filtered c = operat true (λ op. str_arg (λ s. command (c op s)))

abbrev pub scored : Text → Production
scored kw = num_arg (λ n. filtered (λ op s. Command.score kw n op s))

abbrev pub with_num : (ℤ → Command) → Production
with_num c = operat false (λ op. num_arg (λ n. command (c n)))

abbrev pub with_str : (Text → Command) → Production
with_str c = operat false (λ op. str_arg (λ s. command (c s)))

abbrev pub with_yes_no : (Text → Command) → Production
with_yes_no c = operat false (λ op. yes_no_arg (λ s. command (c s)))

-- The rules, by their keywords.
unfoldable pub production : Keyword → Text → Production
production Keyword.allow kw = filtered (allow_rule kw)
production Keyword.allow_case kw = filtered (allow_rule kw)
production Keyword.allow_nocase kw = filtered (allow_rule kw)
production Keyword.del_duplicates kw = with_yes_no Command.del_duplicates
production Keyword.deny kw = filtered (deny_rule kw)
production Keyword.deny_case kw = filtered (deny_rule kw)
production Keyword.deny_nocase kw = filtered (deny_rule kw)
production Keyword.highscore kw = with_num Command.highscore
production Keyword.logfile kw = with_str Command.logfile
production Keyword.maxlength kw = with_num Command.maxlength
production Keyword.maxsize_allow kw = with_num Command.maxsize_allow
production Keyword.maxsize_deny kw = with_num Command.maxsize_deny
production Keyword.maxsize_score kw =
    num_arg (λ n. operat false (λ op. num_arg (λ m. command (Command.maxsize_score n m))))
production Keyword.normal kw = with_yes_no Command.normal
production Keyword.server kw = with_str Command.server
production Keyword.user kw = with_str Command.user
production Keyword.pass kw = with_str Command.pass
production Keyword.protocol kw = with_str Command.protocol
production Keyword.port kw = with_num Command.port
production Keyword.reg_case kw = with_yes_no Command.reg_case
production Keyword.reg_type kw = with_str Command.reg_type
production Keyword.show_headers kw = with_str Command.show_headers
production Keyword.score kw = scored kw
production Keyword.score_case kw = scored kw
production Keyword.score_nocase kw = scored kw
production Keyword.test kw = with_yes_no Command.test
production Keyword.timeout kw = with_num Command.timeout
production Keyword.verbose kw = with_num Command.verbose

-- The parts of a string at the beginning, and what is behind them.
unfoldable pub parts : List ConfigToken → List Exp × List ConfigToken
parts [] = ([], [])
parts (keyword k t ∷ ts) = ([], keyword k t ∷ ts)
parts (equals t ∷ ts) = ([], equals t ∷ ts)
parts (not_equal t ∷ ts) = ([], not_equal t ∷ ts)
parts (yes_no_id t ∷ ts) = ([], yes_no_id t ∷ ts)
parts (quote ∷ ts) = ([], quote ∷ ts)
parts (num_id n ∷ ts) = ([], num_id n ∷ ts)
parts (part e ∷ ts) = let (es, rest) = parts ts in (e ∷ es, rest)

-- rcerror, whose text is left out.
abbrev pub rcerror {ℓ} : {A : Type ℓ} → Option (Result A)
rcerror = some (exit (negsuc 0) [])

-- A string behind its opening quote: it has one part at least, and a quote behind its parts.
abbrev pub string_value :
    Option (Result Text) → List Exp → List ConfigToken → Option (Result (Text × List ConfigToken))
string_value none es ts = none
string_value (some (exit status text)) es ts = some (exit status text)
string_value (some (throw what)) es ts = some (throw what)
string_value (some (ok s)) (e ∷ es) (quote ∷ ts) = some (ok (s, ts))
string_value (some (ok s)) es ts = rcerror

module _ {W : Type 0} (sh : Popen W) where
  -- The tokens behind a keyword. `none` is undefined behaviour.
  unfoldable pub derive :
      Production → List ConfigToken → W → Option (Result (Command × List ConfigToken)) × W
  derive (command c) ts w = (some (ok (c, ts)), w)
  derive (num_arg next) (num_id n ∷ ts) w = derive (next n) ts w
  derive (operat also next) (equals op ∷ ts) w = derive (next op) ts w
  derive (operat true next) (not_equal op ∷ ts) w = derive (next op) ts w
  derive (yes_no_arg next) (quote ∷ yes_no_id t ∷ quote ∷ ts) w = derive (next t) ts w
  derive (str_arg next) (quote ∷ ts) w =
      let (es, rest) = parts ts in
      let (value, w1) = exps sh [] es w in
      elim (string_value value es rest) [
        | none ↦ (none, w1)
        | some (exit status text) ↦ (some (exit status text), w1)
        | some (throw what) ↦ (some (throw what), w1)
        | some (ok (s, us)) ↦ derive (next s) us w1
      ]
  derive rule ts w = (rcerror, w)

-- A rule that has been reduced goes on, and so does a command that returns.
abbrev pub reduced :
    {W X : Type 0}
    → Option (Result (Command × List ConfigToken)) × W
    → (Command → List ConfigToken → W → Option (Result X) × W)
    → Option (Result X) × W
reduced (none, w) next = (none, w)
reduced (some (exit status text), w) next = (some (exit status text), w)
reduced (some (throw what), w) next = (some (throw what), w)
reduced (some (ok (c, ts)), w) next = next c ts w

abbrev pub executed :
    {W X : Type 0} → Result X → (X → Option (Result X) × W) → W → Option (Result X) × W
executed (ok q) next w = next q
executed (exit status text) next w = (some (exit status text), w)
executed (throw what) next w = (some (throw what), w)

module _ {W R : Type 0} (sh : Popen W) (rx : Regex R) (host : Host) where
  -- `commands`: the actions are executed as the commands are read. Behind the tokens there is the
  -- end of the input, if `complete` holds, or an error of the scanner. `none` is undefined
  -- behaviour or a lack of fuel.
  unfoldable pub rcparse_from :
      ℕ → Preferences R → List ConfigToken → Bool → W → Option (Result (Preferences R)) × W
  rcparse_from zero p ts complete w = (none, w)
  rcparse_from (suc f) p [] complete w = (if complete then some (ok p) else rcerror, w)
  rcparse_from (suc f) p (keyword k kw ∷ ts) complete w =
      reduced (derive sh (production k kw) ts w)
        (λ c us w1. executed (run_command rx host p c) (λ q. rcparse_from f q us complete w1) w1)
  rcparse_from (suc f) p ts complete w = (rcerror, w)
