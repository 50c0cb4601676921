-- ===== src/Rcfile/Lines.antt =====
-- The settings of a configuration file that take a string, as they are written, one to a line, and
-- what the scanner of src/rcfile.ll makes of a line.
use mailfilter.Rcfile.{Keyword}
use mailfilter.Config.{allow_rule, deny_rule, Command}
use mailfilter.Base.{length, all, ◌==◌, ◌≡◌, Bool, true, false, not, ◌&&◌, List, [], ◌∷◌, ◌++◌}
use mailfilter.Text.{Text, codes}
use mailfilter.Flex.{is_dot}
use mailfilter.Rcfile.Param.{ending}
use mailfilter.Rcfile.Strings.{no_tick}

-- The settings whose argument is a string.
pub data Key : Type 0 where
  allow allow_case allow_nocase deny deny_case deny_nocase logfile server user pass protocol
        reg_type show_headers :
      Key

abbrev pub keyword_of : Key → Keyword
keyword_of Key.allow = Keyword.allow
keyword_of Key.allow_case = Keyword.allow_case
keyword_of Key.allow_nocase = Keyword.allow_nocase
keyword_of Key.deny = Keyword.deny
keyword_of Key.deny_case = Keyword.deny_case
keyword_of Key.deny_nocase = Keyword.deny_nocase
keyword_of Key.logfile = Keyword.logfile
keyword_of Key.server = Keyword.server
keyword_of Key.user = Keyword.user
keyword_of Key.pass = Keyword.pass
keyword_of Key.protocol = Keyword.protocol
keyword_of Key.reg_type = Keyword.reg_type
keyword_of Key.show_headers = Keyword.show_headers

-- The keyword in capitals.
abbrev pub written : Key → Text
written Key.allow = codes "ALLOW"
written Key.allow_case = codes "ALLOW_CASE"
written Key.allow_nocase = codes "ALLOW_NOCASE"
written Key.deny = codes "DENY"
written Key.deny_case = codes "DENY_CASE"
written Key.deny_nocase = codes "DENY_NOCASE"
written Key.logfile = codes "LOGFILE"
written Key.server = codes "SERVER"
written Key.user = codes "USER"
written Key.pass = codes "PASS"
written Key.protocol = codes "PROTOCOL"
written Key.reg_type = codes "REG_TYPE"
written Key.show_headers = codes "SHOW_HEADERS"

-- A line: the setting, whether its sign is `<>`, and the string.
pub record Line : Type 0 where
  pub key : Key
  pub unequal : Bool
  pub value : Text

abbrev pub has_not_equal : Key → Bool
has_not_equal Key.logfile = false
has_not_equal Key.server = false
has_not_equal Key.user = false
has_not_equal Key.pass = false
has_not_equal Key.protocol = false
has_not_equal Key.reg_type = false
has_not_equal Key.show_headers = false
has_not_equal _ = true

abbrev pub sign_text : Bool → Text
sign_text true = codes "<>"
sign_text false = codes "="

-- The string is not empty and has neither a line feed nor a back quote; and `<>` is allowed.
pub record IsStringLine (l : Line) : Type 0 where
  pub filled : (length l.value == 0) ≡ false
  pub one_line : all is_dot l.value ≡ true
  pub no_command : all no_tick l.value ≡ true
  pub signed : l.unequal && not (has_not_equal l.key) ≡ false

abbrev pub put_line : Line → Text → Text
put_line l rest = written l.key ++ 32 ∷ (sign_text l.unequal ++ 32 ∷ 34 ∷ (l.value ++ ending rest))

abbrev pub put_lines : List Line → Text
put_lines [] = []
put_lines (l ∷ ls) = put_line l (put_lines ls)

-- The command that a line stands for.
abbrev pub line_command : Key → Text → Text → Command
line_command Key.allow op s = allow_rule (written Key.allow) op s
line_command Key.allow_case op s = allow_rule (written Key.allow_case) op s
line_command Key.allow_nocase op s = allow_rule (written Key.allow_nocase) op s
line_command Key.deny op s = deny_rule (written Key.deny) op s
line_command Key.deny_case op s = deny_rule (written Key.deny_case) op s
line_command Key.deny_nocase op s = deny_rule (written Key.deny_nocase) op s
line_command Key.logfile op s = Command.logfile s
line_command Key.server op s = Command.server s
line_command Key.user op s = Command.user s
line_command Key.pass op s = Command.pass s
line_command Key.protocol op s = Command.protocol s
line_command Key.reg_type op s = Command.reg_type s
line_command Key.show_headers op s = Command.show_headers s

abbrev pub command_of : Line → Command
command_of l = line_command l.key (sign_text l.unequal) l.value
