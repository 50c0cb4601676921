-- ===== src/Tests/Samples.antt =====
-- Data for the examples: a toy regular expression engine that looks for a substring, a host, a
-- configuration and some messages.
use mailfilter.Base.{Bool, true, false, some, List, [], ◌∷◌, ◌||◌, ◌&&◌, ◌==◌, if◌then◌else◌, ◌++◌}
use mailfilter.Base.Int.{ℤ, pos}
use mailfilter.Base.Result.{Result, ok}
use mailfilter.Text.{Text, codes}
use mailfilter.Filter.{Regex, Filter}
use mailfilter.Preferences.{Preferences, new_preferences}
use mailfilter.Preferences.Setters.{Host}
use mailfilter.Header.{Entry, Header}
use mailfilter.Weeder.Duplicates.{Weeder}
use mailfilter.Config.{Command, Opt, deny_rule, allow_rule, highscore}

abbrev is_prefix : Text → Text → Bool
is_prefix [] t = true
is_prefix (c ∷ s) [] = false
is_prefix (c ∷ s) (d ∷ t) = c == d && is_prefix s t

abbrev contains : Text → Text → Bool
contains s [] = is_prefix s []
contains s (d ∷ t) = is_prefix s (d ∷ t) || contains s t

-- Every expression compiles, and matches the lines that it is a part of.
abbrev pub toy_regex : Regex Text
toy_regex = record {
  regcomp = λ expr flags. (0, expr);
  regexec = λ r line. if contains r line then 0 else 1;
  blank = [];
}

abbrev pub toy_host : Host
toy_host = record {
  can_open = λ name. false;
  home = some (codes "/home/user");
  expand = λ name. some name;
  use_ssl = true;
}

abbrev pub toy_filter : Text → Bool → Filter Text
toy_filter e negative = record {
  expr = e;
  comp_expr = e;
  case_sensitivity = 0;
  negativity = negative;
  compiled = true;
}

-- Friends write from `good`; `casino` is spam, and so is a message without `me`; `sale` scores.
abbrev pub toy_prefs : Preferences Text
toy_prefs = record new_preferences {
  allows = toy_filter (codes "From: good") false ∷ [];
  denies = toy_filter (codes "casino") false ∷ toy_filter (codes "me") true ∷ [];
  scores = record { filter = toy_filter (codes "sale") false; scr = pos 60 } ∷ [];
  negative_denies = pos 1;
  del_duplicates = true;
  norm = true;
  max_size_friends = pos 1000;
  max_line_length = pos 40;
  max_size = pos 5000;
  size_score = record { score = pos 50; size = pos 100 };
}

abbrev pub line : Text → Text → Entry
line tag body = record { tag = tag; body = body }

abbrev pub toy_header : Text → Text → Text → ℤ → Header
toy_header id sender subject size = record {
  msg_entries = line (codes "From") sender ∷ line (codes "Subject") subject ∷ [];
  msg_id = id;
  msg_from = sender;
  msg_to = codes "me";
  msg_subject = subject;
  msg_normal_subject = codes "Subject: " ++ subject;
  msg_date = [];
  msg_size = size;
}

abbrev pub spam : Header
spam = toy_header (codes "<1@x>") (codes "bad me") (codes "casino") (pos 10)

abbrev pub large_friend : Header
large_friend = toy_header (codes "<2@x>") (codes "good") (codes "hi") (pos 2000)

abbrev pub large_sale : Header
large_sale = toy_header (codes "<3@x>") (codes "shop") (codes "sale for me") (pos 200)

abbrev pub toy_weeder : Weeder
toy_weeder = record { msg_ids = codes "<0@x>" ∷ [] }

abbrev pub entries : List Entry
entries =
    line (codes "From") (codes "a")
    ∷ line (codes "SUBJECT") (codes "c. a.s")
    ∷ line (codes "from") (codes "b")
    ∷ line (codes "Message-ID") (codes "<1@x>")
    ∷ []

abbrev pub options : List Opt
options = Opt.test_mode ∷ Opt.verbose (pos 5) ∷ []

abbrev pub commands : List Command
commands =
    Command.verbose (pos 1)
    ∷ Command.test (codes "no")
    ∷ deny_rule (codes "DENY") (codes "<>") (codes "me")
    ∷ allow_rule (codes "ALLOW_NOCASE") (codes "=") (codes "good")
    ∷ highscore (pos 50)
    ∷ []

abbrev pub value_or : {A : Type 0} → A → Result A → A
value_or d (ok a) = a
value_or d _ = d
