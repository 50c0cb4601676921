-- ===== src/Tests/Reading.antt =====
-- Examples for strings, headers and the configuration.
use mailfilter.Base.Int.{neg, pos, negsuc, ℤ}
use mailfilter.Header.History.{Stored, add_entries-Stored, add_entry_ending}
use mailfilter.Tests.Samples.{entries, options, commands, toy_regex, toy_host, value_or, line}
use mailfilter.Text.{Text, codes, is_lower, isalpha, isdigit, isspace, toupper, cmp_no_case, upper}
use mailfilter.Base.{
  ◌≡◌, refl, ◌↔◌, ◌⊎◌, true, some, [], ◌∷◌, map, ltb, if◌then◌else◌, ℕ, ◌-◌, ◌++◌, arith,
}
use mailfilter.Header.{
  rfc822_valid_msgid, is_junk, set_normal_subject, add_entry, new_header, id_error, add_entries,
}
use mailfilter.Config.Precedence.{first_setting_wins}
use mailfilter.Config.{get_opts, run_commands, run_option, run_command}
use mailfilter.Config.Counters.{startup-IsCounted}
use mailfilter.Config.Counted.{IsCounted}
use mailfilter.Preferences.{Preferences, new_preferences}
use mailfilter.Text.Compare.{Lex, IsHigh, cmp_no_case_order}
use mailfilter.Header.MessageId.{IsMsgId, rfc822_valid_msgid_lem}
use mailfilter.Header.Normal.{set_normal_subject_lem}
use mailfilter.Base.Result.{ok, throw}

abbrev new_prefs : Preferences Text
new_prefs = new_preferences

-- Where `char` is signed: 255 is EOF, and the others are negative as well.
abbrev signed_high : ℕ → ℤ
signed_high c = if ltb c 256 then negsuc (255 - c) else pos c

signed-IsHigh : IsHigh signed_high
signed-IsHigh = record { apart = λ c d h k e. ground arith; outside = λ c d h k e. ground arith }

abbrev eacute : Text
eacute = codes "a" ++ 233 ∷ []

cmp_no_case_order_example :
    ((cmp_no_case signed_high eacute (codes "Ac") ≡ pos 0)
      ↔ (map toupper eacute ≡ map toupper (codes "Ac")))
    × ((cmp_no_case signed_high eacute (codes "Ac") ≡ negsuc 0)
        ↔ Lex (map (upper signed_high) eacute) (map (upper signed_high) (codes "Ac")))
    × (cmp_no_case signed_high (codes "Ac") eacute
        ≡ neg (cmp_no_case signed_high eacute (codes "Ac")))
cmp_no_case_order_example = cmp_no_case_order signed_high signed-IsHigh eacute (codes "Ac")

-- The byte 255 comes before `A` where it is EOF, and behind it where `char` is not signed.
eof_first : cmp_no_case signed_high (255 ∷ []) (codes "A") ≡ negsuc 0
unfolding cmp_no_case toupper
eof_first = refl

unsigned_last : cmp_no_case pos (255 ∷ []) (codes "A") ≡ pos 1
unfolding cmp_no_case toupper
unsigned_last = refl

set_normal_subject_lem_example :
    set_normal_subject new_header (codes "v.i a  g-ra!")
    ≡ some (record new_header { msg_normal_subject = codes "Subject: vi a gra" })
unfolding is_junk isalpha is_lower isdigit isspace
set_normal_subject_lem_example = set_normal_subject_lem new_header (codes "v.i a  g-ra!")

rfc822_valid_msgid_lem_example :
    ((rfc822_valid_msgid true (codes "<a@b>") ≡ pos 0) ↔ IsMsgId true (codes "<a@b>"))
    × ((rfc822_valid_msgid true (codes "<a@b>") ≡ pos 0)
        ⊎ (rfc822_valid_msgid true (codes "<a@b>") ≡ negsuc 0))
rfc822_valid_msgid_lem_example = rfc822_valid_msgid_lem true (codes "<a@b>")

add_entry_ending_example :
    ((add_entry true new_prefs new_header (codes "message-id") (codes "<a>")).0.msg_entries
      ≡ line (codes "message-id") (codes "<a>") ∷ [])
    × ((add_entry true new_prefs new_header (codes "message-id") (codes "<a>")).2 ≡ throw id_error)
unfolding new_preferences cmp_no_case toupper rfc822_valid_msgid
add_entry_ending_example =
    add_entry_ending true new_prefs new_header (codes "message-id") (codes "<a>")

entries_accepted : (add_entries true new_prefs new_header entries).2 ≡ ok tt
unfolding new_preferences add_entry cmp_no_case toupper rfc822_valid_msgid
entries_accepted = refl

add_entries-Stored_example :
    Stored new_header (add_entries true new_prefs new_header entries).0 entries
add_entries-Stored_example = add_entries-Stored true new_prefs new_header entries entries_accepted

abbrev after_options : Preferences Text
after_options = value_or new_prefs (get_opts toy_host [] new_prefs options)

abbrev after_commands : Preferences Text
after_commands = value_or new_prefs (run_commands toy_regex toy_host after_options commands)

options_accepted : get_opts toy_host [] new_prefs options ≡ ok after_options
unfolding get_opts run_option
options_accepted = refl

commands_accepted : run_commands toy_regex toy_host after_options commands ≡ ok after_commands
unfolding run_commands run_command
commands_accepted = refl

first_setting_wins_example : (after_commands.verbosity ≡ pos 5) × (after_commands.test ≡ true)
first_setting_wins_example =
    first_setting_wins toy_regex toy_host [] options commands after_options after_commands
      options_accepted commands_accepted

startup-IsCounted_example : IsCounted after_commands
startup-IsCounted_example =
    startup-IsCounted toy_regex toy_host [] options commands after_options after_commands
      options_accepted commands_accepted
