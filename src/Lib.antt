-- ===== src/Lib.antt =====
-- Mailfilter, a program that deletes spam in POP accounts: what it decides, and from what.
--
-- A configuration file and the command line fill the preferences; the header of each message is
-- read from the server into a header object; and the weeder, which consults the preferences,
-- decides whether the message is deleted. The parts and their files, with the sources under src/:
--
-- - Base, Text: numbers, lists, byte strings, and the string helpers of src/mailfilter.cc.
--   Text.Compare is about `cmp_no_case`, and Text.Buffer is about reading and erasing a byte of a
--   `std::string`.
-- - Filter: src/filter.cc, src/score.cc and their headers. `regcomp` and `regexec` are the fields
--   of a record, a parameter of everything that matches.
-- - Preferences: src/preferences.cc, the part of src/account.hh that a configuration fills, and
--   src/protocol.hh. The singleton is a value that is passed on. Preferences.Setters has the
--   operations that set one value and `open`, which is `open_prefs`; Preferences.Rules has those
--   that add a rule.
-- - Config: the actions of the grammar in src/rcfile.yy (`run_command`, `run_commands`) and
--   `get_opts` of src/mailfilter.cc. Config.Precedence, Config.Counted and Config.Counters are
--   about what they leave behind. Config.Strings has the strings with their parts, and `exec_shell`
--   over a record of `popen` and `pclose`; Config.Strings.Shell and Config.Strings.Parts are about
--   what they stand for.
-- - Rcfile: the tokens and rules of src/rcfile.yy as functions on the tokens, which execute the
--   actions of Config as the commands are read. Rcfile.Patterns and Rcfile.Scanner are
--   src/rcfile.ll with the files that are included, and `rcparse`, the two together.
--   Rcfile.Matches, Rcfile.Candidates, Rcfile.Progress and Rcfile.Fuel are about the rules that
--   match and the end of the input; Rcfile.Param
--   and Rcfile.Strings about strings, and Rcfile.Lines, Rcfile.LineTokens, Rcfile.RoundTrip and
--   Rcfile.Unended about files whose lines are settings with a string.
-- - Flex: what the two scanners have in common; Flex.Splits is about it.
-- - Precompile: `precompile_expressions` of src/mailfilter.cc, which comes between the
--   configuration and the first session.
-- - Feedback: the print functions of src/feedback.cc. Feedback.Log is about the lines they leave.
-- - Main: `main` of src/mailfilter.cc. `configure` is its part up to the loop over the accounts,
--   with `load` of src/preferences.cc and `open` of src/feedback.cc; `check_accounts` is the loop,
--   and `conclude` what follows on it. The commands that are read from the configuration file, the
--   version and the answer of `sigaction` are the record `Setting`; Rcfile has how such a file is
--   read. Main.Outcome is about the value that is returned, Main.Configured about what has been
--   checked before the network is used, and Main.Unreachable about servers that cannot be reached.
-- - Header: src/header.cc. Header.Normal and Header.Spaces are about `set_normal_subject`,
--   Header.MessageId about `rfc822_valid_msgid`, and Header.History about `add_entry` over the
--   entries of a message.
-- - Weeder: src/weeder.cc, a file for each check and `is_weed`. A check returns its status with the
--   messages that it prints, and `check_duplicates` also the new list of identifiers.
-- - Verdicts: what the checks decide, as tests that do not mention the loops.
-- - Pop3: src/pop3.cc over a record of the operations of src/connection.hh. The state of the
--   network is a type of the record's, and a session keeps it with the weeder and the history of
--   what was written, read, printed and stored. The parser of a message header is a function to the
--   entries and whether it accepts, a parameter that `rfcparse` of Rfc822.Scanner instantiates;
--   `add_entries` of Header is what its actions do. Pop3.Replies reads numbers and lines out of a
--   reply, Pop3.History counts commands and replies, Pop3.Login is about `login`, and Pop3.Round,
--   Pop3.Transcript and Pop3.TestMode are about `scan`.
-- - Rfc822: the grammar of src/rfc822.yy, as a function on the tokens. Rfc822.Scanner has the
--   patterns, start conditions and actions of src/rfc822.ll and `rfcparse`, the two together, which
--   is the parser that Pop3 calls. Rfc822.Matches and Rfc822.Lines are about the patterns,
--   Rfc822.Progress about the end of the input, Rfc822.Fields and Rfc822.RoundTrip about headers
--   that are written from fields, Rfc822.Grammar about the rules of the grammar, and Rfc822.Errors
--   about headers that are misread.
-- - AccountCheck: `check` of src/account.cc around a session of Pop3; the login of the protocol
--   object, which is virtual, is an argument. AccountCheck.Closing is about the end of the
--   connection.
-- - Apop: src/apop.cc, over the same record as Pop3 and over the functions of MD5 as the record
--   `Md5`; Apop.Digest is about both of its functions.
-- - Socket: src/socket.cc over `System`, a record of the calls of the operating system and of
--   OpenSSL. Socket.Read has `c_read`; Socket.Arrival is about the bytes that it reads,
--   Socket.Opening about `c_open` and `c_write`, and Socket.Encryption and Socket.Clear about what
--   they do with encryption. Socket.Link makes a socket a Connection of Pop3; a socket is dead
--   there when the process has been left, hangs or has no defined behaviour. A call that the alarm
--   interrupts gives `none`, and `c_open` goes on in the other branch of its `sigsetjmp`.
-- - Tests: examples.
--
-- Conventions. A `const char*` and a `std::string` are lists of bytes, which hold no NUL. An
-- `int` is an integer whose sum wraps modulo 2 ^ 32 (`add_int`), and lengths are numbers. The
-- character classes are those of the C locale. Whether `char` is signed is an argument where the
-- code depends on it; for `cmp_no_case`, which hands a plain `char` to `toupper`, the values for
-- the bytes from 128 on are the argument, and the callers, which only ask whether the result is
-- 0, take those of an unsigned `char` (Text.Compare). A call that may leave the process or throw
-- returns a `Result`, with the exit code and the text written. A null header is `none`. The file
-- system, the environment, `wordexp` and the presence of OpenSSL are the record `Host`;
-- `wordexp` is a function of the name there. Since it also runs the commands that stand in a
-- name, the preferences record the names it is called with (`expanded`, which is not a member of
-- the class); what else such a command does is left out. A session records a command when
-- `c_write` is called with it, also where that returns -1.
--
-- Loops over vectors are recursion on lists, and the loop over the messages of a mailbox is
-- recursion on their number. The loops that normalise a subject run on fuel: twice the length and
-- one for the outer loop, since every round lowers twice the length less the index, and the length
-- and one for the inner loop, which erases a byte in each round. The loop of `c_read` runs on fuel
-- as well, since it does not end with every peer; one more than the number of chunks that arrive is
-- enough where it does. The scanners take one byte at least in each round, so that the length of a
-- text and one are enough, and the parser of the configuration takes one token at least for a
-- command. The digits of a number n take at most n + 1 rounds. In the two loops on a subject `none`
-- stands for undefined behaviour, an exception or a lack of fuel alike, and it does not occur.
--
-- Not modelled: the code that flex and bison generate, and the text of a lexical or a syntax error;
-- the implementations of the system calls, of OpenSSL and of the copies of getopt and MD5; the
-- set-up of an SSL context; the handler of SIGINT; the help and version texts; memory, the private
-- constructor of the singleton, and the release of compiled expressions.
pub mod Base
pub mod Text
pub mod Filter
pub mod Preferences
pub mod Feedback
pub mod Header
pub mod Weeder
pub mod Verdicts
pub mod Config
pub mod Pop3
pub mod Precompile
pub mod Apop
pub mod Main
pub mod Socket
pub mod Flex
pub mod Rfc822
pub mod Rcfile
pub mod AccountCheck
pub mod Tests
