-- ===== src/Pop3/History.antt =====
-- What a session with a server adds to its history: the commands that it writes, and the number of
-- replies that it reads.
use mailfilter.Base.{
  ℕ, suc, [], ◌∷◌, ◌+◌, ◌≡◌, refl, ap, ◌∙◌, Bool, true, List, ◌++◌, map, append-nil, append_assoc,
  arith, Bool-cases, inl, inr, sym,
}
use mailfilter.Text.{Text}
use mailfilter.Pop3.{
  closed, Connection, Event, stored, send, write_call, read, printed, Session, status,
}
use mailfilter.Feedback.{Message}
use mailfilter.Base.Int.{eq_ℤ, negsuc, pos_part}
use mathlib.Core.Bool.{false≢true}

abbrev pub writes : List Event → List Text
writes [] = []
writes (write_call c ∷ es) = c ∷ writes es
writes (_ ∷ es) = writes es

abbrev pub reads : List Event → ℕ
reads [] = 0
reads (read b ∷ es) = suc (reads es)
reads (_ ∷ es) = reads es

pub writes-append : (es fs : List Event) → writes (es ++ fs) ≡ writes es ++ writes fs
writes-append [] fs = refl
writes-append (write_call c ∷ es) fs = ap (λ x. c ∷ x) (writes-append es fs)
writes-append (printed m ∷ es) fs = writes-append es fs
writes-append (read b ∷ es) fs = writes-append es fs
writes-append (stored t ∷ es) fs = writes-append es fs
writes-append (closed ∷ es) fs = writes-append es fs

pub reads-append : (es fs : List Event) → reads (es ++ fs) ≡ reads es + reads fs
reads-append [] fs = omega arith
reads-append (write_call c ∷ es) fs = reads-append es fs
reads-append (printed m ∷ es) fs = reads-append es fs
reads-append (read b ∷ es) fs = omega (arith, reads-append es fs)
reads-append (stored t ∷ es) fs = reads-append es fs
reads-append (closed ∷ es) fs = reads-append es fs

pub no_writes : (ms : List Message) → writes (map printed ms) ≡ []
no_writes [] = refl
no_writes (m ∷ ms) = no_writes ms

no_reads : (ms : List Message) → reads (map printed ms) ≡ 0
no_reads [] = refl
no_reads (m ∷ ms) = no_reads ms

-- What an operation adds to the history: these commands, and at most or exactly so many reads.
pub record Adds (before after : List Event) (cs : List Text) (n : ℕ) : Type 0 where
  pub commands : writes after ≡ writes before ++ cs
  pub answers : reads after ≡ reads before + n

pub Adds-refl : (es : List Event) → Adds es es [] 0
Adds-refl es = record { commands = sym (append-nil (writes es)); answers = omega arith }

pub Adds-trans :
    {es fs gs : List Event} {cs ds : List Text} {m n : ℕ}
    → Adds es fs cs m
    → Adds fs gs ds n
    → Adds es gs (cs ++ ds) (m + n)
Adds-trans {es} {cs} {ds} a b = record {
  commands = b.commands ∙ ap (λ l. l ++ ds) a.commands ∙ append_assoc (writes es) cs ds;
  answers = omega (arith, a.answers, b.answers);
}

pub Adds-count :
    {es fs : List Event} {cs : List Text} {m n : ℕ} → m ≡ n → Adds es fs cs m → Adds es fs cs n
Adds-count e a = record { commands = a.commands; answers = omega (arith, a.answers, e) }

pub Adds-write_call : (es : List Event) (c : Text) → Adds es (es ++ write_call c ∷ []) (c ∷ []) 0
Adds-write_call es c = record {
  commands = writes-append es _;
  answers = omega (arith, reads-append es (write_call c ∷ []));
}

pub Adds-read : (es : List Event) (b : Bool) → Adds es (es ++ read b ∷ []) [] 1
Adds-read es b = record {
  commands = writes-append es _;
  answers = omega (arith, reads-append es (read b ∷ []));
}

pub Adds-stored : (es : List Event) (t : Text) → Adds es (es ++ stored t ∷ []) [] 0
Adds-stored es t = record {
  commands = writes-append es _;
  answers = omega (arith, reads-append es (stored t ∷ []));
}

pub Adds-printed : (es : List Event) (ms : List Message) → Adds es (es ++ map printed ms) [] 0
Adds-printed es ms = record {
  commands = writes-append es _ ∙ ap (λ l. writes es ++ l) (no_writes ms);
  answers = omega (arith, reads-append es (map printed ms), no_reads ms);
}

module _ {S : Type 0} (conn : Connection S) where
  -- A command that is answered.
  pub send-Adds :
      (b : Bool) (c : Text) (s : Session S)
      → (send conn b c s).0 ≡ true
      → Adds s.events (send conn b c s).1.events (c ∷ []) 1
  unfolding send
  send-Adds b c s h = elim (Bool-cases (eq_ℤ (conn.c_write c s.net).0 (negsuc 0))) [
    | inl k ↦ absurd (false≢true (rw k at h))
    | inr k ↦
        rw k (Adds-trans (Adds-write_call s.events c) (Adds-read (s.events ++ write_call c ∷ []) b))
  ]

  -- The number of messages that the server reports, and the session afterwards.
  abbrev pub number_of : Session S → ℕ
  number_of s = pos_part (status conn s).0
