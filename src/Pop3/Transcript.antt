-- ===== src/Pop3/Transcript.antt =====
-- The commands that `scan` writes.
use mailfilter.Base.{
  ℕ, zero, suc, [], ◌∷◌, none, some, ◌+◌, ◌≡◌, refl, Bool, List, arith, Bool-cases, inl, inr, false,
  ◌*◌, Option,
}
use mailfilter.Text.{codes}
use mailfilter.Pop3.{
  Connection, send, Session, HeaderParser, examine, parse_reply, rounds, status, scan,
}
use mailfilter.Base.Int.{signed, pos, ℤ, ltb_ℤ}
use mailfilter.Filter.{Regex}
use mailfilter.Preferences.{Preferences}
use mailfilter.Base.Result.{ok, Result, exit, throw}
use mailfilter.Weeder.Report.{gen_failure}
use mailfilter.Pop3.History.{Adds-refl, Adds-count, Adds, number_of, Adds-trans, send-Adds}
use mailfilter.Pop3.Round.{size_of, deletes, all_commands, examine-Adds, shown}

module _ {R S : Type 0} (rx : Regex R) (signed : Bool) (rfc : HeaderParser) (conn : Connection S)
    (can_store : Bool) (p : Preferences R) where
  -- The messages that a loop of `n` rounds deletes, from `i` on.
  abbrev pub all_deletes : ℕ → ℕ → Session S → List Bool
  all_deletes zero i s = []
  all_deletes (suc n) i s =
      let (_, s1) = examine rx signed rfc conn can_store p i s in
      deletes rx signed rfc conn can_store p i s ∷ all_deletes n (i + 1) s1

  parse_reply_code :
      (i : ℕ) (size : ℤ) (s : Session S) (code : ℤ)
      → (parse_reply rx signed rfc conn p i size s).0 ≡ ok (some code)
      → code ≡ gen_failure
  unfolding parse_reply
  parse_reply_code i size s code h = ground (arith, h)

  examine_code :
      (i : ℕ) (s : Session S) (code : ℤ)
      → (examine rx signed rfc conn can_store p i s).0 ≡ ok (some code)
      → code ≡ gen_failure
  unfolding examine
  examine_code i s code h = ground (
    arith,
    h,
    parse_reply_code i (size_of conn i s) (shown rx signed rfc conn can_store p i s) code,
  )

  RoundsAdd : ℕ → ℕ → Session S → Type 0
  RoundsAdd n i s =
      (rounds rx signed rfc conn can_store p n i s).0 ≡ ok (pos 0)
      → Adds s.events (rounds rx signed rfc conn can_store p n i s).1.events
          (all_commands i (all_deletes n i s)) (2 * n)

  rounds_ending :
      (n i : ℕ) (s : Session S) (ending : Result (Option ℤ))
      → (examine rx signed rfc conn can_store p i s).0 ≡ ending
      → RoundsAdd n (i + 1) (examine rx signed rfc conn can_store p i s).1
      → RoundsAdd (suc n) i s
  unfolding rounds RoundsAdd
  rounds_ending n i s (ok none) e ih h =
      let rest = ih (rw (rounds, e) at h) in
      rw (rounds, e)
        (Adds-count (omega arith)
          (Adds-trans (examine-Adds rx signed rfc conn can_store p i s e) rest))
  rounds_ending n i s (ok (some code)) e ih h =
      absurd (ground (arith, e, h, examine_code i s code e))
  rounds_ending n i s (exit c m) e ih h = absurd (ground (arith, e, h))
  rounds_ending n i s (throw m) e ih h = absurd (ground (arith, e, h))

  rounds-Adds : (n i : ℕ) (s : Session S) → RoundsAdd n i s
  unfolding rounds RoundsAdd
  rounds-Adds zero i s = λ h. Adds-refl s.events
  rounds-Adds (suc n) i s =
      rounds_ending n i s _ refl
        (rounds-Adds n (i + 1) (examine rx signed rfc conn can_store p i s).1)

  status-Adds :
      (s : Session S)
      → ltb_ℤ (status conn s).0 (pos 0) ≡ false
      → Adds s.events (status conn s).1.events (codes "STAT\r\n" ∷ []) 1
  unfolding status
  status-Adds s h = elim (Bool-cases (send conn false (codes "STAT\r\n") s).0) [
    | inl k ↦ send-Adds conn false (codes "STAT\r\n") s k
    | inr k ↦ absurd (ground (arith, k, h))
  ]

  scan-Adds :
      (s : Session S)
      → (scan rx signed rfc conn can_store p s).0 ≡ ok (pos 0)
      → Adds s.events
          (scan rx signed rfc conn can_store p s).1.events
          (codes "STAT\r\n" ∷ all_commands 1 (all_deletes (number_of conn s) 1 (status conn s).1))
          (1 + 2 * number_of conn s)
  unfolding scan RoundsAdd
  scan-Adds s h = elim (Bool-cases (ltb_ℤ (status conn s).0 (pos 0))) [
    | inl k ↦ absurd (ground (arith, k, h))
    | inr k ↦
        rw (scan, k)
          (Adds-trans (status-Adds s k)
            (rounds-Adds (number_of conn s) 1 (status conn s).1 (rw (scan, k) at h)))
  ]

-- When `scan` returns 0, `c_write` has been called with STAT and then, for each of the messages that
-- the server has reported, in order, with LIST, TOP and, exactly if `is_weed` gives 1 for the header
-- parsed from the reply and test mode is off, DELE. One reply has been read to STAT and two for each
-- message, so that none has been read to a DELE.
pub scan_commands :
    {R S : Type 0} (rx : Regex R) (signed : Bool) (rfc : HeaderParser) (conn : Connection S)
    (can_store : Bool) (p : Preferences R) (s : Session S)
    → (scan rx signed rfc conn can_store p s).0 ≡ ok (pos 0)
    → Adds s.events
        (scan rx signed rfc conn can_store p s).1.events
        (codes "STAT\r\n"
          ∷ all_commands 1
              (all_deletes rx signed rfc conn can_store p (number_of conn s) 1 (status conn s).1))
        (1 + 2 * number_of conn s)
scan_commands rx signed rfc conn can_store p s h = scan-Adds rx signed rfc conn can_store p s h
