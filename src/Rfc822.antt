-- ===== src/Rfc822.antt =====
-- src/rfc822.yy: the grammar of a message header. Its scanner, src/rfc822.ll, is in Rfc822.Scanner.
pub mod Scanner
pub mod Matches
pub mod Progress
pub mod Lines
pub mod Fields
pub mod RoundTrip
pub mod Grammar
pub mod Errors
use mailfilter.Text.{Text}
use mailfilter.Base.{Bool, true, false, List, [], ◌∷◌, ◌++◌}
use mailfilter.Header.{Entry}

-- The tokens, with the text that is their value.
pub data Token : Type 0 where
  topline tag body header_end : Text → Token

-- What the parser has on its stack above `header`: nothing; TAG; or TAG and `bodies`.
pub data Stack : Type 0 where
  at_entry : Stack
  after_tag : Text → Stack
  in_bodies : Text → Text → Stack

abbrev pub entry : Text → Text → Entry
entry t b = record { tag = t; body = b }

-- Before an entry: the entries that are reduced, in order, and whether the input is accepted behind
-- them. `bodies` is reduced by default, so that an entry is added before a token that follows on it
-- is refused.
unfoldable pub reduce : Stack → List Token → List Entry × Bool
reduce at_entry [] = ([], true)
reduce at_entry (topline x ∷ ts) = ([], false)
reduce at_entry (body b ∷ ts) = ([], false)
reduce at_entry (tag t ∷ ts) = reduce (after_tag t) ts
reduce at_entry (header_end x ∷ ts) = reduce at_entry ts
reduce (after_tag t) (body b ∷ ts) = reduce (in_bodies t b) ts
reduce (after_tag t) ts = ([], false)
reduce (in_bodies t b) [] = (entry t b ∷ [], true)
reduce (in_bodies t b) (topline x ∷ ts) = (entry t b ∷ [], false)
reduce (in_bodies t b) (body c ∷ ts) = reduce (in_bodies t (b ++ c)) ts
reduce (in_bodies t b) (tag u ∷ ts) =
    let (es, accepted) = reduce (after_tag u) ts in (entry t b ∷ es, accepted)
reduce (in_bodies t b) (header_end x ∷ ts) =
    let (es, accepted) = reduce at_entry ts in (entry t b ∷ es, accepted)
