-- ===== src/Rfc822/Grammar.antt =====
-- The rules of src/rfc822.yy as they are written, and the parser's agreement with them.
use mailfilter.Rfc822.{
  tag, body, header_end, topline, at_entry, after_tag, in_bodies, reduce, Token, entry, Stack,
}
use mailfilter.Text.{Text}
use mailfilter.Base.{
  ◌≡◌, refl, sym, ap, ◌∙◌, List, [], ◌∷◌, ◌++◌, append_assoc, ◌↔◌, true, append-nil,
}
use mailfilter.Header.{Entry}
use mathlib.Core.Bool.{false≢true}
use mathlib.Core.Path.{subst}

-- `bodies: BODY | bodies BODY`, with the value of the sequence.
pub data IsBodies : List Token → Text → Type 0 where
  one_body : (b : Text) → IsBodies (body b ∷ []) b
  more_body : (ts : List Token) (b c : Text) → IsBodies ts b → IsBodies (ts ++ body c ∷ []) (b ++ c)

-- `entry: the_end | TAG bodies`, with what is added to the header.
pub data IsEntry : List Token → List Entry → Type 0 where
  the_end : (x : Text) → IsEntry (header_end x ∷ []) []
  tagged :
      (t : Text) (ts : List Token) (b : Text)
      → IsBodies ts b
      → IsEntry (tag t ∷ ts) (entry t b ∷ [])

-- `header: | header entry`.
pub data IsHeader : List Token → List Entry → Type 0 where
  no_entry : IsHeader [] []
  next_entry :
      (ts us : List Token) (es fs : List Entry)
      → IsHeader ts es
      → IsEntry us fs
      → IsHeader (ts ++ us) (es ++ fs)

-- Tokens that do not go on with the bodies of a tag.
Apart : List Token → Type 0
Apart [] = Unit {0}
Apart (body b ∷ ts) = ⊥
Apart (topline b ∷ ts) = ⊥
Apart (tag b ∷ ts) = Unit {0}
Apart (header_end b ∷ ts) = Unit {0}

in_bodies-Apart :
    (t b : Text) (ts : List Token)
    → Apart ts
    → reduce (in_bodies t b) ts ≡ (entry t b ∷ (reduce at_entry ts).0, (reduce at_entry ts).1)
unfolding reduce Apart
in_bodies-Apart t b [] h = refl
in_bodies-Apart t b (body c ∷ ts) h = absurd h
in_bodies-Apart t b (topline c ∷ ts) h = absurd h
in_bodies-Apart t b (tag c ∷ ts) h = refl
in_bodies-Apart t b (header_end c ∷ ts) h = refl

-- Behind a tag the bodies are joined.
after_tag-IsBodies :
    (t : Text) (ts us : List Token) (b : Text)
    → IsBodies ts b
    → reduce (after_tag t) (ts ++ us) ≡ reduce (in_bodies t b) us
unfolding reduce
after_tag-IsBodies t _ us _ (one_body b) = refl
after_tag-IsBodies t _ us _ (more_body ts b c d) =
    ap (reduce (after_tag t)) (append_assoc ts (body c ∷ []) us)
    ∙ after_tag-IsBodies t ts (body c ∷ us) b d

IsEntry-Apart :
    (us : List Token) (fs : List Entry) (vs : List Token) → IsEntry us fs → Apart (us ++ vs)
unfolding Apart
IsEntry-Apart _ _ vs (the_end x) = tt
IsEntry-Apart _ _ vs (tagged t ts b d) = tt

reduce-IsEntry :
    (us : List Token) (fs : List Entry) (vs : List Token)
    → IsEntry us fs
    → Apart vs
    → reduce at_entry (us ++ vs) ≡ (fs ++ (reduce at_entry vs).0, (reduce at_entry vs).1)
unfolding reduce
reduce-IsEntry _ _ vs (the_end x) h = refl
reduce-IsEntry _ _ vs (tagged t ts b d) h =
    after_tag-IsBodies t ts vs b d ∙ in_bodies-Apart t b vs h

reduce-IsHeader :
    (ts : List Token) (es : List Entry) (vs : List Token)
    → IsHeader ts es
    → Apart vs
    → reduce at_entry (ts ++ vs) ≡ (es ++ (reduce at_entry vs).0, (reduce at_entry vs).1)
reduce-IsHeader _ _ vs no_entry h = refl
reduce-IsHeader _ _ vs (next_entry ts us es fs d e) h =
    ap (reduce at_entry) (append_assoc ts us vs)
    ∙ reduce-IsHeader ts es (us ++ vs) d (IsEntry-Apart us fs vs e)
    ∙ ap (λ p. (es ++ p.0, p.1)) (reduce-IsEntry us fs vs e h)
    ∙ ap (λ l. (l, (reduce at_entry vs).1)) (sym (append_assoc es fs (reduce at_entry vs).0))

-- An entry may as well be put in front.
IsHeader-front :
    (us : List Token) (fs : List Entry) (ts : List Token) (es : List Entry)
    → IsEntry us fs
    → IsHeader ts es
    → IsHeader (us ++ ts) (fs ++ es)
IsHeader-front us fs _ _ e no_entry =
    rw (append-nil us, append-nil fs) (next_entry [] us [] fs no_entry e)
IsHeader-front us fs _ _ e (next_entry ts vs es gs d g) =
    rw (← append_assoc us ts vs, ← append_assoc fs es gs)
      (next_entry (us ++ ts) vs (fs ++ es) gs (IsHeader-front us fs ts es e d) g)

-- The tokens that a stack stands for.
data OnStack : Stack → List Token → Type 0 where
  nothing_on : OnStack at_entry []
  tag_on : (t : Text) → OnStack (after_tag t) (tag t ∷ [])
  bodies_on : (t b : Text) (ts : List Token) → IsBodies ts b → OnStack (in_bodies t b) (tag t ∷ ts)

accepted-IsHeader :
    (k : Stack) (ps ts : List Token)
    → OnStack k ps
    → (reduce k ts).1 ≡ true
    → IsHeader (ps ++ ts) (reduce k ts).0
unfolding reduce
accepted-IsHeader _ _ [] nothing_on h = no_entry
accepted-IsHeader _ _ (topline x ∷ ts) nothing_on h = absurd (false≢true h)
accepted-IsHeader _ _ (body x ∷ ts) nothing_on h = absurd (false≢true h)
accepted-IsHeader _ _ (tag t ∷ ts) nothing_on h =
    accepted-IsHeader (after_tag t) (tag t ∷ []) ts (tag_on t) h
accepted-IsHeader _ _ (header_end x ∷ ts) nothing_on h =
    IsHeader-front (header_end x ∷ []) [] ts _ (the_end x)
      (accepted-IsHeader at_entry [] ts nothing_on h)
accepted-IsHeader _ _ [] (tag_on t) h = absurd (false≢true h)
accepted-IsHeader _ _ (topline x ∷ ts) (tag_on t) h = absurd (false≢true h)
accepted-IsHeader _ _ (tag x ∷ ts) (tag_on t) h = absurd (false≢true h)
accepted-IsHeader _ _ (header_end x ∷ ts) (tag_on t) h = absurd (false≢true h)
accepted-IsHeader _ _ (body b ∷ ts) (tag_on t) h =
    accepted-IsHeader (in_bodies t b) (tag t ∷ body b ∷ []) ts
      (bodies_on t b (body b ∷ []) (one_body b)) h
accepted-IsHeader _ _ [] (bodies_on t b bs d) h =
    IsHeader-front (tag t ∷ bs) (entry t b ∷ []) [] [] (tagged t bs b d) no_entry
accepted-IsHeader _ _ (topline x ∷ ts) (bodies_on t b bs d) h = absurd (false≢true h)
accepted-IsHeader _ _ (body c ∷ ts) (bodies_on t b bs d) h =
    rw (← append_assoc bs (body c ∷ []) ts) (
      accepted-IsHeader (in_bodies t (b ++ c)) (tag t ∷ (bs ++ body c ∷ [])) ts
        (bodies_on t (b ++ c) (bs ++ body c ∷ []) (more_body bs b c d)) h)
accepted-IsHeader _ _ (tag u ∷ ts) (bodies_on t b bs d) h =
    IsHeader-front (tag t ∷ bs) (entry t b ∷ []) (tag u ∷ ts) _ (tagged t bs b d)
      (accepted-IsHeader (after_tag u) (tag u ∷ []) ts (tag_on u) h)
accepted-IsHeader _ _ (header_end x ∷ ts) (bodies_on t b bs d) h =
    IsHeader-front (tag t ∷ bs) (entry t b ∷ []) (header_end x ∷ ts) _ (tagged t bs b d) (
      IsHeader-front (header_end x ∷ []) [] ts _ (the_end x)
        (accepted-IsHeader at_entry [] ts nothing_on h))

-- The parser accepts a sequence of tokens, with given entries, exactly if the rules of the grammar
-- derive the sequence with these values: entries one behind another, each the end of the header
-- or a tag with one body or more, whose texts are joined.
pub reduce_iff :
    (ts : List Token) (es : List Entry) → (reduce at_entry ts ≡ (es, true)) ↔ IsHeader ts es
unfolding reduce Apart
reduce_iff ts es = (
  (λ h.
      subst (IsHeader ts) (ap (λ p. p.0) h)
        (accepted-IsHeader at_entry [] ts nothing_on (ap (λ p. p.1) h))),
  (λ d.
      ap (reduce at_entry) (sym (append-nil ts))
      ∙ reduce-IsHeader ts es [] d tt
      ∙ ap (λ l. (l, true)) (append-nil es)),
)
