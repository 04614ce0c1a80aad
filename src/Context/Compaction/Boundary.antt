-- ===== src/Context/Compaction/Boundary.antt =====
-- The boundary of the protected messages of internal/context/compaction.go, over a history in which
-- each tool result stands directly behind the message that holds its call.
use agent_util.Common.{
  ℕ, zero, suc, ◌+◌, ◌-◌, ◌≤◌, ◌<◌, ◌≡◌, refl, ◌⊎◌, inl, inr, Bool, true, false, not, ◌&&◌, ◌||◌,
  Option, none, some, List, [], ◌∷◌, arith, Text, text_eq, ltb, leb, length, get_elem?, drop,
  Bool-cases, Option-cases,
}
use agent_util.Context.Compaction.{
  Entry, is_tool, has_call, has_call_at, find_tool_call_assistant, adjust_at, adjust_loop,
  adjust_keep_boundary,
}

-- the message before a tool result holds its call and is no tool result itself
unfoldable pub calls : Text → Option Entry → Bool
calls id none = false
calls id (some p) = not (is_tool p) && has_call id p

unfoldable pub answered : Option Entry → Entry → Bool
answered prev e =
    not (is_tool e)
    || (not (text_eq e.message.tool_call_id []) && calls e.message.tool_call_id prev)

unfoldable pub paired_from : Option Entry → List Entry → Bool
paired_from prev [] = true
paired_from prev (e ∷ es) = answered prev e && paired_from (some e) es

abbrev pub IsPaired : List Entry → Type 0
IsPaired es = paired_from none es ≡ true

-- a tool result that is not the first has its call directly before it
paired_before :
    (prev : Option Entry) (es : List Entry) (i : ℕ) (e : Entry)
    → paired_from prev es ≡ true
    → get_elem? es (suc i) ≡ some e
    → is_tool e ≡ true
    → (p : Entry) × (get_elem? es i ≡ some p)
      × (is_tool p ≡ false)
      × (has_call e.message.tool_call_id p ≡ true)
      × (text_eq e.message.tool_call_id [] ≡ false)
unfolding paired_from answered calls
paired_before prev [] i e h g t = cc
paired_before prev (p ∷ []) zero e h g t = cc
paired_before prev (p ∷ q ∷ es) zero e h g t = (p, refl, ground arith, ground arith, ground arith)
paired_before prev (p ∷ es) (suc i) e h g t = paired_before (some p) es i e (ground arith) g t

paired_first :
    (es : List Entry) (e : Entry) → IsPaired es → get_elem? es 0 ≡ some e → is_tool e ≡ false
unfolding paired_from answered calls
paired_first [] e h g = cc
paired_first (x ∷ es) e h g = ground arith

has_call_at-some :
    (es : List Entry) (i : ℕ) (p : Entry) (id : Text)
    → get_elem? es i ≡ some p
    → has_call_at es i id ≡ has_call id p
unfolding has_call_at
has_call_at-some es i p id g = rw (g, has_call_at)

-- the search finds the message directly before
find_before :
    (es : List Entry) (i : ℕ) (p : Entry) (id : Text)
    → get_elem? es i ≡ some p
    → has_call id p ≡ true
    → find_tool_call_assistant es id (suc i) ≡ some i
unfolding find_tool_call_assistant
find_before es i p id g h = rw (has_call_at-some es i p id g) (rw h)

-- past the boundary a round of the loop changes nothing
adjust_at_later :
    (es : List Entry) (i cut : ℕ)
    → IsPaired es
    → cut ≤ i
    → adjust_at es (suc i) (get_elem? es (suc i)) cut ≡ cut
unfolding adjust_at
adjust_at_later es i cut h le = elim (Option-cases (get_elem? es (suc i))) [
  | inl out ↦ rw out
  | inr (e, g) ↦ rw g (elim (Bool-cases (is_tool e)) [
    | inr other ↦ rw other
    | inl tool ↦
        let (p, before, _, call, id) = paired_before none es i e h g tool in
        rw (tool, id, find_before es i p e.message.tool_call_id before call) (ground arith)
  ])
]

adjust_loop_later :
    (es : List Entry) (n i cut : ℕ) → IsPaired es → cut ≤ i → adjust_loop es n (suc i) cut ≡ cut
unfolding adjust_loop
adjust_loop_later es zero i cut h le = refl
adjust_loop_later es (suc n) i cut h le =
    rw (adjust_at_later es i cut h le) (adjust_loop_later es n (suc i) cut h (omega arith))

-- the index of a message that is there and is no tool result
abbrev IsBoundary : List Entry → ℕ → Type 0
IsBoundary es i = (e : Entry) × (get_elem? es i ≡ some e) × (is_tool e ≡ false)

adjust_at-IsBoundary :
    (es : List Entry) (cut : ℕ) (e : Entry)
    → IsPaired es
    → get_elem? es cut ≡ some e
    → IsBoundary es (adjust_at es cut (some e) cut) × (adjust_at es cut (some e) cut ≤ cut)
unfolding adjust_at
adjust_at-IsBoundary es zero e h g =
    let other = paired_first es e h g in (rw other (e, g, other), rw other (omega arith))
adjust_at-IsBoundary es (suc i) e h g = elim (Bool-cases (is_tool e)) [
  | inr other ↦ (rw other (e, g, other), rw other (omega arith))
  | inl tool ↦
      let (p, before, plain, call, id) = paired_before none es i e h g tool in
      let found = find_before es i p e.message.tool_call_id before call in
      let less : ltb i (suc i) ≡ true = ground arith in
      (rw (tool, id, found, less) (p, before, plain), rw (tool, id, found, less) (omega arith))
]

get_elem?_below {ℓ} :
    {A : Type ℓ} (xs : List A) (i : ℕ) → i < length xs → (x : A) × (get_elem? xs i ≡ some x)
get_elem?_below [] i h = elim h [ ]
get_elem?_below (x ∷ xs) zero h = (x, refl)
get_elem?_below (x ∷ xs) (suc i) h = get_elem?_below xs i (omega arith)

-- the boundary is the end, where nothing is protected, or a message that is no tool result; at
-- least the last `keep_last` messages lie behind it
IsBoundary-from :
    (es : List Entry) (n cut : ℕ)
    → IsPaired es
    → cut + n ≡ length es
    → (adjust_loop es n cut cut ≡ length es) ⊎ IsBoundary es (adjust_loop es n cut cut)
unfolding adjust_loop
IsBoundary-from es zero cut h e = inl (omega arith)
IsBoundary-from es (suc n) cut h e =
    let (x, g) = get_elem?_below es cut (omega arith) in
    let (b, le) = adjust_at-IsBoundary es cut x h g in
    inr (rw g (rw (adjust_loop_later es n cut (adjust_at es cut (some x) cut) h le) b))

adjust_at_below :
    (es : List Entry) (i : ℕ) (e : Option Entry) (cut : ℕ) → adjust_at es i e cut ≤ cut
unfolding adjust_at
adjust_at_below es i none cut = omega arith
adjust_at_below es i (some e) cut = ground arith

adjust_loop_below : (es : List Entry) (n i cut : ℕ) → adjust_loop es n i cut ≤ cut
unfolding adjust_loop
adjust_loop_below es zero i cut = omega arith
adjust_loop_below es (suc n) i cut =
    omega (arith, adjust_loop_below es n (suc i) (adjust_at es i (get_elem? es i) cut), at)
  where
    at : adjust_at es i (get_elem? es i) cut ≤ cut
    at = adjust_at_below es i (get_elem? es i) cut

-- behind a message that is no tool result, or behind the end, the pairs are whole
paired_drop :
    (prev other : Option Entry) (es : List Entry) (i : ℕ)
    → paired_from prev es ≡ true
    → (i ≡ length es) ⊎ IsBoundary es i
    → paired_from other (drop i es) ≡ true
unfolding paired_from answered
paired_drop prev other [] zero h b = refl
paired_drop prev other [] (suc i) h b = refl
paired_drop prev other (e ∷ es) zero h (inl k) = absurd (omega arith)
paired_drop prev other (e ∷ es) zero h (inr (x, g, plain)) = ground arith
paired_drop prev other (e ∷ es) (suc i) h (inl k) =
    paired_drop (some e) other es i (ground arith) (inl (omega arith))
paired_drop prev other (e ∷ es) (suc i) h (inr b) =
    paired_drop (some e) other es i (ground arith) (inr b)

boundary :
    (es : List Entry) (keep_last : ℕ)
    → IsPaired es
    → keep_last < length es
    → (adjust_keep_boundary es keep_last ≡ length es)
      ⊎ IsBoundary es (adjust_keep_boundary es keep_last)
unfolding adjust_keep_boundary
boundary es keep_last h lt =
    let more : leb (length es) keep_last ≡ false = ground arith in
    rw more (
      IsBoundary-from es (length es - (length es - keep_last)) (length es - keep_last) h
        (omega arith))

pub paired_drop_boundary :
    (other : Option Entry) (es : List Entry) (keep_last : ℕ)
    → IsPaired es
    → keep_last < length es
    → paired_from other (drop (adjust_keep_boundary es keep_last) es) ≡ true
paired_drop_boundary other es keep_last h lt =
    paired_drop none other es (adjust_keep_boundary es keep_last) h (boundary es keep_last h lt)

-- the boundary protects at least the last `keep_last` messages
pub adjust_keep_boundary-le :
    (es : List Entry) (keep_last : ℕ)
    → keep_last < length es
    → adjust_keep_boundary es keep_last + keep_last ≤ length es
unfolding adjust_keep_boundary
adjust_keep_boundary-le es keep_last h =
    let cut = length es - keep_last in
    ground (arith, adjust_loop_below es (length es - cut) cut cut)
