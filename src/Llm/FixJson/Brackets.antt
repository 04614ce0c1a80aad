-- ===== src/Llm/FixJson/Brackets.antt =====
-- fixUnmatchedBrackets: what the appended closers achieve, and where they achieve nothing.
use agent_util.Common.{
  ℕ, ◌≡◌, refl, true, false, ◌⊎◌, List, [], ◌∷◌, ◌++◌, append-nil, arith, Text, ◌∙◌, length, ap₂,
}
use agent_util.Llm.FixJson.Passes.{
  Scan, outside, is_escape, advance, pop_closer, bracket, bracket_loop, close_all,
  fix_unmatched_brackets,
}

-- `inString` and `escaped` after a whole text
unfoldable pub scan : ℕ → Scan → Text → Scan
scan q s [] = s
scan q s (b ∷ bs) = scan q (advance q s b) bs

pub scan-append : (q : ℕ) (s : Scan) (xs ys : Text) → scan q s (xs ++ ys) ≡ scan q (scan q s xs) ys
unfolding scan
scan-append q s [] ys = refl
scan-append q s (x ∷ xs) ys = scan-append q (advance q s x) xs ys

pub bracket_loop-append :
    (s : Scan) (stack : List ℕ) (xs ys : Text)
    → bracket_loop s stack (xs ++ ys) ≡ bracket_loop (scan b'"' s xs) (bracket_loop s stack xs) ys
unfolding bracket_loop scan
bracket_loop-append s stack [] ys = refl
bracket_loop-append s stack (x ∷ xs) ys =
    bracket_loop-append (advance b'"' s x) (bracket s x stack) xs ys

abbrev pub AllClosers : List ℕ → Type 0
AllClosers [] = Unit {0}
AllClosers (c ∷ cs) = ((c ≡ b'}') ⊎ (c ≡ b']')) × AllClosers cs

-- a byte is escaped only inside a string
abbrev pub IsScan : Scan → Type 0
IsScan s = s.escaped ≡ true → s.in_string ≡ true

advance-IsScan : (q : ℕ) (s : Scan) (b : ℕ) → IsScan s → IsScan (advance q s b)
unfolding advance
advance-IsScan q s b h = ground arith

pub scan-IsScan : (q : ℕ) (s : Scan) (xs : Text) → IsScan s → IsScan (scan q s xs)
unfolding scan
scan-IsScan q s [] h = h
scan-IsScan q s (x ∷ xs) h = scan-IsScan q (advance q s x) xs (advance-IsScan q s x h)

bracket-AllClosers :
    (s : Scan) (b : ℕ) (stack : List ℕ) → AllClosers stack → AllClosers (bracket s b stack)
unfolding bracket pop_closer
bracket-AllClosers s b [] h = ground arith
bracket-AllClosers s b (c ∷ cs) h = ground arith

pub bracket_loop-AllClosers :
    (s : Scan) (stack : List ℕ) (xs : Text)
    → AllClosers stack
    → AllClosers (bracket_loop s stack xs)
unfolding bracket_loop
bracket_loop-AllClosers s stack [] h = h
bracket_loop-AllClosers s stack (x ∷ xs) h =
    bracket_loop-AllClosers (advance b'"' s x) (bracket s x stack) xs
      (bracket-AllClosers s x stack h)

-- outside a string, each closer pops the stack of which it is the top
closer_step :
    (c : ℕ) (cs : List ℕ)
    → (c ≡ b'}') ⊎ (c ≡ b']')
    → (advance b'"' outside c ≡ outside) × (bracket outside c (c ∷ cs) ≡ cs)
unfolding advance bracket pop_closer is_escape
closer_step c cs h = ground arith

bracket_loop-closers : (cs : List ℕ) → AllClosers cs → bracket_loop outside cs cs ≡ []
unfolding bracket_loop
bracket_loop-closers [] h = refl
bracket_loop-closers (c ∷ cs) h =
    rw ((closer_step c cs h.0).0, (closer_step c cs h.0).1) (bracket_loop-closers cs h.1)

-- inside a string, closers are text
inside_step :
    (s : Scan) (c : ℕ) (stack : List ℕ)
    → s.in_string ≡ true
    → (c ≡ b'}') ⊎ (c ≡ b']')
    → ((advance b'"' s c).in_string ≡ true) × (bracket s c stack ≡ stack)
unfolding advance bracket is_escape
inside_step s c stack h k = ground arith

bracket_loop_inside :
    (s : Scan) (stack cs : List ℕ)
    → s.in_string ≡ true
    → AllClosers cs
    → bracket_loop s stack cs ≡ stack
unfolding bracket_loop
bracket_loop_inside s stack [] h k = refl
bracket_loop_inside s stack (c ∷ cs) h k =
    let (inside, same) = inside_step s c stack h k.0 in
    rw same (bracket_loop_inside (advance b'"' s c) stack cs inside k.1)

close_all-append : (s : Text) (cs : List ℕ) → close_all s cs ≡ s ++ cs
unfolding close_all
close_all-append s [] = rw append-nil
close_all-append s (c ∷ cs) = refl

scan-outside : (s : Text) → (scan b'"' outside s).in_string ≡ false → scan b'"' outside s ≡ outside
scan-outside s h = ground (arith, scan-IsScan b'"' outside s (λ e. cc))

-- A text that does not end inside a string has no bracket left open after the pass, and the pass
-- adds nothing to it a second time.
pub fix_unmatched_brackets_closes :
    (s : Text)
    → (scan b'"' outside s).in_string ≡ false
    → (bracket_loop outside [] (fix_unmatched_brackets s) ≡ [])
      × (fix_unmatched_brackets (fix_unmatched_brackets s) ≡ fix_unmatched_brackets s)
unfolding fix_unmatched_brackets close_all
fix_unmatched_brackets_closes s h =
    let stack = bracket_loop outside [] s in
    let closed : bracket_loop outside [] (close_all s stack) ≡ [] =
      rw (close_all-append s stack, bracket_loop-append outside [] s stack, scan-outside s h)
        (bracket_loop-closers stack (bracket_loop-AllClosers outside [] s tt)) in
    (closed, rw closed)

-- the quote that ends a string
quote_step :
    (s : Scan) (stack : List ℕ)
    → s.in_string ≡ true
    → s.escaped ≡ false
    → (advance b'"' s b'"' ≡ outside) × (bracket s b'"' stack ≡ stack)
unfolding advance bracket is_escape
quote_step s stack h k = ground arith

behind_quote :
    (s : Scan) (stack : List ℕ) (rest : Text)
    → s.in_string ≡ true
    → s.escaped ≡ false
    → bracket_loop s stack (b'"' ∷ rest) ≡ bracket_loop outside stack rest
unfolding bracket_loop
behind_quote s stack rest h k =
    let (ended, same) = quote_step s stack h k in
    ap₂ (λ s' stack'. bracket_loop s' stack' rest) ended same

-- To a text that ends inside a string, and not behind a backslash that escapes the next byte, the
-- pass appends as many closers as brackets are open. Behind a quote that ends the string they would
-- close every bracket, but without it they go into the string: the same are open as before.
pub fix_unmatched_brackets_inside :
    (s : Text)
    → (scan b'"' outside s).in_string ≡ true
    → (scan b'"' outside s).escaped ≡ false
    → (closers : Text) × (fix_unmatched_brackets s ≡ s ++ closers)
      × (length closers ≡ length (bracket_loop outside [] s))
      × (bracket_loop outside [] (s ++ (b'"' ∷ closers)) ≡ [])
      × (bracket_loop outside [] (fix_unmatched_brackets s) ≡ bracket_loop outside [] s)
unfolding fix_unmatched_brackets
fix_unmatched_brackets_inside s h k =
    let stack = bracket_loop outside [] s in
    let closers = bracket_loop-AllClosers outside [] s tt in
    (
      stack,
      close_all-append s stack,
      refl,
      bracket_loop-append outside [] s (b'"' ∷ stack)
          ∙ behind_quote (scan b'"' outside s) stack stack h k
          ∙ bracket_loop-closers stack closers,
      rw (close_all-append s stack, bracket_loop-append outside [] s stack)
          (bracket_loop_inside (scan b'"' outside s) stack stack h closers),
    )
