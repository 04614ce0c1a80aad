-- ===== src/Engine/Calls/Laws.antt =====
-- RegisterTool of internal/engine/engine.go: the registry, and the tokens that it does not count.
use agent_util.Common.{
  inl, inr, Bool-cases, Map, Text, arith, ℕ, ◌≡◌, refl, sym, ◌∙◌, false, Option, none, some, List,
  [], ◌∷◌, ◌++◌,
}
use agent_util.Common.Floats.{Floats}
use agent_util.Context.Estimate.{Unicode}
use agent_util.Context.Manager.{Manager, set_reserved, check_threshold, notify}
use agent_util.Engine.Calls.{register_tool, update_reserved_tokens, with_tools_of, registered_with}
use agent_util.Engine.Prompt.{PromptBuilder, estimate_reserved_tokens}
use agent_util.Engine.Registry.{
  Tool, Registry, register, registered_or, register_each, new_registry,
}
use agent_util.Engine.State.{Engine, State}

module _ {W : Type 0} where
  -- a registry that registrations filled
  abbrev pub IsFilled : Registry W → Type 0
  IsFilled r = (ts : List (Tool W)) × (r ≡ register_each ts new_registry)

  register_each-append :
      (ts us : List (Tool W)) (r : Registry W)
      → register_each (ts ++ us) r ≡ register_each us (register_each ts r)
  unfolding register_each
  register_each-append [] us r = refl
  register_each-append (t ∷ ts) us r = register_each-append ts us (registered_or r (register t r))

  register-IsFilled :
      (t : Tool W) (r r' : Registry W) → register t r ≡ some r' → IsFilled r → IsFilled r'
  unfolding register_each
  register-IsFilled t r r' h (ts, e) =
      (ts ++ (t ∷ []), sym (register_each-append ts (t ∷ []) new_registry ∙ rw (sym e, h) refl))

module _ (fl : Floats) where
  pub set_reserved_fields :
      (n : ℕ) (m : Manager fl.Float)
      → ((set_reserved fl n m).reserved_tokens ≡ n)
        × ((set_reserved fl n m).token_count ≡ m.token_count)
  unfolding set_reserved check_threshold notify
  set_reserved_fields n m = (ground arith, ground arith)

module _ (fl : Floats) (u : Unicode) {W : Type 0} where
  -- what holds of an engine after RegisterTool, if it returns no error
  abbrev pub Registered :
      (Engine fl W × State fl W → Type 0) → Option (Engine fl W × State fl W) → Type 0
  Registered P none = Unit
  Registered P (some es) = P es

  pub Registered-map :
      (P Q : Engine fl W × State fl W → Type 0)
      → ((es : Engine fl W × State fl W) → P es → Q es)
      → (r : Option (Engine fl W × State fl W)) → Registered P r
      → Registered Q r
  Registered-map P Q f none p = tt
  Registered-map P Q f (some es) p = f es p

  registered_with-IsFilled :
      (t : Tool W) (e : Engine fl W) (s : State fl W) (r : Option (Registry W))
      → register t e.registry ≡ r
      → IsFilled e.registry
      → Registered (λ es. IsFilled es.0.registry) (registered_with fl u r (e, s))
  unfolding update_reserved_tokens
  registered_with-IsFilled t e s none h f = tt
  registered_with-IsFilled t e s (some r) h f = register-IsFilled t e.registry r h f

  pub register_tool-IsFilled :
      (t : Tool W) (e : Engine fl W) (s : State fl W)
      → IsFilled e.registry
      → Registered (λ es. IsFilled es.0.registry) (register_tool fl u t (e, s))
  unfolding register_tool
  register_tool-IsFilled t e s f = registered_with-IsFilled t e s (register t e.registry) refl f

  pub estimate_lem :
      (pb : PromptBuilder (Option (Map Text ℕ) × W)) (v : Option (Map Text ℕ) × W)
      → ((estimate_reserved_tokens fl u pb v).1.dirty ≡ false)
        × ((estimate_reserved_tokens fl u pb v).1.cached_tokens
            ≡ (estimate_reserved_tokens fl u pb v).0)
        × (pb.dirty ≡ false → (estimate_reserved_tokens fl u pb v).0 ≡ pb.cached_tokens)
  unfolding estimate_reserved_tokens
  estimate_lem pb v = elim (Bool-cases pb.dirty) [
    | inl d ↦ rw d (refl, refl, (λ h. cc))
    | inr d ↦ rw d (refl, refl, (λ h. refl))
  ]

  -- the prompt builder has nothing to count again, and counted `n` tokens; the messages have `k`
  abbrev pub Counted : ℕ → ℕ → Engine fl W × State fl W → Type 0
  Counted n k (e, s) =
      (e.prompt_builder.dirty ≡ false)
      × (e.prompt_builder.cached_tokens ≡ n)
      × (s.manager.reserved_tokens ≡ n)
      × (s.manager.token_count ≡ k)

  update-Counted :
      (n k : ℕ) (e : Engine fl W) (s : State fl W)
      → Counted n k (e, s)
      → Counted n k (update_reserved_tokens fl u (e, s))
  unfolding update_reserved_tokens
  update-Counted n k e s (d, c, r, t) =
      let (d', c', same) = estimate_lem e.prompt_builder (s.tool_calls, s.world) in
      let (r', t') =
        set_reserved_fields fl
          (estimate_reserved_tokens fl u e.prompt_builder (s.tool_calls, s.world)).0 s.manager in
      (d', c' ∙ same d ∙ c, r' ∙ same d ∙ c, t' ∙ t)

  registered_with-Counted :
      (n k : ℕ) (e : Engine fl W) (s : State fl W) (r : Option (Registry W))
      → Counted n k (e, s)
      → Registered (Counted n k) (registered_with fl u r (e, s))
  registered_with-Counted n k e s none c = tt
  registered_with-Counted n k e s (some r) c = update-Counted n k (with_tools_of fl u r e) s c

  pub register_tool-Counted :
      (n k : ℕ) (t : Tool W) (e : Engine fl W) (s : State fl W)
      → Counted n k (e, s)
      → Registered (Counted n k) (register_tool fl u t (e, s))
  unfolding register_tool
  register_tool-Counted n k t e s c = registered_with-Counted n k e s (register t e.registry) c
