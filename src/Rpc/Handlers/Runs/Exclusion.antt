-- ===== src/Rpc/Handlers/Runs/Exclusion.antt =====
-- internal/rpc/handlers.go: the runs of agent.run beside one another, under the lock that
-- handleAgentRun takes.
use agent_util.Common.{
  ℕ, suc, ◌<◌, ◌≡◌, refl, sym, ap, ◌∙◌, false≢true, ◌↔◌, All-map, ◌==◌, Bool, true, false, ◌||◌,
  Option, none, some, List, [], ◌∷◌, ◌++◌, arith,
}
use agent_util.Common.Floats.{Floats}
use agent_util.Engine.State.{State}
use agent_util.Rpc.Handlers.{Handlers, begin_run, end_run, handle_agent_abort}
use agent_util.Rpc.Handlers.Runs.{
  Event, call, work, leave, abort, Runs, among, without, to_list, Covered, left, worked, step, run,
  IsExclusive, idle,
}

among-append : (n : ℕ) (ks ls : List ℕ) → among n ls ≡ true → among n (ks ++ ls) ≡ true
among-append n [] ls h = h
among-append n (k ∷ ks) ls h = ground (arith, among-append n ks ls)

Covered-append : (n : ℕ) (active ks ls : List ℕ) → Covered active ls n → Covered active (ks ++ ls) n
Covered-append n active ks ls h = ground (arith, among-append n ks ls)

among-one : (n k : ℕ) → among n (k ∷ []) ≡ true → n ≡ k
among-one n k h = ground arith

without-one : (k : ℕ) → without k (k ∷ []) ≡ []
without-one k = ground arith

among-without :
    (m n : ℕ) (ks : List ℕ) → among m ks ≡ true → (m == n || among m (without n ks)) ≡ true
among-without m n [] h = cc
among-without m n (k ∷ ks) h = ground (arith, among-without m n ks)

Covered-without :
    (m n : ℕ) (active cancelled : List ℕ)
    → Covered active cancelled m
    → Covered (without n active) (n ∷ cancelled) m
Covered-without m n active cancelled h = ground (arith, among-without m n active)

module _ (fl : Floats) {W : Type 0} where
  started :
      (r : Runs fl W) (c : Option ℕ)
      → r.handlers.run_cancel ≡ c
      → IsExclusive fl r
      → IsExclusive fl (step fl call r)
  unfolding step begin_run
  started r none e h = rw e (record {
    only = rw (h.only, e) refl;
    released = (
      ground arith,
      All-map (Covered r.active r.cancelled) (Covered (r.next ∷ r.active) r.cancelled) r.admitted
          (λ n c. ground arith) h.released,
    );
    fresh = (
      omega arith,
      All-map (λ n. n < r.next) (λ n. n < suc r.next) r.admitted (λ n c. omega arith) h.fresh,
    );
  })
  started r (some k) e h =
      rw e (record { only = h.only ∙ rw e refl; released = h.released; fresh = h.fresh })

  ended :
      (r : Runs fl W) (n : ℕ) (c : Option ℕ) (b : Bool)
      → r.handlers.run_cancel ≡ c
      → among n r.active ≡ b
      → IsExclusive fl r
      → IsExclusive fl (left fl b n r)
  unfolding end_run
  ended r n c false e a h = h
  ended r n none true e a h =
      let none_active : r.active ≡ [] = h.only ∙ rw e refl in
      absurd (false≢true (rw none_active refl ∙ a))
  ended r n (some k) true e a h =
      let one : r.active ≡ k ∷ [] = h.only ∙ rw e refl in
      let same : n ≡ k = among-one n k (sym (ap (among n) one) ∙ a) in
      record {
        only = rw (one, same) (without-one k);
        released =
            All-map (Covered r.active r.cancelled) (Covered (without n r.active) (n ∷ r.cancelled))
              r.admitted (λ m c. Covered-without m n r.active r.cancelled c) h.released;
        fresh = h.fresh;
      }

  at_work :
      (r : Runs fl W) (f : State fl W → State fl W) (b : Bool)
      → IsExclusive fl r
      → IsExclusive fl (worked fl b f r)
  at_work r f false h = h
  at_work r f true h = record { only = h.only; released = h.released; fresh = h.fresh }

  step-IsExclusive :
      (e : Event fl W) (r : Runs fl W) → IsExclusive fl r → IsExclusive fl (step fl e r)
  unfolding step
  step-IsExclusive call r h = started r r.handlers.run_cancel refl h
  step-IsExclusive (work n f) r h = at_work r f (among n r.active) h
  step-IsExclusive (leave n) r h = ended r n r.handlers.run_cancel (among n r.active) refl refl h
  step-IsExclusive abort r h = record {
    only = h.only;
    released =
        All-map (Covered r.active r.cancelled)
          (Covered r.active (to_list (handle_agent_abort fl r.handlers).1 ++ r.cancelled))
          r.admitted
          (λ n c.
            Covered-append n r.active (to_list (handle_agent_abort fl r.handlers).1) r.cancelled c)
          h.released;
    fresh = h.fresh;
  }

  run_from-IsExclusive :
      (es : List (Event fl W)) (r : Runs fl W) → IsExclusive fl r → IsExclusive fl (run fl es r)
  unfolding run
  run_from-IsExclusive [] r h = h
  run_from-IsExclusive (e ∷ es) r h = run_from-IsExclusive es (step fl e r) (step-IsExclusive e r h)

  abort_lem :
      (r : Runs fl W) (c : Option ℕ)
      → r.handlers.run_cancel ≡ c
      → r.active ≡ to_list c
      → (to_list (handle_agent_abort fl r.handlers).1 ≡ r.active)
        × (((begin_run fl r.next r.handlers).0 ≡ none) ↔ (r.active ≡ []))
  unfolding handle_agent_abort begin_run
  abort_lem r none e h = rw (h, e) (refl, ((λ x. refl), (λ x. refl)))
  abort_lem r (some k) e h = rw (h, e) (refl, ((λ x. cc), (λ x. cc)))

  -- From handlers of which no run is in progress, whatever calls of agent.run and agent.abort take
  -- the lock in whatever order: at most one run is between its start and its deferred function, and
  -- it is the one that the cancel function of the handlers belongs to; every other run that was
  -- admitted has its context cancelled; the next agent.abort cancels the active runs and no other;
  -- and the next agent.run is admitted exactly if no run is active.
  pub run-IsExclusive :
      (es : List (Event fl W)) (h : Handlers fl W)
      → h.run_cancel ≡ none
      → IsExclusive fl (run fl es (idle fl h))
        × (to_list (handle_agent_abort fl (run fl es (idle fl h)).handlers).1
            ≡ (run fl es (idle fl h)).active)
        × (((begin_run fl (run fl es (idle fl h)).next (run fl es (idle fl h)).handlers).0 ≡ none)
            ↔ ((run fl es (idle fl h)).active ≡ []))
  run-IsExclusive es h e =
      let x =
        run_from-IsExclusive es (idle fl h)
          (record { only = rw e refl; released = tt; fresh = tt }) in
      let r = run fl es (idle fl h) in
      let (cancels, admits) = abort_lem r r.handlers.run_cancel refl x.only in (x, cancels, admits)
