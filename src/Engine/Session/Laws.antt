-- ===== src/Engine/Session/Laws.antt =====
-- The loop of RunLoop in internal/engine/session.go.
use agent_util.Common.{
  ℕ, zero, suc, ◌-◌, ◌≤◌, ◌<◌, ◌≡◌, refl, Bool, true, false, ◌||◌, inl, inr, ◌⊎◌, Option, none,
  some, List, [], ◌∷◌, ◌++◌, decimal, arith, Text, txt, text_eq, text_eq_iff, if◌then◌else◌, modify,
  Bool-cases, Option-cases, ap, ◌∙◌,
}
use agent_util.Engine.Errors.{Error, other}
use agent_util.Engine.Exec.{Result, ok, err}
use agent_util.Engine.State.{RunResult}
use agent_util.Engine.Session.{
  TaskEntry, ProgressFile, SessionRunner, Outcome, find_status, next_pending_task, started,
  finished, session_loop, session, saved, after_run, run_task, description_at, build_session_prompt,
}

abbrev is_open : TaskEntry → Bool
is_open t = text_eq t.status (txt "pending") || text_eq t.status (txt "failed")

-- the tasks that are pending or failed
unfoldable pub count_open : List TaskEntry → ℕ
count_open [] = 0
count_open (t ∷ ts) = let rest = count_open ts in if is_open t then suc rest else rest

find_status-none :
    (ts : List TaskEntry)
    → find_status (txt "pending") ts ≡ none
    → find_status (txt "failed") ts ≡ none
    → count_open ts ≡ 0
unfolding find_status count_open
find_status-none [] h k = refl
find_status-none (t ∷ ts) h k = elim (Option-cases (find_status (txt "pending") ts)) [
  | inl no_pending ↦ elim (Option-cases (find_status (txt "failed") ts)) [
    | inl no_failed ↦ ground (arith, find_status-none ts no_pending no_failed)
    | inr (i, found) ↦ ground arith
  ]
  | inr (i, found) ↦ ground arith
]

opened :
    (t : TaskEntry) (ts : List TaskEntry) (status : Text) (f : TaskEntry → TaskEntry)
    → (status ≡ txt "pending") ⊎ (status ≡ txt "failed")
    → text_eq t.status status ≡ true
    → is_open (f t) ≡ false
    → suc (count_open (f t ∷ ts)) ≡ count_open (t ∷ ts)
unfolding count_open
opened t ts status f s here c = ground (
  arith,
  text_eq_iff t.status status,
  text_eq_iff t.status (txt "pending"),
  text_eq_iff t.status (txt "failed"),
)

closed_one :
    (status : Text) (ts : List TaskEntry) (i : ℕ) (f : TaskEntry → TaskEntry)
    → (status ≡ txt "pending") ⊎ (status ≡ txt "failed")
    → find_status status ts ≡ some i
    → ((t : TaskEntry) → is_open (f t) ≡ false)
    → suc (count_open (modify i f ts)) ≡ count_open ts
unfolding find_status count_open
closed_one status [] i f s h c = cc
closed_one status (t ∷ ts) zero f s h c = elim (Bool-cases (text_eq t.status status)) [
  | inl here ↦ opened t ts status f s here (c t)
  | inr later ↦ ground arith
]
closed_one status (t ∷ ts) (suc i) f s h c = elim (Bool-cases (text_eq t.status status)) [
  | inl here ↦ ground arith
  | inr later ↦ elim (Option-cases (find_status status ts)) [
    | inl nowhere ↦ ground arith
    | inr (j, found) ↦
        let same : j ≡ i = ground arith in
        ground (arith, closed_one status ts i f s (found ∙ ap some same) c)
  ]
]

modify-modify :
    (i : ℕ) (f g : TaskEntry → TaskEntry) (ts : List TaskEntry)
    → modify i g (modify i f ts) ≡ modify i (λ t. g (f t)) ts
modify-modify i f g [] = refl
modify-modify zero f g (t ∷ ts) = refl
modify-modify (suc i) f g (t ∷ ts) = ap (λ l. t ∷ l) (modify-modify i f g ts)

done-closed :
    (r : RunResult) (now then_now : Text) (t : TaskEntry)
    → is_open (finished (ok r) now (started then_now t)) ≡ false
unfolding finished started text_eq txt
done-closed r now then_now t = refl

next_pending_task-some :
    (ts : List TaskEntry) (i : ℕ) (f : TaskEntry → TaskEntry)
    → next_pending_task ts ≡ some i
    → ((t : TaskEntry) → is_open (f t) ≡ false)
    → suc (count_open (modify i f ts)) ≡ count_open ts
unfolding next_pending_task
next_pending_task-some ts i f h c = elim (Option-cases (find_status (txt "pending") ts)) [
  | inr (j, found) ↦ closed_one (txt "pending") ts i f (inl refl) (found ∙ (rw found at h)) c
  | inl no_pending ↦ closed_one (txt "failed") ts i f (inr refl) (rw no_pending at h) c
]

next_pending_task-none : (ts : List TaskEntry) → next_pending_task ts ≡ none → count_open ts ≡ 0
unfolding next_pending_task
next_pending_task-none ts h = elim (Option-cases (find_status (txt "pending") ts)) [
  | inr (j, found) ↦ absurd (cc (rw found at h))
  | inl no_pending ↦ find_status-none ts no_pending (rw no_pending at h)
]

module _ {W : Type 0} (sr : SessionRunner W) where
  -- the error of a loop that has used up its sessions
  abbrev pub limit_error : Error
  limit_error = other (
      txt "session loop: max sessions ("
      ++ (decimal sr.max_sessions ++ txt ") reached with pending tasks"))

  abbrev pub IsDone : Outcome sr → Type 0
  IsDone r = r.1 ≡ none → count_open r.0.tasks ≡ 0

  abbrev AllDone : (ProgressFile → W → Outcome sr) → Type 0
  AllDone next = (p : ProgressFile) (w : W) → IsDone (next p w)

  saved-IsDone :
      (s : Option Error × W) (p : ProgressFile) (next : W → Outcome sr)
      → ((w : W) → IsDone (next w))
      → IsDone (saved sr s p next)
  saved-IsDone (some er, w) p next all h = cc
  saved-IsDone (none, w) p next all h = all w h

  run-IsDone :
      (i : ℕ) (p : ProgressFile) (x : Result RunResult × W) (next : ProgressFile → W → Outcome sr)
      → AllDone next
      → IsDone (after_run sr i p x next)
  run-IsDone i p (r, w) next all =
      let (now, w') = sr.now w in
      let p' : ProgressFile = record p {
        tasks = modify i (finished r now) p.tasks;
        updated_at = now;
      } in
      saved-IsDone (sr.save p' w') p' (next p') (all p')

  session-IsDone :
      (found : Option ℕ) (p : ProgressFile) (w : W) (next : ProgressFile → W → Outcome sr)
      → next_pending_task p.tasks ≡ found
      → AllDone next
      → IsDone (session sr found p w next)
  session-IsDone none p w next e all = λ h. next_pending_task-none p.tasks e
  session-IsDone (some i) p w next e all =
      let (now, w1) = sr.now w in
      let p1 : ProgressFile = record p { tasks = modify i (started now) p.tasks } in
      let description = description_at p1.tasks i in
      saved-IsDone (sr.save p1 w1) p1 (run_task sr i p1 next) (λ w2.
        run-IsDone i p1 (sr.run_engine (build_session_prompt description p1) description w2) next
          all)

  -- If the loop over the sessions ends without an error, no task is left pending or failed.
  pub session_loop-IsDone :
      (sessions : ℕ) (p : ProgressFile) (w : W) → IsDone (session_loop sr sessions p w)
  unfolding session_loop
  session_loop-IsDone zero p w = λ h. cc
  session_loop-IsDone (suc left) p w = elim (Bool-cases (sr.cancelled w)) [
    | inl stop ↦ rw stop (λ h. cc)
    | inr go ↦ rw go (
        session-IsDone (next_pending_task p.tasks) p w (λ p' w'. session_loop sr left p' w') refl
          (λ p' w'. session_loop-IsDone left p' w'))
  ]

  module _ (saves : (p : ProgressFile) (w : W) → (sr.save p w).0 ≡ none)
      (running : (w : W) → sr.cancelled w ≡ false)
      (succeeds : (prompt task : Text) (w : W)
        → (r : RunResult) × ((sr.run_engine prompt task w).0 ≡ ok r)) where
    saved_next :
        (s : Option Error × W) (p : ProgressFile) (next : W → Outcome sr)
        → s.0 ≡ none
        → saved sr s p next ≡ next s.1
    saved_next (some er, w) p next h = cc
    saved_next (none, w) p next h = refl

    run_ends :
        (i : ℕ) (p : ProgressFile) (x : Result RunResult × W) (next : ProgressFile → W → Outcome sr)
        (r : RunResult)
        → x.0 ≡ ok r
        → (p' : ProgressFile) × (w' : W) × (now : Text) × (after_run sr i p x next ≡ next p' w')
          × (p'.tasks ≡ modify i (finished (ok r) now) p.tasks)
    run_ends i p (err er, w) next r h = cc
    run_ends i p (ok r', w) next r h =
        let (now, w') = sr.now w in
        let p' : ProgressFile = record p {
          tasks = modify i (finished (ok r') now) p.tasks;
          updated_at = now;
        } in
        let same : r' ≡ r = cc in
        (
          p',
          (sr.save p' w').1,
          now,
          saved_next (sr.save p' w') p' (next p') (saves p' w'),
          ap (λ y. modify i (finished (ok y) now) p.tasks) same,
        )

    session_closes :
        (i : ℕ) (p : ProgressFile) (w : W) (next : ProgressFile → W → Outcome sr)
        → next_pending_task p.tasks ≡ some i
        → (p' : ProgressFile) × (w' : W) × (session sr (some i) p w next ≡ next p' w')
          × (suc (count_open p'.tasks) ≡ count_open p.tasks)
    session_closes i p w next h =
        let (now, w1) = sr.now w in
        let p1 : ProgressFile = record p { tasks = modify i (started now) p.tasks } in
        let w2 = (sr.save p1 w1).1 in
        let begun = saved_next (sr.save p1 w1) p1 (run_task sr i p1 next) (saves p1 w1) in
        let description = description_at p1.tasks i in
        let prompt = build_session_prompt description p1 in
        let (r, won) = succeeds prompt description w2 in
        let (p2, w3, later, ended, tasks) =
          run_ends i p1 (sr.run_engine prompt description w2) next r won in
        (
          p2,
          w3,
          begun ∙ ended,
          ap (λ ts. suc (count_open ts))
                (tasks ∙ modify-modify i (started now) (finished (ok r) later) p.tasks)
              ∙ next_pending_task-some p.tasks i (λ t. finished (ok r) later (started now t)) h
                  (done-closed r later now),
        )

    -- If the file can always be written, the context is never done and every task succeeds, then
    -- more sessions than open tasks end without an error and with no open task; as many sessions
    -- or fewer end with the error of the limit, each having closed one task: also if none is left.
    pub session_loop_lem :
        (sessions : ℕ) (p : ProgressFile) (w : W)
        → (count_open p.tasks < sessions
            → ((session_loop sr sessions p w).1 ≡ none)
              × (count_open (session_loop sr sessions p w).0.tasks ≡ 0))
          × (sessions ≤ count_open p.tasks
              → ((session_loop sr sessions p w).1 ≡ some limit_error)
                × (count_open (session_loop sr sessions p w).0.tasks
                    ≡ count_open p.tasks - sessions))
    unfolding session_loop
    session_loop_lem zero p w = (λ lt. absurd (omega arith), λ le. (refl, omega arith))
    session_loop_lem (suc left) p w = elim (Option-cases (next_pending_task p.tasks)) [
      | inl finished_all ↦
          let none_open = next_pending_task-none p.tasks finished_all in
          rw (running w, finished_all) (λ lt. (refl, none_open), λ le. absurd (omega arith))
      | inr (i, found) ↦
          let (p', w', same, closed) =
            session_closes i p w (λ p'' w''. session_loop sr left p'' w'') found in
          let (enough, short) = session_loop_lem left p' w' in
          rw (running w, found, same)
            (
              λ lt. enough (omega arith),
              λ le. let (limit, count) = short (omega arith) in (limit, omega arith),
            )
    ]
