-- ===== src/Engine/Session.antt =====
-- internal/engine/session.go. The file of the progress, the clock, and a new engine's run of a task
-- are functions of the outside world `W`: `load` reads and parses the file, `none` if there is none.
pub mod Laws
use agent_util.Common.{
  ℕ, zero, suc, ◌+◌, Bool, true, false, Option, none, some, List, [], ◌∷◌, ◌++◌, Text, txt, text_eq,
  leb, if◌then◌else◌, length, take, modify, decimal,
}
use agent_util.Engine.Errors.{Error, wrap, other, error_text}
use agent_util.Engine.Exec.{Result, ok, err}
use agent_util.Engine.State.{RunResult}

pub record TaskEntry : Type 0 where
  pub id : Text
  pub description : Text
  pub status : Text
  pub summary : Text
  pub updated_at : Text

pub record ProgressFile : Type 0 where
  pub tasks : List TaskEntry
  pub started_at : Text
  pub updated_at : Text

pub record SessionRunner (W : Type 0) : Type 0 where
  pub max_sessions : ℕ
  pub load : W → Result (Option ProgressFile) × W
  pub save : ProgressFile → W → Option Error × W
  pub now : W → Text × W
  -- mustNew with a system prompt, and Run
  pub run_engine : Text → Text → W → Result RunResult × W
  pub cancelled : W → Bool
  pub context_error : W → Error

-- NewSessionRunner: no limit, or a limit of zero, stands for twenty
unfoldable pub effective_sessions : ℕ → ℕ
effective_sessions zero = 20
effective_sessions (suc n) = suc n

unfoldable pub truncate_string : Text → ℕ → Text
truncate_string s n = if leb (length s) n then s else take n s ++ txt "..."

unfoldable pub task_line : TaskEntry → Text
task_line t =
    let named = t.id ++ (txt ": " ++ t.description) in
    -- " — " in UTF-8
    let dash = 0x20 ∷ 0xe2 ∷ 0x80 ∷ 0x94 ∷ 0x20 ∷ [] in
    if text_eq t.status (txt "done")
    then txt "- [x] "
      ++ (named ++ ((if text_eq t.summary [] then [] else dash ++ t.summary) ++ txt "\n"))
    else if text_eq t.status (txt "in_progress")
    then txt "- [>] " ++ (named ++ txt " (current)\n")
    else if text_eq t.status (txt "failed")
    then txt "- [!] " ++ (named ++ (txt " (failed: " ++ (t.summary ++ txt ")\n")))
    else txt "- [ ] " ++ (named ++ txt "\n")

unfoldable pub task_lines : List TaskEntry → Text
task_lines [] = []
task_lines (t ∷ ts) = task_line t ++ task_lines ts

unfoldable pub build_session_prompt : Text → ProgressFile → Text
build_session_prompt description p =
    txt "You are working on a specific task. Complete it thoroughly.\n\n## Current Task\n"
    ++ (description ++ (txt "\n\n## Progress\n" ++ task_lines p.tasks))

abbrev index_of : Bool → Option ℕ → Option ℕ
index_of true rest = some 0
index_of false none = none
index_of false (some i) = some (suc i)

-- the first task with a status
unfoldable pub find_status : Text → List TaskEntry → Option ℕ
find_status status [] = none
find_status status (t ∷ ts) = index_of (text_eq t.status status) (find_status status ts)

abbrev pub first_of : Option ℕ → Option ℕ → Option ℕ
first_of (some i) second = some i
first_of none second = second

unfoldable pub next_pending_task : List TaskEntry → Option ℕ
next_pending_task ts = first_of (find_status (txt "pending") ts) (find_status (txt "failed") ts)

unfoldable pub started : Text → TaskEntry → TaskEntry
started now t = record t { status = txt "in_progress"; updated_at = now }

unfoldable pub finished : Result RunResult → Text → TaskEntry → TaskEntry
finished (err er) now t = record t {
  status = txt "failed";
  summary = error_text er;
  updated_at = now;
}
finished (ok r) now t = record t {
  status = txt "done";
  summary = truncate_string r.response 500;
  updated_at = now;
}

unfoldable pub new_tasks : ℕ → List Text → List TaskEntry
new_tasks i [] = []
new_tasks i (description ∷ rest) =
    record {
      id = txt "task-" ++ decimal (suc i);
      description = description;
      status = txt "pending";
      summary = [];
      updated_at = [];
    }
    ∷ new_tasks (suc i) rest

abbrev description_at : List TaskEntry → ℕ → Text
description_at [] i = []
description_at (t ∷ ts) zero = t.description
description_at (t ∷ ts) (suc i) = description_at ts i

module _ {W : Type 0} (sr : SessionRunner W) where
  -- the progress that RunLoop returns, and its error
  abbrev pub Outcome : Type 0
  Outcome = ProgressFile × Option Error × W

  abbrev saved : Option Error × W → ProgressFile → (W → Outcome) → Outcome
  saved (some er, w) p next = (p, some (wrap (txt "save progress") er), w)
  saved (none, w) p next = next w

  -- what follows the run of a task
  abbrev after_run :
      ℕ → ProgressFile → Result RunResult × W → (ProgressFile → W → Outcome) → Outcome
  after_run i p (r, w) next =
      let (now, w') = sr.now w in
      let p' = record p { tasks = modify i (finished r now) p.tasks; updated_at = now } in
      saved (sr.save p' w') p' (next p')

  abbrev run_task : ℕ → ProgressFile → (ProgressFile → W → Outcome) → W → Outcome
  run_task i p next w =
      let description = description_at p.tasks i in
      after_run i p (sr.run_engine (build_session_prompt description p) description w) next

  abbrev session : Option ℕ → ProgressFile → W → (ProgressFile → W → Outcome) → Outcome
  session none p w next = (p, none, w)
  session (some i) p w next =
      let (now, w') = sr.now w in
      let p' = record p { tasks = modify i (started now) p.tasks } in
      saved (sr.save p' w') p' (run_task i p' next)

  -- the loop of RunLoop, by the sessions that are left
  unfoldable pub session_loop : ℕ → ProgressFile → W → Outcome
  session_loop zero p w = (
    p,
    some (
        other (
          txt "session loop: max sessions ("
          ++ (decimal sr.max_sessions ++ txt ") reached with pending tasks"))),
    w,
  )
  session_loop (suc left) p w =
      let next = λ (p' : ProgressFile) (w' : W). session_loop left p' w' in
      if sr.cancelled w
      then (p, some (sr.context_error w), w)
      else session (next_pending_task p.tasks) p w next

  abbrev created : ProgressFile → Option Error × W → Result ProgressFile × W
  created p (some er, w) = (err er, w)
  created p (none, w) = (ok p, w)

  abbrev loaded : List Text → Result (Option ProgressFile) × W → Result ProgressFile × W
  loaded descriptions (err er, w) = (err er, w)
  loaded descriptions (ok (some p), w) = (ok p, w)
  loaded descriptions (ok none, w) =
      let (now, w') = sr.now w in
      let p : ProgressFile = record {
        tasks = new_tasks 0 descriptions;
        started_at = now;
        updated_at = now;
      } in
      created p (sr.save p w')

  -- loadOrCreateProgress
  unfoldable pub load_or_create_progress : List Text → W → Result ProgressFile × W
  load_or_create_progress descriptions w = loaded descriptions (sr.load w)

  abbrev looped : Result ProgressFile × W → Option ProgressFile × Option Error × W
  looped (err er, w) = (none, some (wrap (txt "initialize progress") er), w)
  looped (ok p, w) = let (p', er, w') = session_loop sr.max_sessions p w in (some p', er, w')

  -- RunLoop
  unfoldable pub run_sessions : List Text → W → Option ProgressFile × Option Error × W
  run_sessions descriptions w = looped (load_or_create_progress descriptions w)
