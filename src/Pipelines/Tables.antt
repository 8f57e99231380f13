-- ===== src/Pipelines/Tables.antt =====
-- pipelines/pipelines/execution.py: the rows of a task, what the event loop and the models hold of it, and
-- check_preprocessing_status.
use badgerdoc.Base.{
  ℕ, zero, suc, Bool, true, false, ◌&&◌, Option, none, some, List, [], ◌∷◌, ◌++◌, if◌then◌else◌,
  ◌==◌, number_key, option_key, same_option,
}
use badgerdoc.Annotations.Types.{Text}
use badgerdoc.Pipelines.Types.{
  Status, pend, run, done, fail, ExecutionStep, PreprocessingStatus, in_progress, preprocessed,
  failed, uploaded, CheckError, no_status, is_failed, timed_out,
}

-- What asyncio.create_task is given. A step or a list of steps is an instance that was read from the database
-- when the coroutine was made.
pub data Coroutine (D A : Type 0) : Type 0 where
  start : (steps : List (ExecutionStep D)) → Coroutine D A
  step_execution_with_logging : ExecutionStep D → (body : Option A) → Coroutine D A
  step_execution : ExecutionStep D → (body : D) → Coroutine D A
  process_next_steps : ExecutionStep D → Coroutine D A
  finish : (steps : List (ExecutionStep D)) → (failed : Bool) → Coroutine D A

-- A message to a model.
pub record Message (D : Type 0) : Type 0 where
  pub key : ℕ
  pub body : D
  pub url : Text

-- The rows of the task, its status, the event loop, the messages that are not answered, and the statuses that
-- the webhook was told.
pub record Execution (D A : Type 0) : Type 0 where
  pub steps : List (ExecutionStep D)
  pub status : Status
  pub pool : List (Coroutine D A)
  pub sent : List (Message D)
  pub told : List Status

-- What other services answer while a coroutine runs: the status of the file at each try, and
-- postprocessing.manage_result_for_annotator.
pub record Answers : Type 0 where
  pub get_file_status : ℕ → Option PreprocessingStatus
  pub manage_result_for_annotator : Bool

abbrev pub is_done : Status → Bool
is_done pend = false
is_done run = false
is_done done = true
is_done fail = false

abbrev pub is_fail : Status → Bool
is_fail pend = false
is_fail run = false
is_fail done = false
is_fail fail = true

module _ {D : Type 0} where
  abbrev pub find_step : ℕ → List (ExecutionStep D) → Option (ExecutionStep D)
  find_step id [] = none
  find_step id (s ∷ steps) = if s.id == id then some s else find_step id steps

  -- service.process_step_startup
  abbrev pub process_step_startup : ℕ → D → List (ExecutionStep D) → List (ExecutionStep D)
  process_step_startup id init_args [] = []
  process_step_startup id init_args (s ∷ steps) =
      (if s.id == id then record s { init_args = some init_args; status = run } else s)
      ∷ process_step_startup id init_args steps

  -- ExecutionStep.update
  abbrev pub update_step : ℕ → Status → Option D → List (ExecutionStep D) → List (ExecutionStep D)
  update_step id status result [] = []
  update_step id status result (s ∷ steps) =
      (if s.id == id then record s { status = status; result = result } else s)
      ∷ update_step id status result steps

  abbrev pub is_completed : List (ExecutionStep D) → Bool
  is_completed [] = true
  is_completed (s ∷ steps) = is_done s.status && is_completed steps

  abbrev pub is_child_of : ℕ → ExecutionStep D → Bool
  is_child_of step_id s = same_option s.parent_step (some step_id)

  -- `[step for step in self.steps if step.parent_step is None][0]`
  abbrev pub first_upmost : List (ExecutionStep D) → Option (ExecutionStep D)
  first_upmost [] = none
  first_upmost (s ∷ steps) = elim s.parent_step [ none ↦ some s | some parent ↦ first_upmost steps ]

-- check_preprocessing_status: the error, or none for a file that is preprocessed. After the last try the error
-- is always the one of the timeout.
abbrev pub last_error : ℕ → CheckError → CheckError
last_error zero error = timed_out
last_error (suc retries) error = error

unfoldable pub check_preprocessing_status :
    (retries retry : ℕ) → (ℕ → Option PreprocessingStatus) → Option CheckError
check_preprocessing_status zero retry answers = some timed_out
check_preprocessing_status (suc retries) retry answers = elim (answers retry) [
  | none ↦ some (last_error retries no_status)
  | some preprocessed ↦ none
  | some failed ↦ some (last_error retries is_failed)
  | some in_progress ↦ check_preprocessing_status retries (suc retry) answers
  | some uploaded ↦ check_preprocessing_status retries (suc retry) answers
]

-- The item at an index, with the others.
abbrev pub pop_at {ℓ} : {X : Type ℓ} → ℕ → List X → Option (X × List X)
pop_at n [] = none
pop_at zero (x ∷ xs) = some (x, xs)
pop_at (suc n) (x ∷ xs) = elim (pop_at n xs) [ none ↦ none | some (y, ys) ↦ some (y, x ∷ ys) ]

module _ {D A : Type 0} where
  abbrev pub spawn : List (Coroutine D A) → Execution D A → Execution D A
  spawn coroutines e = record e { pool = e.pool ++ coroutines }
