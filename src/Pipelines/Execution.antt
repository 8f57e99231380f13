-- ===== src/Pipelines/Execution.antt =====
-- pipelines/pipelines/execution.py and pipeline_runner.py: how the steps of a task are run. The event loop
-- holds coroutines; each runs up to its end, for no change of state stands behind an await. The models answer
-- the messages that are sent to them in any order.
pub mod Tokens
pub mod Honest
pub mod History
use badgerdoc.Pipelines.Tables.{
  Coroutine, start, step_execution_with_logging, step_execution, process_next_steps, finish,
  Message, Execution, Answers, is_done, is_fail, find_step, process_step_startup, update_step,
  is_completed, is_child_of, first_upmost, last_error, check_preprocessing_status, pop_at, spawn,
}
use badgerdoc.Base.{
  ℕ, zero, suc, Bool, true, false, not, ◌&&◌, Option, none, some, List, [], ◌∷◌, ◌++◌,
  if◌then◌else◌, ◌==◌, filter_by, map, lookup, number_key, option_key, same_option,
}
use badgerdoc.Annotations.Types.{Text}
use badgerdoc.Pipelines.Types.{
  PipelineStep, step, Pipeline, PipelineType, preprocessing, inference, Status, pend, run, done,
  fail, ExecutionStep, PreprocessingStatus, in_progress, preprocessed, failed, uploaded, CheckError,
  no_status, is_failed, timed_out,
}
use badgerdoc.Pipelines.Arguments.{
  Dict, InputArguments, Services, is_nil, parse_obj, create_input_by_label, set_item,
  prepare_for_init, next_step_args,
}
use badgerdoc.Pipelines.Graph.{model_url_of, get_steps_dict, initialize_steps}

-- What happens next: a coroutine of the event loop runs, or a model answers a message. Of a failure
-- ResponseMessage puts the result into a dict.
pub data Event (D : Type 0) : Type 0 where
  resume : (n : ℕ) → Answers → Event D
  receive : (n : ℕ) → (status : Status) → (result : Option D) → Event D

module _ {D : Type 0} where
  abbrev pub update_steps :
      List (ExecutionStep D) → Status → D → List (ExecutionStep D) → List (ExecutionStep D)
  update_steps [] status result rows = rows
  update_steps (s ∷ steps) status result rows =
      update_steps steps status result (update_step s.id status (some result) rows)

  -- The address of the model, if the step is to be sent.
  abbrev pub url_of : Option (PipelineStep D) → Option Text
  url_of none = none
  url_of (some pipeline_step) = model_url_of pipeline_step

module _ {D : Type 0} (pipeline : Pipeline D) where
  abbrev pub get_pipeline_step : ℕ → Option (PipelineStep D)
  get_pipeline_step step_id = lookup step_id (get_steps_dict pipeline)

  -- The status of PipelineTask.finish.
  abbrev pub final_status : Bool → Answers → Status
  final_status has_failed answers =
      let is_passed : Bool = elim pipeline.type_ [
        | inference ↦ answers.manage_result_for_annotator
        | preprocessing ↦ true
      ] in
      if not has_failed && is_passed then done else fail

module _ {D A : Type 0} (has_webhook : Bool) where
  -- change_status, then send_status.
  abbrev pub change_status : Status → Execution D A → Execution D A
  change_status status e = record e {
    status = status;
    told = if has_webhook then e.told ++ status ∷ [] else e.told;
  }

module _ {V : Type 0} (services : Services V) where
  open services use {dict, dict_value}

  abbrev pub is_filled : Option (Dict V) → Bool
  is_filled none = false
  is_filled (some d) = not (is_nil d)

  -- parse_obj(None) raises ValidationError.
  abbrev pub parse_args : Option (Dict V) → Option (InputArguments V)
  parse_args none = none
  parse_args (some d) = parse_obj services d

  -- `[step for step in self.steps if step.init_args][0]`
  abbrev pub first_with_args : List (ExecutionStep (Dict V)) → Option (ExecutionStep (Dict V))
  first_with_args [] = none
  first_with_args (s ∷ steps) = if is_filled s.init_args then some s else first_with_args steps

  -- "args"
  abbrev pub args_key : Text
  args_key = 97 ∷ 114 ∷ 103 ∷ 115 ∷ []

  abbrev pub step_input : Option (PipelineStep (Dict V)) → InputArguments V → Dict V
  step_input none body = dict (create_input_by_label none body)
  step_input (some (step id model model_url categories none steps)) body =
      dict (create_input_by_label categories body)
  step_input (some (step id model model_url categories (some args) steps)) body =
      set_item args_key (dict_value args) (dict (create_input_by_label categories body))

module _ {V : Type 0} (services : Services V) (pipeline : Pipeline (Dict V))
    (has_webhook : Bool) where
  open services use {error_result, max_retries}

  pub finish_task :
      List (ExecutionStep (Dict V))
      → Bool
      → Answers
      → Execution (Dict V) (InputArguments V)
      → Execution (Dict V) (InputArguments V)
  finish_task steps has_failed answers e = elim (first_upmost steps) [
    | none ↦ e
    | some initial_step ↦ elim (parse_args services initial_step.init_args) [
      | none ↦ e
      | some args ↦ change_status has_webhook (final_status pipeline has_failed answers) e
    ]
  ]

  pub preprocessing_error : Answers → Option CheckError
  unfolding check_preprocessing_status
  preprocessing_error answers = elim pipeline.type_ [
    | inference ↦ check_preprocessing_status max_retries 0 answers.get_file_status
    | preprocessing ↦ none
  ]

  -- PipelineTask.start
  pub start_task :
      List (ExecutionStep (Dict V))
      → Answers
      → Execution (Dict V) (InputArguments V)
      → Execution (Dict V) (InputArguments V)
  unfolding finish_task preprocessing_error
  start_task steps answers e = elim (first_with_args services steps) [
    | none ↦ e
    | some initial_step ↦ elim (parse_args services initial_step.init_args) [
      | none ↦ e
      | some args ↦ elim (preprocessing_error answers) [
        | some error ↦
            finish_task steps true answers
              (record e { steps = update_steps steps fail (error_result error) e.steps })
        | none ↦
            let running = change_status has_webhook run e in
            elim (prepare_for_init services pipeline.type_ initial_step.id args) [
              | none ↦ running
              | some init_body ↦
                  spawn (step_execution_with_logging initial_step (some init_body) ∷ []) running
            ]
      ]
    ]
  ]

  abbrev pub body_of : ExecutionStep (Dict V) → Option (InputArguments V) → Dict V
  body_of s none = []
  body_of s (some body) = step_input services (get_pipeline_step pipeline s.step_id) body

  pub start_step :
      ExecutionStep (Dict V)
      → Option (InputArguments V)
      → Execution (Dict V) (InputArguments V)
      → Execution (Dict V) (InputArguments V)
  start_step s body e =
      spawn (step_execution s (body_of s body) ∷ [])
        (record e { steps = process_step_startup s.id (body_of s body) e.steps })

  abbrev pub target : ExecutionStep (Dict V) → Dict V → Option Text
  target s body = if not (is_nil body) then url_of (get_pipeline_step pipeline s.step_id) else none

  pub execute_step :
      ExecutionStep (Dict V)
      → Dict V
      → Answers
      → Execution (Dict V) (InputArguments V)
      → Execution (Dict V) (InputArguments V)
  unfolding finish_task
  execute_step s body answers e = elim (target s body) [
    | some url ↦ record e { sent = e.sent ++ record { key = s.id; body = body; url = url } ∷ [] }
    | none ↦
        let steps = update_step s.id done none e.steps in
        if is_completed steps
        then finish_task steps false answers (record e { steps = steps })
        else record e { steps = steps }
  ]

  -- The arguments for the next steps; none if they cannot be parsed.
  abbrev pub next_body : ExecutionStep (Dict V) → Option (Option (InputArguments V))
  next_body s =
      if is_filled services s.result
      then (elim (parse_args services s.init_args) [ none ↦ none | some body ↦ some (some body) ])
      else some none

  -- The arguments for one of them; none if they do not pass the validators.
  abbrev pub next_step_body :
      ExecutionStep (Dict V)
      → Option (InputArguments V)
      → ExecutionStep (Dict V)
      → Option (Option (InputArguments V))
  next_step_body s none next_step = some none
  next_step_body s (some body) next_step =
      elim (next_step_args services pipeline.type_ next_step.id s.result body) [
        | none ↦ none
        | some next ↦ some (some next)
      ]

  -- The loop over the next steps: the coroutines that it makes before it ends or raises.
  abbrev pub next_coroutines :
      ExecutionStep (Dict V)
      → Option (InputArguments V)
      → List (ExecutionStep (Dict V))
      → List (Coroutine (Dict V) (InputArguments V))
  next_coroutines s body [] = []
  next_coroutines s body (next_step ∷ next_steps) =
      let rest = next_coroutines s body next_steps in
      elim (next_step_body s body next_step) [
        | none ↦ []
        | some next ↦ step_execution_with_logging next_step next ∷ rest
      ]

  pub start_next_steps :
      ExecutionStep (Dict V)
      → Execution (Dict V) (InputArguments V)
      → Execution (Dict V) (InputArguments V)
  start_next_steps s e = elim (next_body s) [
    | none ↦ e
    | some body ↦ spawn (next_coroutines s body (filter_by (is_child_of s.step_id) e.steps)) e
  ]

  pub run_coroutine :
      Coroutine (Dict V) (InputArguments V)
      → Answers
      → Execution (Dict V) (InputArguments V)
      → Execution (Dict V) (InputArguments V)
  unfolding start_task start_step execute_step start_next_steps finish_task
  run_coroutine (start steps) answers e = start_task steps answers e
  run_coroutine (step_execution_with_logging s body) answers e = start_step s body e
  run_coroutine (step_execution s body) answers e = execute_step s body answers e
  run_coroutine (process_next_steps s) answers e = start_next_steps s e
  run_coroutine (finish steps has_failed) answers e = finish_task steps has_failed answers e

  -- pipeline_runner.process_message
  pub process_message :
      (step_id : ℕ)
      → Status
      → Option (Dict V)
      → Execution (Dict V) (InputArguments V)
      → Execution (Dict V) (InputArguments V)
  process_message step_id status result e = elim (find_step step_id e.steps) [
    | none ↦ e
    | some received ↦
        let steps = update_step step_id status result e.steps in
        let received_step = record received { status = status; result = result } in
        spawn
          ((if is_fail status
              then finish steps true
              else if is_completed steps
              then finish steps false
              else process_next_steps received_step)
            ∷ [])
          (record e { steps = steps })
  ]

  pub happen :
      Event (Dict V) → Execution (Dict V) (InputArguments V) → Execution (Dict V) (InputArguments V)
  unfolding run_coroutine process_message
  happen (resume n answers) e = elim (pop_at n e.pool) [
    | none ↦ e
    | some (coroutine, pool) ↦ run_coroutine coroutine answers (record e { pool = pool })
  ]
  happen (receive n status result) e = elim (pop_at n e.sent) [
    | none ↦ e
    | some (message, sent) ↦ process_message message.key status result (record e { sent = sent })
  ]

  unfoldable pub run_events :
      List (Event (Dict V))
      → Execution (Dict V) (InputArguments V)
      → Execution (Dict V) (InputArguments V)
  unfolding happen
  run_events [] e = e
  run_events (event ∷ events) e = run_events events (happen event e)

-- What initialize_execution of pipelines/pipelines/db/service.py leaves.
unfoldable pub initialize_execution :
    {D A : Type 0} → (next_id : ℕ) → Pipeline D → (arg : D) → Execution D A
unfolding initialize_steps
initialize_execution next_id pipeline arg =
    let steps = initialize_steps next_id pipeline arg in
    record { steps = steps; status = pend; pool = start steps ∷ []; sent = []; told = [] }
