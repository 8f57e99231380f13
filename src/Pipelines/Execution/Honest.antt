-- ===== src/Pipelines/Execution/Honest.antt =====
-- An event finishes a task only if all its steps are done.
use badgerdoc.Base.{
  ℕ, ◌≡◌, refl, Bool, true, false, not, Option, none, some, List, [], ◌∷◌, ◌++◌, if◌then◌else◌,
  filter_by, All, All-append, Bool-cases, Option-cases, inl, inr, arith,
}
use badgerdoc.Pipelines.Types.{Pipeline, Status, done, ExecutionStep}
use badgerdoc.Pipelines.Arguments.{Dict, InputArguments, Services, prepare_for_init}
use badgerdoc.Pipelines.Tables.{
  Coroutine, start, step_execution_with_logging, step_execution, process_next_steps, finish,
  Execution, Answers, pop_at, find_step, is_completed, is_done, is_fail, first_upmost, update_step,
  is_child_of,
}
use badgerdoc.Pipelines.Execution.{
  Event, resume, receive, parse_args, first_with_args, final_status, finish_task,
  preprocessing_error, start_task, start_step, target, execute_step, next_body, next_step_body,
  next_coroutines, start_next_steps, run_coroutine, process_message, happen,
}
use badgerdoc.Pipelines.Execution.Tokens.{All-pop_at}

module _ {V : Type 0} where
  -- The end of a task that has not failed.
  abbrev pub is_success : Coroutine (Dict V) (InputArguments V) → Bool
  is_success (start steps) = false
  is_success (step_execution_with_logging s body) = false
  is_success (step_execution s body) = false
  is_success (process_next_steps s) = false
  is_success (finish steps has_failed) = not has_failed

  -- A task that is done, or about to be, is so for a reason.
  pub record IsHonest (W : Type 0) (e : Execution (Dict V) (InputArguments V)) : Type 0 where
    pub pool : All (λ c. is_success c ≡ true → W) e.pool
    pub status : is_done e.status ≡ true → W

  spawn-IsHonest :
      (W : Type 0) (new : List (Coroutine (Dict V) (InputArguments V)))
      (e : Execution (Dict V) (InputArguments V))
      → All (λ c. is_success c ≡ true → W) new
      → IsHonest W e
      → IsHonest W (record e { pool = e.pool ++ new })
  spawn-IsHonest W new e n h = record { pool = All-append _ e.pool new h.pool n; status = h.status }

  module _ (services : Services V) (pipeline : Pipeline (Dict V)) (has_webhook : Bool)
      (W : Type 0) where
    final_status-failed : (answers : Answers) → is_done (final_status pipeline true answers) ≡ false
    final_status-failed answers = ground arith

    finish_task-IsHonest :
        (steps : List (ExecutionStep (Dict V))) (has_failed : Bool) (answers : Answers)
        (e : Execution (Dict V) (InputArguments V))
        → (not has_failed ≡ true → W)
        → IsHonest W e
        → IsHonest W (finish_task services pipeline has_webhook steps has_failed answers e)
    unfolding finish_task
    finish_task-IsHonest steps has_failed answers e w h = elim (Option-cases (first_upmost steps)) [
      | inl none_ ↦ rw (none_, finish_task) h
      | inr (s, upmost) ↦ elim (Option-cases (parse_args services s.init_args)) [
        | inl none_ ↦ rw (finish_task, upmost, none_) h
        | inr (args, parsed) ↦
            rw (finish_task, upmost, parsed)
              (record { pool = h.pool; status = reason has_failed w })
      ]
    ]
      where
        reason :
            (b : Bool) → (not b ≡ true → W) → is_done (final_status pipeline b answers) ≡ true → W
        reason true w e = absurd (ground (arith, e, final_status-failed answers))
        reason false w e = w refl

    finish_task-steps :
        (steps : List (ExecutionStep (Dict V))) (has_failed : Bool) (answers : Answers)
        (e : Execution (Dict V) (InputArguments V))
        → (finish_task services pipeline has_webhook steps has_failed answers e).steps ≡ e.steps
    unfolding finish_task
    finish_task-steps steps has_failed answers e = elim (Option-cases (first_upmost steps)) [
      | inl none_ ↦ rw (finish_task, none_) refl
      | inr (s, upmost) ↦ elim (Option-cases (parse_args services s.init_args)) [
        | inl none_ ↦ rw (finish_task, upmost, none_) refl
        | inr (args, parsed) ↦ rw (finish_task, upmost, parsed) refl
      ]
    ]

    start_task-IsHonest :
        (steps : List (ExecutionStep (Dict V))) (answers : Answers)
        (e : Execution (Dict V) (InputArguments V))
        → IsHonest W e
        → IsHonest W (start_task services pipeline has_webhook steps answers e)
    unfolding start_task
    start_task-IsHonest steps answers e h = elim (Option-cases (first_with_args services steps)) [
      | inl none_ ↦ rw (start_task, none_) h
      | inr (s, first) ↦ elim (Option-cases (parse_args services s.init_args)) [
        | inl none_ ↦ rw (start_task, first, none_) h
        | inr (args, parsed) ↦
            elim (Option-cases (preprocessing_error services pipeline has_webhook answers)) [
              | inl passed ↦
                  elim (Option-cases (prepare_for_init services pipeline.type_ s.id args)) [
                    | inl none_ ↦
                        rw (start_task, first, parsed, passed, none_)
                          (record { pool = h.pool; status = λ c. cc })
                    | inr (body, prepared) ↦
                        rw (start_task, first, parsed, passed, prepared)
                          (record {
                            pool = All-append _ e.pool _ h.pool ((λ c. cc), tt);
                            status = λ c. cc;
                          })
                  ]
              | inr (error, wrong) ↦
                  rw (start_task, first, parsed, wrong)
                    (finish_task-IsHonest steps true answers _ (λ c. cc)
                      (record { pool = h.pool; status = h.status }))
            ]
      ]
    ]

    execute_step-IsHonest :
        (s : ExecutionStep (Dict V)) (body : Dict V) (answers : Answers)
        (e : Execution (Dict V) (InputArguments V))
        → (is_completed (execute_step services pipeline has_webhook s body answers e).steps ≡ true
            → W)
        → IsHonest W e
        → IsHonest W (execute_step services pipeline has_webhook s body answers e)
    unfolding execute_step
    execute_step-IsHonest s body answers e w h =
        elim (Option-cases (target services pipeline has_webhook s body)) [
          | inr (url, to) ↦ rw (execute_step, to) (record { pool = h.pool; status = h.status })
          | inl none_ ↦ elim (Bool-cases (is_completed (update_step s.id done none e.steps))) [
            | inr open_ ↦
                rw (execute_step, none_, open_) (record { pool = h.pool; status = h.status })
            | inl over ↦
                rw (execute_step, none_, over)
                  (finish_task-IsHonest (update_step s.id done none e.steps) false answers _
                    (λ c. w (
                      rw
                        (
                          execute_step,
                          none_,
                          over,
                          finish_task-steps (update_step s.id done none e.steps) false answers _,
                        )
                        over))
                    (record { pool = h.pool; status = h.status }))
          ]
        ]

    next_coroutines-honest :
        (s : ExecutionStep (Dict V)) (body : Option (InputArguments V))
        → (steps : List (ExecutionStep (Dict V)))
        → All
            (λ c. is_success c ≡ true → W)
            (next_coroutines services pipeline has_webhook s body steps)
    next_coroutines-honest s body [] = tt
    next_coroutines-honest s body (c ∷ steps) =
        elim (next_step_body services pipeline has_webhook s body c)
          as (λ o.
            All (λ c. is_success c ≡ true → W)
              (elim o [
                | none ↦ []
                | some next ↦
                    step_execution_with_logging c next
                    ∷ next_coroutines services pipeline has_webhook s body steps
              ])) [ none ↦ tt | some next ↦ ((λ e. cc), next_coroutines-honest s body steps) ]

    start_next_steps-IsHonest :
        (s : ExecutionStep (Dict V)) (e : Execution (Dict V) (InputArguments V))
        → IsHonest W e
        → IsHonest W (start_next_steps services pipeline has_webhook s e)
    unfolding start_next_steps
    start_next_steps-IsHonest s e h =
        elim (Option-cases (next_body services pipeline has_webhook s)) [
          | inl none_ ↦ rw (start_next_steps, none_) h
          | inr (body, next) ↦
              rw (start_next_steps, next)
                (spawn-IsHonest W _ e
                  (next_coroutines-honest s body (filter_by (is_child_of s.step_id) e.steps)) h)
        ]

    process_message-IsHonest :
        (id : ℕ) (status : Status) (result : Option (Dict V))
        (e : Execution (Dict V) (InputArguments V))
        → (is_completed (process_message services pipeline has_webhook id status result e).steps
              ≡ true
            → W)
        → IsHonest W e
        → IsHonest W (process_message services pipeline has_webhook id status result e)
    unfolding process_message
    process_message-IsHonest id status result e w h = elim (Option-cases (find_step id e.steps)) [
      | inl none_ ↦ rw (process_message, none_) h
      | inr (received, found) ↦
          let w' : is_completed (update_step id status result e.steps) ≡ true → W =
            λ c. w (rw (process_message, found) c) in
          rw (process_message, found)
            (record {
              pool = All-append _ e.pool _ h.pool (
                reason (is_fail status) (is_completed (update_step id status result e.steps)) _ _
                    w',
                tt,
              );
              status = h.status;
            })
    ]
      where
        reason :
            (b c : Bool) (steps : List (ExecutionStep (Dict V))) (s : ExecutionStep (Dict V))
            → (c ≡ true → W)
            → is_success (
                if b
                then finish steps true
                else if c
                then finish steps false
                else process_next_steps s)
              ≡ true
            → W
        reason true c steps s w e = absurd (ground (arith, e))
        reason false true steps s w e = w refl
        reason false false steps s w e = absurd (ground (arith, e))

    run_coroutine-IsHonest :
        (c : Coroutine (Dict V) (InputArguments V)) (answers : Answers)
        (e : Execution (Dict V) (InputArguments V))
        → (is_success c ≡ true → W)
        → (is_completed (run_coroutine services pipeline has_webhook c answers e).steps ≡ true → W)
        → IsHonest W e
        → IsHonest W (run_coroutine services pipeline has_webhook c answers e)
    unfolding run_coroutine start_step
    run_coroutine-IsHonest (start steps) answers e g w h = start_task-IsHonest steps answers e h
    run_coroutine-IsHonest (step_execution_with_logging s body) answers e g w h = record {
      pool = All-append _ e.pool _ h.pool ((λ c. cc), tt);
      status = h.status;
    }
    run_coroutine-IsHonest (step_execution s body) answers e g w h =
        execute_step-IsHonest s body answers e w h
    run_coroutine-IsHonest (process_next_steps s) answers e g w h = start_next_steps-IsHonest s e h
    run_coroutine-IsHonest (finish steps has_failed) answers e g w h =
        finish_task-IsHonest steps has_failed answers e g h

    pub happen-IsHonest :
        (event : Event (Dict V)) (e : Execution (Dict V) (InputArguments V))
        → (is_completed (happen services pipeline has_webhook event e).steps ≡ true → W)
        → IsHonest W e
        → IsHonest W (happen services pipeline has_webhook event e)
    unfolding happen
    happen-IsHonest (resume n answers) e w h = elim (Option-cases (pop_at n e.pool)) [
      | inl none_ ↦ rw (happen, none_) h
      | inr ((c, rest), taken) ↦
          let taken_apart =
            All-pop_at (λ c. is_success c ≡ true → W) n e.pool c rest taken h.pool in
          rw (happen, taken)
            (run_coroutine-IsHonest c answers (record e { pool = rest }) taken_apart.0
              (λ d. w (rw (happen, taken) d)) (record { pool = taken_apart.1; status = h.status }))
    ]
    happen-IsHonest (receive n status result) e w h = elim (Option-cases (pop_at n e.sent)) [
      | inl none_ ↦ rw (happen, none_) h
      | inr ((message, rest), taken) ↦
          rw (happen, taken)
            (process_message-IsHonest message.key status result (record e { sent = rest })
              (λ d. w (rw (happen, taken) d)) (record { pool = h.pool; status = h.status }))
    ]
