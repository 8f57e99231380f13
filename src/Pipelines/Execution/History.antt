-- ===== src/Pipelines/Execution/History.antt =====
-- A task is done only if all its steps have been done, whatever the models answer.
use badgerdoc.Base.{
  ℕ, ◌≡◌, refl, sym, ap, ◌∙◌, subst, Bool, true, List, [], ◌∷◌, ◌++◌, append_assoc, append-nil,
}
use badgerdoc.Pipelines.Types.{Pipeline, done}
use badgerdoc.Pipelines.Arguments.{Dict, InputArguments, Services}
use badgerdoc.Pipelines.Tables.{Execution, is_completed, is_done}
use badgerdoc.Pipelines.Execution.{Event, happen, run_events, initialize_execution}
use badgerdoc.Pipelines.Execution.Honest.{IsHonest, happen-IsHonest}

module _ {V : Type 0} (services : Services V) (pipeline : Pipeline (Dict V))
    (has_webhook : Bool) where
  run_events-append :
      (before after : List (Event (Dict V))) (e : Execution (Dict V) (InputArguments V))
      → run_events services pipeline has_webhook (before ++ after) e
        ≡ run_events services pipeline has_webhook after
            (run_events services pipeline has_webhook before e)
  unfolding run_events
  run_events-append [] after e = refl
  run_events-append (event ∷ before) after e =
      run_events-append before after (happen services pipeline has_webhook event e)

  -- All steps were done after the first of these events.
  abbrev pub WasCompleted : List (Event (Dict V)) → Execution (Dict V) (InputArguments V) → Type 0
  WasCompleted events e =
      (before : List (Event (Dict V))) × (after : List (Event (Dict V))) × (before ++ after
        ≡ events)
      × (is_completed (run_events services pipeline has_webhook before e).steps ≡ true)

  events-IsHonest :
      (events before after : List (Event (Dict V))) (e : Execution (Dict V) (InputArguments V))
      → before ++ after ≡ events
      → IsHonest (WasCompleted events e) (run_events services pipeline has_webhook before e)
      → IsHonest (WasCompleted events e) (run_events services pipeline has_webhook events e)
  unfolding run_events
  events-IsHonest events before [] e all h =
      subst (λ es. IsHonest (WasCompleted events e) (run_events services pipeline has_webhook es e))
        (sym (append-nil before) ∙ all) h
  events-IsHonest events before (event ∷ after) e all h =
      let now = run_events-append before (event ∷ []) e in
      let all' = append_assoc before (event ∷ []) after ∙ all in
      events-IsHonest events (before ++ event ∷ []) after e all' (
        subst (IsHonest (WasCompleted events e)) (sym now) (
          happen-IsHonest services pipeline has_webhook (WasCompleted events e) event
            (run_events services pipeline has_webhook before e)
            (λ c. (
              before ++ event ∷ [],
              after,
              all',
              subst (λ (r : Execution (Dict V) (InputArguments V)). is_completed r.steps ≡ true)
                  (sym now) c,
            ))
            h))

  -- In any order in which coroutines run and models answer, with whatever status, and whatever the other services
  -- answer: if the task is done, then all its steps were done after some of these events.
  pub run_events-WasCompleted :
      (next_id : ℕ) (arg : Dict V) (events : List (Event (Dict V)))
      → (run_events services pipeline has_webhook events
          (initialize_execution next_id pipeline arg)).status
        ≡ done
      → WasCompleted events (initialize_execution next_id pipeline arg)
  unfolding run_events initialize_execution
  run_events-WasCompleted next_id arg events finished =
      (events-IsHonest events [] events (initialize_execution next_id pipeline arg) refl
          (record { pool = ((λ c. cc), tt); status = λ c. cc })).status
        (ap is_done finished)
