-- ===== src/Tests/Pipelines.antt =====
-- Executions of small pipelines: one that ends, and two that never do.
use badgerdoc.Base.{
  ◌++◌, ◌==◌, if◌then◌else◌, ℕ, ◌+◌, length, ◌≡◌, refl, true, Option, none, some, List, [], ◌∷◌,
  map,
}
use badgerdoc.Pipelines.Types.{
  PipelineStep, step, PipelineSteps, nil, cons, Pipeline, inference, Status, pend, run, done,
  ExecutionStep, preprocessed,
}
use badgerdoc.Annotations.Types.{Text, same_text}
use badgerdoc.Pipelines.Arguments.{Dict, InputArguments, Services}
use badgerdoc.Pipelines.Graph.{get_steps_dict}
use badgerdoc.Pipelines.Execution.History.{WasCompleted, run_events-WasCompleted}
use badgerdoc.Pipelines.Tables.{Execution, Answers}
use badgerdoc.Pipelines.Execution.{Event, resume, receive, run_events, initialize_execution}

-- The dicts of these tests have strings as values.
abbrev get : Text → Dict Text → Option Text
get key [] = none
get key ((k, v) ∷ d) = let rest = get key d in if same_text k key then some v else rest

abbrev get_or_empty : Text → Dict Text → Text
get_or_empty key d = elim (get key d) [ none ↦ [] | some v ↦ v ]

abbrev item : Text → Option Text → Dict Text
item key none = []
item key (some v) = (key, v) ∷ []

-- Keys of one letter: i(nput path), f(ile), b(ucket), o(utput path), d(estination).
abbrev services : Services Text
services = record {
  read_fields = λ d. some (record {
    input_path = get (105 ∷ []) d;
    input = none;
    file = get_or_empty (102 ∷ []) d;
    bucket = get_or_empty (98 ∷ []) d;
    pages = none;
    output_path = get_or_empty (111 ∷ []) d;
    output_bucket = get (100 ∷ []) d;
    is_init = true;
  });
  dict = λ a.
      item (105 ∷ []) a.fields.input_path
      ++ (102 ∷ [], a.fields.file)
        ∷ (98 ∷ [], a.fields.bucket)
        ∷ (111 ∷ [], a.fields.output_path)
        ∷ item (100 ∷ []) a.fields.output_bucket;
  dict_value = λ d. [];
  is_space = λ c. c == 32;
  urljoin = λ base stem. base ++ stem;
  str = λ n. (48 + n) ∷ [];
  error_result = λ error. (101 ∷ [], []) ∷ [];
  max_retries = 3;
}

-- "f/7/7", "b" and the path of the results.
abbrev arguments : Text → Dict Text
arguments output_path =
    (102 ∷ [], 102 ∷ 47 ∷ 55 ∷ 47 ∷ 55 ∷ []) ∷ (98 ∷ [], 98 ∷ []) ∷ (111 ∷ [], output_path) ∷ []

-- "r/1/2"
abbrev arg : Dict Text
arg = arguments (114 ∷ 47 ∷ 49 ∷ 47 ∷ 50 ∷ [])

abbrev node : ℕ → PipelineSteps (Dict Text) → PipelineStep (Dict Text)
node id steps = step id (id ∷ []) (some (id ∷ id ∷ [])) none none steps

-- Step 1 has the steps 2 and 3.
abbrev pipeline : Pipeline (Dict Text)
pipeline = record {
  type_ = inference;
  steps = cons (node 1 (cons (node 2 nil) (cons (node 3 nil) nil))) nil;
}

abbrev answers : Answers
answers = record { get_file_status = λ n. some preprocessed; manage_result_for_annotator = true }

abbrev go_on : Event (Dict Text)
go_on = resume 0 answers

abbrev succeed : Event (Dict Text)
succeed = receive 0 done (some ((111 ∷ [], []) ∷ []))

abbrev outcome : Execution (Dict Text) (InputArguments Text) → List Status × Status × List Status
outcome e = (map (λ (s : ExecutionStep (Dict Text)). s.status) e.steps, e.status, e.told)

abbrev left : Execution (Dict Text) (InputArguments Text) → ℕ
left e = length e.pool + length e.sent

abbrev all_events : List (Event (Dict Text))
all_events =
    go_on ∷ go_on ∷ go_on ∷ succeed ∷ go_on ∷ go_on ∷ go_on ∷ go_on ∷ go_on ∷ succeed ∷ go_on
    ∷ succeed ∷ go_on ∷ []

pipeline_ends :
    outcome (run_events services pipeline true all_events (initialize_execution 1 pipeline arg))
    ≡ (done ∷ done ∷ done ∷ [], done, run ∷ done ∷ [])
unfolding run_events initialize_execution get_steps_dict
pipeline_ends = refl

-- Step 1 has no model_url: it is done without starting step 2, which stays pending.
abbrev no_url : Pipeline (Dict Text)
no_url = record {
  type_ = inference;
  steps = cons (step 1 [] none none none (cons (node 2 nil) nil)) nil;
}

no_url_hangs :
    (outcome (
        run_events services no_url true
          (go_on ∷ go_on ∷ go_on ∷ [])
          (initialize_execution 1 no_url arg))
      ≡ (done ∷ pend ∷ [], run, run ∷ []))
    × (left (
          run_events services no_url true
            (go_on ∷ go_on ∷ go_on ∷ [])
            (initialize_execution 1 no_url arg))
        ≡ 0)
unfolding run_events initialize_execution get_steps_dict
no_url_hangs = (refl, refl)

-- Of two upmost steps only the first is started.
abbrev two_roots : Pipeline (Dict Text)
two_roots = record { type_ = inference; steps = cons (node 1 nil) (cons (node 2 nil) nil) }

abbrev one_round : List (Event (Dict Text))
one_round = go_on ∷ go_on ∷ go_on ∷ succeed ∷ go_on ∷ []

two_roots_hang :
    (outcome (run_events services two_roots true one_round (initialize_execution 1 two_roots arg))
      ≡ (done ∷ pend ∷ [], run, run ∷ []))
    × (left (run_events services two_roots true one_round (initialize_execution 1 two_roots arg))
        ≡ 0)
unfolding run_events initialize_execution get_steps_dict
two_roots_hang = (refl, refl)

-- "r/1/2/3/4" has four slashes, and the path of the first step one more: prepare_for_init raises behind the
-- change of the status.
too_deep_hangs :
    (outcome (
        run_events services pipeline true (go_on ∷ []) (
          initialize_execution 1 pipeline
            (arguments (114 ∷ 47 ∷ 49 ∷ 47 ∷ 50 ∷ 47 ∷ 51 ∷ 47 ∷ 52 ∷ []))))
      ≡ (pend ∷ pend ∷ pend ∷ [], run, run ∷ []))
    × (left (
          run_events services pipeline true (go_on ∷ []) (
            initialize_execution 1 pipeline
              (arguments (114 ∷ 47 ∷ 49 ∷ 47 ∷ 50 ∷ 47 ∷ 51 ∷ 47 ∷ 52 ∷ []))))
        ≡ 0)
unfolding run_events initialize_execution get_steps_dict
too_deep_hangs = (refl, refl)

run_events-WasCompleted_example :
    WasCompleted services pipeline true all_events (initialize_execution 1 pipeline arg)
unfolding run_events initialize_execution get_steps_dict
run_events-WasCompleted_example =
    run_events-WasCompleted services pipeline true 1 arg all_events refl
