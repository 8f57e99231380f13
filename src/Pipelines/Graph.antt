-- ===== src/Pipelines/Graph.antt =====
-- pipelines/pipelines/execution.py: PipelineStep and Pipeline, and the rows that initialize_execution of
-- pipelines/pipelines/db/service.py makes of them.
use badgerdoc.Base.{
  ℕ, suc, Option, none, some, List, [], ◌∷◌, ◌++◌, if◌then◌else◌, contains, lookup, put, update,
  number_key, is_some,
}
use badgerdoc.Annotations.Types.{Text}
use badgerdoc.Pipelines.Types.{
  PipelineStep, step, PipelineSteps, nil, cons, Pipeline, pend, ExecutionStep,
}

-- A dict with default: the list of a step's ids, which is empty for a missing key.
abbrev pub IdMap : Type 0
IdMap = List (ℕ × List ℕ)

-- `_ = id_map[id]`
abbrev pub touch : ℕ → IdMap → IdMap
touch id ids = elim (lookup id ids) [ some children ↦ ids | none ↦ put id [] ids ]

abbrev pub children_of : ℕ → IdMap → List ℕ
children_of id ids = elim (lookup id ids) [ some children ↦ children | none ↦ [] ]

-- `id_map[id].append(child)`
abbrev pub append_child : ℕ → ℕ → IdMap → IdMap
append_child id child ids = put id (children_of id ids ++ child ∷ []) ids

module _ {D : Type 0} where
  abbrev pub id_of : PipelineStep D → ℕ
  id_of (step id model model_url categories args steps) = id

  abbrev pub model_url_of : PipelineStep D → Option Text
  model_url_of (step id model model_url categories args steps) = model_url

  unfoldable mutual
    pub steps_identifiers : PipelineStep D → IdMap → IdMap
    steps_identifiers (step id model model_url categories args steps) id_map =
        children_identifiers id steps (touch id id_map)

    -- `for step in self.steps`
    pub children_identifiers : ℕ → PipelineSteps D → IdMap → IdMap
    children_identifiers id nil id_map = id_map
    children_identifiers id (cons s steps) id_map =
        children_identifiers id steps (steps_identifiers s (append_child id (id_of s) id_map))

  unfoldable mutual
    pub steps_names : PipelineStep D → List Text
    steps_names (step id model model_url categories args steps) = model ∷ children_names steps

    pub children_names : PipelineSteps D → List Text
    children_names nil = []
    children_names (cons s steps) = steps_names s ++ children_names steps

  -- `if step.id not in steps_dict.keys(): steps_dict[step.id] = step`
  abbrev pub put_new : PipelineStep D → List (ℕ × PipelineStep D) → List (ℕ × PipelineStep D)
  put_new s steps_dict =
      if is_some (lookup (id_of s) steps_dict) then steps_dict else put (id_of s) s steps_dict

  -- The descendants of a step by their ids.
  unfoldable mutual
    pub get_step_dict : PipelineStep D → List (ℕ × PipelineStep D)
    get_step_dict (step id model model_url categories args steps) = put_steps steps []

    pub put_steps : PipelineSteps D → List (ℕ × PipelineStep D) → List (ℕ × PipelineStep D)
    put_steps nil steps_dict = steps_dict
    put_steps (cons s steps) steps_dict =
        put_steps steps (update (put_new s steps_dict) (get_step_dict s))

  -- `{k: v for step in self.steps for k, v in step.steps_identifiers().items()}`
  pub merge_ids : PipelineSteps D → IdMap → IdMap
  unfolding steps_identifiers
  merge_ids nil ids = ids
  merge_ids (cons s steps) ids = merge_ids steps (update ids (steps_identifiers s []))

  unfoldable pub get_ids : Pipeline D → IdMap
  unfolding merge_ids
  get_ids pipeline = merge_ids pipeline.steps []

  unfoldable pub get_model_ids : Pipeline D → List Text
  unfolding steps_names
  get_model_ids pipeline = children_names pipeline.steps

  pub merge_dicts : PipelineSteps D → List (ℕ × PipelineStep D) → List (ℕ × PipelineStep D)
  unfolding get_step_dict
  merge_dicts nil steps_dict = steps_dict
  merge_dicts (cons s steps) steps_dict = merge_dicts steps (update steps_dict (get_step_dict s))

  pub put_upmost : PipelineSteps D → List (ℕ × PipelineStep D) → List (ℕ × PipelineStep D)
  unfolding get_step_dict
  put_upmost nil steps_dict = steps_dict
  put_upmost (cons s steps) steps_dict = put_upmost steps (put_new s steps_dict)

  unfoldable pub get_steps_dict : Pipeline D → List (ℕ × PipelineStep D)
  unfolding merge_dicts put_upmost
  get_steps_dict pipeline = put_upmost pipeline.steps (merge_dicts pipeline.steps [])

  abbrev pub upmost_ids : PipelineSteps D → List ℕ
  upmost_ids nil = []
  upmost_ids (cons s steps) = id_of s ∷ upmost_ids steps

-- The first step that has this one among its steps.
abbrev pub get_step_parent : ℕ → IdMap → Option ℕ
get_step_parent step_id [] = none
get_step_parent step_id ((parent, child) ∷ ids) =
    if contains step_id child then some parent else get_step_parent step_id ids

module _ {D : Type 0} (arg : D) (ids : IdMap) (upmost : List ℕ) where
  -- `for id_, name in zip(ids, names)`; the database numbers the rows from `id` on.
  abbrev pub execution_steps : (id : ℕ) → IdMap → List Text → List (ExecutionStep D)
  execution_steps id [] names = []
  execution_steps id (item ∷ items) [] = []
  execution_steps id ((id_, children) ∷ items) (name ∷ names) =
      record {
        id = id;
        name = name;
        step_id = id_;
        parent_step = get_step_parent id_ ids;
        init_args = if contains id_ upmost then some arg else none;
        status = pend;
        result = none;
      }
      ∷ execution_steps (suc id) items names

-- The rows that initialize_execution adds.
unfoldable pub initialize_steps :
    {D : Type 0} → (next_id : ℕ) → Pipeline D → (arg : D) → List (ExecutionStep D)
unfolding get_ids get_model_ids
initialize_steps next_id pipeline arg =
    execution_steps arg (get_ids pipeline) (upmost_ids pipeline.steps) next_id (get_ids pipeline)
      (get_model_ids pipeline)
