-- ===== src/Pipelines/Types.antt =====
-- pipelines/pipelines/execution.py and schemas.py: pipelines, the rows of their executions, and what the
-- execution relies on. The ids of steps are strings that are only compared; they stand as numbers.
use badgerdoc.Base.{ℕ, Option, List}
use badgerdoc.Annotations.Types.{Text}

-- `D` is the type of JSON dicts. No steps and an empty list of steps are the same to the code.
mutual
  pub data PipelineStep (D : Type 0) : Type 0 where
    step :
        (id : ℕ)
        → (model : Text) → (model_url : Option Text) → (categories : Option (List Text))
        → (args : Option D) → (steps : PipelineSteps D) → PipelineStep D

  pub data PipelineSteps (D : Type 0) : Type 0 where
    nil : PipelineSteps D
    cons : PipelineStep D → PipelineSteps D → PipelineSteps D

pub data PipelineType : Type 0 where
  preprocessing : PipelineType
  inference : PipelineType

pub record Pipeline (D : Type 0) : Type 0 where
  pub type_ : PipelineType
  pub steps : PipelineSteps D

pub data Status : Type 0 where
  pend : Status
  run : Status
  done : Status
  fail : Status

-- A row of ExecutionStep; all rows are of one task.
pub record ExecutionStep (D : Type 0) : Type 0 where
  pub id : ℕ
  pub name : Text
  pub step_id : ℕ
  pub parent_step : Option ℕ
  pub init_args : Option D
  pub status : Status
  pub result : Option D

pub data PreprocessingStatus : Type 0 where
  in_progress : PreprocessingStatus
  preprocessed : PreprocessingStatus
  failed : PreprocessingStatus
  uploaded : PreprocessingStatus

pub data CheckError : Type 0 where
  no_status : CheckError
  is_failed : CheckError
  timed_out : CheckError
