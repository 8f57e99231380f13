-- ===== src/Distribution/Run.antt =====
-- annotation/annotation/distribution/main.py: distribute_tasks, which puts the stages together, and
-- choose_validators_users.
pub mod Annotation
pub mod Validation
pub mod Cross
use badgerdoc.Base.{ℕ, Bool, true, false, Call, ok, ◌>>=◌, List, ◌++◌, if◌then◌else◌}
use badgerdoc.Distribution.Types.{FileItem, User, Settings, Task}
use badgerdoc.Distribution.Annotated.{AnnotatedFilesPages}
use badgerdoc.Distribution.Load.{FloatOps, calculate_users_load}
use badgerdoc.Distribution.Whole.{distribute_whole_files}
use badgerdoc.Distribution.Partial.{distribute_annotation_partial_files}
use badgerdoc.Distribution.Validation.{distribute_validation_partial_files}

-- ValidationSchema
pub data ValidationType : Type 0 where
  cross hierarchical validation_only extensive_coverage : ValidationType

unfoldable pub choose_validators_users {ℓ} : {A : Type ℓ} → ValidationType → A → A → A
choose_validators_users cross annotators validators = annotators
choose_validators_users hierarchical annotators validators = validators
choose_validators_users validation_only annotators validators = validators
choose_validators_users extensive_coverage annotators validators = validators

module _ (ops : FloatOps) where
  open ops use {Float}

  -- `fuel` is that of calculate_users_load, `to_set` that of the validation.
  unfoldable pub distribute_tasks :
      (fuel : ℕ) (to_set : List ℕ → List ℕ)
      → AnnotatedFilesPages
      → List FileItem
      → List (User Float)
      → Settings
      → Call (List Task)
  distribute_tasks fuel to_set annotated files users settings = do
    loaded ← calculate_users_load ops fuel files users 1
    (tasks, users', files') ← distribute_whole_files annotated settings files loaded
    partial_tasks ←
        if settings.is_validation
        then ok (distribute_validation_partial_files to_set annotated files' users' settings)
        else distribute_annotation_partial_files settings files' users'
    ok (tasks ++ partial_tasks)
