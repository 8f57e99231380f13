-- ===== src/Tests/Finish.antt =====
-- A validation task that is finished: page 1 is validated, page 2 failed, page 3 edited.
use badgerdoc.Base.{
  ℕ, ◌≡◌, refl, true, false, some, none, List, [], ◌∷◌, if◌then◌else◌, ok, raises, http_exception,
}
use badgerdoc.Distribution.Types.{in_progress}
use badgerdoc.Annotations.Types.{Revision}
use badgerdoc.Annotations.Accumulate.{accumulate_pages_info}
use badgerdoc.Annotations.Tables.{TaskRow}
use badgerdoc.Tasks.Finish.{Judged, get_task_revisions, validate_user_actions, check_finish}
use badgerdoc.Tasks.Finish.Laws.{is_settled, IsJudged, check_finish-IsJudged}

abbrev validation_task : TaskRow
validation_task = record {
  id = 3;
  file_id = 7;
  pages = 1 ∷ 2 ∷ 3 ∷ [];
  job_id = 5;
  user_id = 4;
  is_validation = true;
  status = in_progress;
}

abbrev verdict : Revision
verdict = record {
  revision = 1 ∷ [];
  file_id = 7;
  job_id = 5;
  user = some 4;
  pipeline = none;
  date = 20;
  pages = (3, 1 ∷ []) ∷ (9, 2 ∷ []) ∷ [];
  validated = 1 ∷ [];
  failed_validation_pages = 2 ∷ [];
  tenant = 9 ∷ [];
  task_id = some 3;
  categories = [];
}

check_settled :
    check_finish (verdict ∷ []) validation_task (9 ∷ []) true true
    ≡ ok (record { validated = 1 ∷ []; failed = 2 ∷ []; annotated = 3 ∷ [] })
unfolding check_finish get_task_revisions accumulate_pages_info validate_user_actions
check_settled = refl

check_without_annotator :
    check_finish (verdict ∷ []) validation_task (9 ∷ []) false true ≡ raises (http_exception 400)
unfolding check_finish get_task_revisions accumulate_pages_info validate_user_actions
check_without_annotator = refl

check_finish-IsJudged_example :
    (judged : Judged) × (not_processed : List ℕ) × (check_finish
        (verdict ∷ [])
        validation_task
        (9 ∷ [])
        true
        true
      ≡ (if is_settled judged.failed judged.annotated not_processed true true
          then ok judged
          else raises (http_exception 400)))
    × IsJudged validation_task (9 ∷ []) (verdict ∷ []) judged not_processed
check_finish-IsJudged_example =
    check_finish-IsJudged (verdict ∷ []) validation_task (9 ∷ []) true true refl refl
