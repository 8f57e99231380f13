-- ===== src/Tests/Saving.antt =====
-- An annotator's request and a pipeline's, with a JSON, a hash and a database that are simple and concrete.
use badgerdoc.Base.{
  ℕ, ◌≡◌, refl, arith, Bool, true, false, Option, none, some, List, [], ◌∷◌, any_by, same_option,
  Call, ok, raises, key_error, field_constraint_error, http_exception,
}
use badgerdoc.Annotations.Handlers.{
  get_annotations_up_to_given_revision, get_annotation_for_given_revision,
}
use badgerdoc.Annotations.Handlers.Laws.{
  IsAnswered, get_annotations_up_to_given_revision-IsAnswered,
}
use badgerdoc.Annotations.Read.{construct_particular_rev_response}
use badgerdoc.Actions.{Holds, ◌>>=◌}
use badgerdoc.Distribution.Types.{TaskStatus, pending, ready, in_progress}
use badgerdoc.Distribution.Run.{cross}
use badgerdoc.Annotations.Types.{Text, latest, Revision}
use badgerdoc.Annotations.Accumulate.{accumulate_pages_info}
use badgerdoc.Annotations.Tables.{JobRow, Services, Store, TaskRow, Author}
use badgerdoc.Annotations.Save.{
  Page, DocForSave, construct_annotated_doc, save_revision, create_manifest_json,
  upload_pages_to_minio, get_pages_sha,
}
use badgerdoc.Annotations.Save.Laws.{IsConstructed, IsFailed, construct_annotated_doc-IsConstructed}
use badgerdoc.Annotations.Request.{DocRequest, check_null_fields, is_accepted}
use badgerdoc.Annotations.Post.{post_annotation_by_user, post_annotation_by_pipeline}
use badgerdoc.Annotations.Post.Laws.{IsPosted, IsRefused, post_annotation_by_user-IsPosted}
use badgerdoc.Annotations.Post.Pipeline.{IsPiped, IsDropped, post_annotation_by_pipeline-IsPiped}
use badgerdoc.Annotations.Read.Laws.{IsFaithful, AreLoaded, Never, upload_pages_to_minio-load_page}

abbrev load : Text → Call (ℕ × ℕ)
load (n ∷ c ∷ []) = ok (n, c)
load other = raises key_error

-- NULL is in no list.
abbrev sql_in : List (Option ℕ) → Option ℕ → Bool
sql_in users none = false
sql_in users (some user) = any_by (λ u. same_option u (some user)) users

abbrev concrete : Services
concrete = record {
  Content = ℕ;
  empty_content = 0;
  dumps_page = λ n c. n ∷ c ∷ [];
  loads_page = load;
  dumps_numbers = λ ns. ns;
  encode = λ t. t;
  sha1 = λ bytes. 1 ∷ bytes;
  commit_allowed = λ docs doc links. true;
  connects = λ bucket. true;
  s3_prefix = [];
  get_file_path_and_bucket = λ file_id tenant. ok ([], []);
  in_ = sql_in;
}

concrete-IsFaithful : IsFaithful concrete
concrete-IsFaithful = record { round_trip = λ n c. refl; not_empty = λ bytes. refl }

abbrev page : ℕ → ℕ → Page concrete
page n c = record { page_num = n; content = c }

abbrev two_pages : List (Page concrete)
two_pages = page 1 8 ∷ page 2 9 ∷ []

abbrev request : DocRequest concrete
request = record {
  base_revision = none;
  user = some 4;
  pipeline = none;
  pages = some two_pages;
  validated = none;
  failed_validation_pages = none;
  similar_revisions = none;
  categories = none;
}

abbrev pipeline_request : DocRequest concrete
pipeline_request = record {
  base_revision = none;
  user = none;
  pipeline = some 6;
  pages = some two_pages;
  validated = none;
  failed_validation_pages = none;
  similar_revisions = none;
  categories = none;
}

request-accepted : is_accepted concrete request ≡ true
unfolding is_accepted
request-accepted = refl

abbrev task : TaskStatus → TaskRow
task status = record {
  id = 3;
  file_id = 7;
  pages = 1 ∷ 2 ∷ 3 ∷ [];
  job_id = 5;
  user_id = 4;
  is_validation = false;
  status = status;
}

abbrev store : TaskStatus → Store
store status = record {
  docs = [];
  links = [];
  objects = [];
  manifests = [];
  tasks = task status ∷ [];
  jobs = record { job_id = 5; tenant = 9 ∷ []; validation_type = cross } ∷ [];
  messages = [];
}

abbrev saved : Revision
saved = record {
  revision = 1 ∷ 1 ∷ 8 ∷ 2 ∷ 9 ∷ [];
  file_id = 7;
  job_id = 5;
  user = some 4;
  pipeline = none;
  date = 20;
  pages = (1, 1 ∷ 1 ∷ 8 ∷ []) ∷ (2, 1 ∷ 2 ∷ 9 ∷ []) ∷ [];
  validated = [];
  failed_validation_pages = [];
  tenant = 9 ∷ [];
  task_id = some 3;
  categories = [];
}

post_returns : (post_annotation_by_user concrete request 3 (9 ∷ []) 20 (store ready)).0 ≡ ok saved
unfolding post_annotation_by_user construct_annotated_doc save_revision create_manifest_json
    accumulate_pages_info upload_pages_to_minio ◌>>=◌
post_returns = refl

post_pending :
    (post_annotation_by_user concrete request 3 (9 ∷ []) 20 (store pending)).0
    ≡ raises field_constraint_error
unfolding post_annotation_by_user ◌>>=◌
post_pending = refl

post_other_tenant :
    (post_annotation_by_user concrete request 3 (8 ∷ []) 20 (store ready)).0
    ≡ raises (http_exception 404)
unfolding post_annotation_by_user ◌>>=◌
post_other_tenant = refl

post_annotation_by_user-IsPosted_example :
    Holds
      (IsPosted concrete (store ready) (check_null_fields concrete request) 3 (9 ∷ []) 20)
      (IsRefused concrete (store ready) (check_null_fields concrete request) 3 (9 ∷ []))
      (post_annotation_by_user concrete request 3 (9 ∷ []) 20 (store ready))
post_annotation_by_user-IsPosted_example =
    post_annotation_by_user-IsPosted concrete request 3 (9 ∷ []) 20 (store ready)

post_annotation_by_pipeline-IsPiped_example :
    Holds
      (IsPiped concrete (store ready) (check_null_fields concrete pipeline_request) 5 7 (9 ∷ []) 20)
      (IsDropped concrete (store ready) (check_null_fields concrete pipeline_request))
      (post_annotation_by_pipeline concrete pipeline_request 5 7 (9 ∷ []) 20 (store ready))
post_annotation_by_pipeline-IsPiped_example =
    post_annotation_by_pipeline-IsPiped concrete pipeline_request 5 7 (9 ∷ []) 20 (store ready)

abbrev author : Author
author = record {
  user_id = some 4;
  pipeline_id = none;
  job_id = 5;
  file_id = 7;
  tenant = 9 ∷ [];
  task_id = some 3;
  date = 21;
}

abbrev later_doc : DocForSave concrete
later_doc = record {
  base_revision = none;
  user = some 4;
  pipeline = none;
  pages = page 3 5 ∷ [];
  validated = [];
  failed_validation_pages = [];
  similar_revisions = [];
  categories = [];
}

-- A merge of page 3 with the revision of the first two.
construct_annotated_doc-IsConstructed_example :
    Holds
      (λ result after.
        IsConstructed concrete author later_doc (some saved) false (store ready) after result)
      (IsFailed concrete author later_doc (some saved) false (store ready))
      (construct_annotated_doc concrete author later_doc (some saved) false (store ready))
construct_annotated_doc-IsConstructed_example =
    construct_annotated_doc-IsConstructed concrete author later_doc (some saved) false (store ready)

upload_pages_to_minio-load_page_example :
    Holds
      (λ _. AreLoaded concrete (9 ∷ []) saved two_pages)
      (Never concrete (9 ∷ []) saved)
      (upload_pages_to_minio concrete two_pages
        (get_pages_sha concrete two_pages none [] []).0
        saved
        (9 ∷ [])
        (store ready))
upload_pages_to_minio-load_page_example =
    upload_pages_to_minio-load_page concrete (9 ∷ []) saved two_pages none [] [] (store ready)
      concrete-IsFaithful ((refl, λ e. ground (arith, e), tt), (tt, tt))

abbrev after_save : Store
after_save = record (store in_progress) {
  docs = saved ∷ [];
  objects =
      (record { bucket = 9 ∷ []; job_id = 5; file_id = 7; name = 1 ∷ 1 ∷ 8 ∷ [] }, 1 ∷ 8 ∷ [])
      ∷ (record { bucket = 9 ∷ []; job_id = 5; file_id = 7; name = 1 ∷ 2 ∷ 9 ∷ [] }, 2 ∷ 9 ∷ [])
      ∷ [];
}

abbrev job : JobRow
job = record { job_id = 5; tenant = 9 ∷ []; validation_type = cross }

get_annotations_up_to_given_revision-IsAnswered_example :
    IsAnswered concrete after_save latest
      (2 ∷ [])
      (saved ∷ [])
      (get_annotations_up_to_given_revision concrete after_save 5 7 latest (2 ∷ []) (9 ∷ []) none)
get_annotations_up_to_given_revision-IsAnswered_example =
    get_annotations_up_to_given_revision-IsAnswered concrete after_save 5 7 latest (2 ∷ []) (9 ∷ [])
      none job refl

-- Both pages of the saved revision are read again.
read_back :
    get_annotation_for_given_revision concrete after_save 5 7 latest (9 ∷ [])
    ≡ ok (record {
      revision = some (1 ∷ 1 ∷ 8 ∷ 2 ∷ 9 ∷ []);
      user = some 4;
      pipeline = none;
      date = some 20;
      pages = (1, 8) ∷ (2, 9) ∷ [];
      validated = [];
      failed_validation_pages = [];
      categories = some [];
      similar_revisions = none;
    })
unfolding get_annotation_for_given_revision construct_particular_rev_response
read_back = refl
