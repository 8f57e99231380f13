-- ===== src/Annotations/Tables.antt =====
-- The rows of the annotation service's tables, its object storage, and the services and libraries that the
-- saving and the reading of annotations rely on.
use badgerdoc.Base.{ℕ, Bool, Option, List, number_key, Call}
use badgerdoc.Distribution.Types.{TaskStatus}
use badgerdoc.Distribution.Run.{ValidationType}
use badgerdoc.Annotations.Types.{Text, Revision}

-- RevisionLink.
pub record RevisionLink : Type 0 where
  pub revision : Option Text
  pub job_id : ℕ
  pub file_id : ℕ
  pub label : Text

-- A row of DocumentLinks.
pub record DocumentLink : Type 0 where
  pub original_revision : Text
  pub original_file_id : ℕ
  pub original_job_id : ℕ
  pub similar_revision : Option Text
  pub similar_file_id : ℕ
  pub similar_job_id : ℕ
  pub label : Text

-- What the save relies on outside the repository: the JSON and UTF-8 encoders, SHA-1, the constraints of
-- the database on a new revision with its links, whether the bucket can be reached, the prefix of buckets
-- from the environment, the assets service, and SQL's IN on a column that may be NULL. `Content` is the size
-- and the objects of a page. Nothing is assumed of them.
pub record Services : Type 1 where
  pub Content : Type 0
  pub empty_content : Content
  pub dumps_page : ℕ → Content → Text
  pub loads_page : Text → Call (ℕ × Content)
  pub dumps_numbers : List ℕ → Text
  pub encode : Text → List ℕ
  pub sha1 : List ℕ → Text
  pub commit_allowed : List Revision → Revision → List DocumentLink → Bool
  pub connects : Text → Bool
  pub s3_prefix : Text
  pub get_file_path_and_bucket : ℕ → Text → Call (Text × Text)
  pub in_ : List (Option ℕ) → Option ℕ → Bool

-- A path of the object storage, annotation/{job_id}/{file_id}/{name}.json in a bucket.
pub record ObjectPath : Type 0 where
  pub bucket : Text
  pub job_id : ℕ
  pub file_id : ℕ
  pub name : Text

-- manifest.json of a file in a job; the fields that are read from the new revision are that revision.
pub record Manifest : Type 0 where
  pub doc : Revision
  pub pages : List (ℕ × Text)
  pub validated : List ℕ
  pub failed_validation_pages : List ℕ

-- The columns of ManualAnnotationTask and Job that the handlers read.
pub record TaskRow : Type 0 where
  pub id : ℕ
  pub file_id : ℕ
  pub pages : List ℕ
  pub job_id : ℕ
  pub user_id : ℕ
  pub is_validation : Bool
  pub status : TaskStatus

pub record JobRow : Type 0 where
  pub job_id : ℕ
  pub tenant : Text
  pub validation_type : ValidationType

-- The tables, the object storage, the newest object first, and the messages to the search service. The
-- rows are in the order of their dates, which the database gives at the commit.
pub record Store : Type 0 where
  pub docs : List Revision
  pub links : List DocumentLink
  pub objects : List (ObjectPath × Text)
  pub manifests : List Manifest
  pub tasks : List TaskRow
  pub jobs : List JobRow
  pub messages : List (ℕ × ℕ)

-- Who saves, and for what: the arguments that every revision of one request has.
pub record Author : Type 0 where
  pub user_id : Option ℕ
  pub pipeline_id : Option ℕ
  pub job_id : ℕ
  pub file_id : ℕ
  pub tenant : Text
  pub task_id : Option ℕ
  pub date : ℕ
