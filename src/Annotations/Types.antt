-- ===== src/Annotations/Types.antt =====
-- The data of annotation/annotation/annotations/main.py. A string is the list of its characters' codes;
-- the keys of the JSON dict of a revision's pages are decimal numbers and stand as numbers.
use badgerdoc.Base.{ℕ, Bool, true, false, Option, List, [], ◌∷◌, if◌then◌else◌, ◌==◌}

abbrev pub Text : Type 0
Text = List ℕ

-- `==` on strings, and on lists of numbers.
abbrev pub same_text : Text → Text → Bool
same_text [] [] = true
same_text [] (y ∷ ys) = false
same_text (x ∷ xs) [] = false
same_text (x ∷ xs) (y ∷ ys) = let rest = same_text xs ys in if x == y then rest else false

-- LATEST, "latest".
abbrev pub latest : Text
latest = 108 ∷ 97 ∷ 116 ∷ 101 ∷ 115 ∷ 116 ∷ []

-- The columns of AnnotatedDoc that are read here. A user is None when a pipeline made the revision, or
-- when the user was deleted.
pub record Revision : Type 0 where
  pub revision : Text
  pub file_id : ℕ
  pub job_id : ℕ
  pub user : Option ℕ
  pub pipeline : Option ℕ
  pub date : ℕ
  pub pages : List (ℕ × Text)
  pub validated : List ℕ
  pub failed_validation_pages : List ℕ
  pub tenant : Text
  pub task_id : Option ℕ
  pub categories : List Text
