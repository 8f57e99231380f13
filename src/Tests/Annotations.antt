-- ===== src/Tests/Annotations.antt =====
-- Three revisions of a file, and what is read from them.
use badgerdoc.Base.{
  ℕ, ◌≡◌, refl, none, some, List, [], ◌∷◌, true, false, if◌then◌else◌, contains, ok, number_key,
  option_key,
}
use badgerdoc.Annotations.Types.{Text, latest, Revision}
use badgerdoc.Annotations.Accumulate.{PagesInfo, accumulate_pages_info, numbers, hashes}
use badgerdoc.Annotations.Accumulate.Laws.{
  IsClassified, accumulate_pages_info-IsClassified, IsHashed, accumulate_pages_info-IsHashed,
}
use badgerdoc.Annotations.Pages.{find_latest_revision_pages, find_all_revisions_pages, for_each}
use badgerdoc.Annotations.Pages.Latest.{entry_of, entry_after, find_latest_revision_pages-entry_of}
use badgerdoc.Annotations.Pages.Agree.{newest, find_latest_revision_pages-IsAgreeing}

abbrev revision : ℕ → ℕ → List (ℕ × Text) → List ℕ → List ℕ → Revision
revision number user pages validated failed = record {
  revision = number ∷ [];
  file_id = 7;
  job_id = 1;
  user = some user;
  pipeline = none;
  date = number;
  pages = pages;
  validated = validated;
  failed_validation_pages = failed;
  tenant = [];
  task_id = some 3;
  categories = [];
}

-- User 1 annotates pages 1 and 2, user 2 validates the first and rejects the second, and user 1 annotates
-- the second again.
abbrev first : Revision
first = revision 1 1 ((1, 11 ∷ []) ∷ (2, 12 ∷ []) ∷ []) [] []

abbrev later : List Revision
later = revision 2 2 [] (1 ∷ []) (2 ∷ []) ∷ revision 3 1 ((2, 13 ∷ []) ∷ []) [] [] ∷ []

abbrev history : List Revision
history = first ∷ later

history_info :
    accumulate_pages_info (1 ∷ 2 ∷ 3 ∷ []) history none [] false true
    ≡ ok (record {
      validated = 1 ∷ [];
      failed = [];
      annotated = numbers (2 ∷ []);
      not_processed = 3 ∷ [];
      categories = none;
      required_revision = none;
    })
unfolding accumulate_pages_info
history_info = refl

-- At the second revision page 2 has its first hash, and is failed.
second_info :
    accumulate_pages_info [] history (some (2 ∷ [])) [] true false
    ≡ ok (record {
      validated = 1 ∷ [];
      failed = 2 ∷ [];
      annotated = hashes ((1, 11 ∷ []) ∷ (2, 12 ∷ []) ∷ []);
      not_processed = [];
      categories = none;
      required_revision = some (revision 2 2 [] (1 ∷ []) (2 ∷ []));
    })
unfolding accumulate_pages_info
second_info = refl

accumulate_pages_info-IsClassified_example :
    (info : PagesInfo) × (accumulate_pages_info (1 ∷ 2 ∷ 3 ∷ []) history none [] false true
      ≡ ok info)
    × IsClassified (1 ∷ 2 ∷ 3 ∷ []) history info
accumulate_pages_info-IsClassified_example =
    accumulate_pages_info-IsClassified (1 ∷ 2 ∷ 3 ∷ []) history

accumulate_pages_info-IsHashed_example :
    (info : PagesInfo) × (accumulate_pages_info [] history (some latest) (2 ∷ []) true false
      ≡ ok info)
    × IsHashed (some latest) (2 ∷ []) history info
accumulate_pages_info-IsHashed_example = accumulate_pages_info-IsHashed latest (2 ∷ []) first later

find_latest_revision_pages-entry_of_example :
    entry_of 2 (some 1) (find_latest_revision_pages history (1 ∷ 2 ∷ []))
    ≡ (if contains 2 (1 ∷ 2 ∷ []) then for_each (entry_after 2 (some 1)) none history else none)
find_latest_revision_pages-entry_of_example =
    find_latest_revision_pages-entry_of history (1 ∷ 2 ∷ []) 2 (some 1)

find_latest_revision_pages-IsAgreeing_example :
    entry_of 1 (some 2) (find_latest_revision_pages history (1 ∷ 2 ∷ []))
    ≡ newest 1 (some 2) (find_all_revisions_pages history (1 ∷ 2 ∷ []))
find_latest_revision_pages-IsAgreeing_example =
    find_latest_revision_pages-IsAgreeing history (1 ∷ 2 ∷ []) 1 (some 2)
