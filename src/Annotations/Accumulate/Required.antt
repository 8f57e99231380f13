-- ===== src/Annotations/Accumulate/Required.antt =====
-- The revision that accumulate_pages_info returns with the pages, against a description of it.
use badgerdoc.Base.{
  ◌≡◌, refl, ap, sym, ◌∙◌, ◌||◌, Option, none, some, List, [], ◌∷◌, if◌then◌else◌, arith, ok,
  raises, index_error, Bool-cases, Option-cases, inl, inr,
}
use badgerdoc.Annotations.Types.{Text, same_text, latest, Revision}
use badgerdoc.Annotations.Accumulate.{
  Seen, visit_revision, visit_revisions, last_revision, find_required,
}
use badgerdoc.Annotations.Accumulate.Status.{until}

-- The last revision that is read.
abbrev pub last_of : List Revision → Option Revision
last_of [] = none
last_of (r ∷ rs) = elim (last_of rs) [ none ↦ some r | some last ↦ some last ]

-- The revision that is asked for: the one where the reading stops, or for "latest" the last one.
abbrev pub asked : Option Text → List Revision → Option Revision
asked none rs = none
asked (some stop) rs = elim (last_of (until (some stop) rs)) [
  | none ↦ none
  | some r ↦ if same_text r.revision stop || same_text stop latest then some r else none
]

visit_revisions-found :
    (stop : Text) (seen : Seen) (rs : List Revision)
    → (visit_revisions (some stop) seen rs).1 ≡ elim (last_of (until (some stop) rs)) [
      | none ↦ none
      | some r ↦ if same_text r.revision stop then some r else none
    ]
unfolding visit_revisions
visit_revisions-found stop seen [] = refl
visit_revisions-found stop seen (r ∷ rs) =
    ground (arith, visit_revisions-found stop (visit_revision seen r) rs)

visit_revisions-last :
    (stop : Text) (seen : Seen) (rs : List Revision)
    → last_of (until (some stop) rs)
      ≡ elim (visit_revisions (some stop) seen rs).1 [ none ↦ last_of rs | some r ↦ some r ]
unfolding visit_revisions
visit_revisions-last stop seen [] = refl
visit_revisions-last stop seen (r ∷ rs) =
    ground (arith, visit_revisions-last stop (visit_revision seen r) rs)

last_revision-last_of :
    (rs : List Revision)
    → last_revision rs ≡ elim (last_of rs) [ none ↦ raises index_error | some r ↦ ok r ]
last_revision-last_of [] = refl
last_revision-last_of (r ∷ []) = refl
last_revision-last_of (r ∷ s ∷ rs) = ground (arith, last_revision-last_of (s ∷ rs))

last_of-some :
    (r : Revision) (rs : List Revision) → (last : Revision) × (last_of (r ∷ rs) ≡ some last)
last_of-some r rs = elim (Option-cases (last_of rs)) [
  | inl nothing ↦ (r, rw nothing refl)
  | inr (last, e) ↦ (last, rw e refl)
]

last_of-until :
    (stop : Text) (r : Revision) (rs : List Revision)
    → (read : Revision) × (last_of (until (some stop) (r ∷ rs)) ≡ some read)
last_of-until stop r rs = elim (Bool-cases (same_text r.revision stop)) [
  | inl e ↦ (r, rw e refl)
  | inr e ↦ let (read, is_read) = last_of-some r (until (some stop) rs) in (read, rw e is_read)
]

-- `r` is the answer if it is where the reading stops, or if the last one is asked for.
abbrev answer : Text → Revision → Option Revision
answer stop r = if same_text r.revision stop || same_text stop latest then some r else none

find_required-answer :
    (stop : Text) (rs : List Revision) (found : Option Revision) (read end : Revision)
    → found ≡ (if same_text read.revision stop then some read else none)
    → some read ≡ elim found [ none ↦ some end | some r ↦ some r ]
    → last_revision rs ≡ ok end
    → find_required (some stop) rs found ≡ ok (answer stop read)
find_required-answer stop rs none read end h g l =
    elim (Bool-cases (same_text read.revision stop)) [
      | inl e ↦ absurd (ground (arith, h, e))
      | inr e ↦ elim (Bool-cases (same_text stop latest)) [
        | inl asks ↦ rw (asks, l, e) (ap ok (sym g))
        | inr other ↦ rw (other, e) refl
      ]
    ]
find_required-answer stop rs (some x) read end h g l =
    elim (Bool-cases (same_text read.revision stop)) [
      | inl e ↦ rw e (ap ok (sym g))
      | inr e ↦ absurd (ground (arith, h, e))
    ]

-- The same, for the last revision as the result of a search.
find_required-search :
    (stop : Text) (rs : List Revision) (found sought last : Option Revision) (read end : Revision)
    → sought ≡ some read
    → last ≡ some end
    → found
      ≡ elim sought [ none ↦ none | some r ↦ if same_text r.revision stop then some r else none ]
    → sought ≡ elim found [ none ↦ last | some r ↦ some r ]
    → last_revision rs ≡ ok end
    → find_required (some stop) rs found ≡ ok (elim sought [ none ↦ none | some r ↦ answer stop r ])
find_required-search stop rs none sought last read end is_read is_last h g l =
    rw is_read
      (find_required-answer stop rs none read end (rw is_read at h) (sym is_read ∙ g ∙ is_last) l)
find_required-search stop rs (some x) sought last read end is_read is_last h g l =
    rw is_read
      (find_required-answer stop rs (some x) read end (rw is_read at h) (sym is_read ∙ g) l)

-- With a revision at all, it does not raise and gives the one that is asked for.
pub find_required-asked :
    (stop : Text) (seen : Seen) (r : Revision) (rs : List Revision)
    → find_required (some stop) (r ∷ rs) (visit_revisions (some stop) seen (r ∷ rs)).1
      ≡ ok (asked (some stop) (r ∷ rs))
find_required-asked stop seen r rs =
    let all = r ∷ rs in
    let (end, ended) = last_of-some r rs in
    let (read, is_read) = last_of-until stop r rs in
    find_required-search stop all (visit_revisions (some stop) seen all).1
      (last_of (until (some stop) all)) (last_of all) read end is_read ended
      (visit_revisions-found stop seen all) (visit_revisions-last stop seen all)
      (rw (last_revision-last_of all) (rw ended refl))
