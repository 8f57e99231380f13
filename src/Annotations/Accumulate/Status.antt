-- ===== src/Annotations/Accumulate/Status.antt =====
-- latest_status against a description of it: the last revision that mentions a page decides.
use badgerdoc.Base.{
  ℕ, ◌≡◌, refl, Bool, false, Option, none, some, List, [], ◌∷◌, if◌then◌else◌, contains, arith,
  number_key, lookup, put, has_key, IsDict, lookup-put, put-IsDict, Bool-cases, inl, inr,
}
use badgerdoc.Annotations.Types.{Text, Revision}
use badgerdoc.Annotations.Accumulate.{
  PageStatus, same_status, keys, put_status, Seen, visit_revision, is_stop, visit_revisions,
  pages_with,
}

-- What one revision says of a page: that it failed weighs more than that it is validated, and this more
-- than that it is annotated.
abbrev pub status_in : ℕ → Revision → Option PageStatus
status_in page r =
    if contains page r.failed_validation_pages
    then some PageStatus.failed
    else if contains page r.validated
    then some PageStatus.validated
    else if has_key page r.pages
    then some PageStatus.annotated
    else none

-- What the last of the revisions that mention the page says of it.
abbrev pub last_status : ℕ → List Revision → Option PageStatus
last_status page [] = none
last_status page (r ∷ rs) = elim (last_status page rs) [ some s ↦ some s | none ↦ status_in page r ]

-- The revisions up to the one where to stop, this one included.
abbrev pub until : Option Text → List Revision → List Revision
until stop [] = []
until stop (r ∷ rs) = let rest = until stop rs in if is_stop stop r then r ∷ [] else r ∷ rest

abbrev pub is_status : PageStatus → Option PageStatus → Bool
is_status s none = false
is_status s (some t) = same_status t s

pub contains-keys : {V : Type 0} (p : ℕ) (d : List (ℕ × V)) → contains p (keys d) ≡ has_key p d
contains-keys p [] = refl
contains-keys p ((k, v) ∷ d) = ground (arith, contains-keys p d)

lookup-put_status :
    (s : PageStatus) (p : ℕ) (ns : List ℕ) (d : List (ℕ × PageStatus))
    → lookup p (put_status s ns d) ≡ (if contains p ns then some s else lookup p d)
lookup-put_status s p [] d = refl
lookup-put_status s p (n ∷ ns) d =
    ground (arith, lookup-put_status s p ns (put n s d), lookup-put n p s d)

put_status-IsDict :
    (s : PageStatus) (ns : List ℕ) (d : List (ℕ × PageStatus))
    → IsDict d
    → IsDict (put_status s ns d)
put_status-IsDict s [] d h = h
put_status-IsDict s (n ∷ ns) d h = put_status-IsDict s ns (put n s d) (put-IsDict n s d h)

lookup-visit_revision :
    (p : ℕ) (seen : Seen) (r : Revision)
    → lookup p (visit_revision seen r).1
      ≡ elim (status_in p r) [ some s ↦ some s | none ↦ lookup p seen.1 ]
lookup-visit_revision p (all, latest) r =
    let annotated = put_status PageStatus.annotated (keys r.pages) latest in
    let validated = put_status PageStatus.validated r.validated annotated in
    ground (
      arith,
      lookup-put_status PageStatus.failed p r.failed_validation_pages validated,
      lookup-put_status PageStatus.validated p r.validated annotated,
      lookup-put_status PageStatus.annotated p (keys r.pages) latest,
      contains-keys p r.pages,
    )

visit_revision-IsDict :
    (seen : Seen) (r : Revision) → IsDict seen.1 → IsDict (visit_revision seen r).1
visit_revision-IsDict (all, latest) r h =
    put_status-IsDict _ r.failed_validation_pages _
      (put_status-IsDict _ r.validated _ (put_status-IsDict _ (keys r.pages) latest h))

pub lookup-visit_revisions :
    (stop : Option Text) (p : ℕ) (seen : Seen) (rs : List Revision)
    → lookup p (visit_revisions stop seen rs).0.1
      ≡ elim (last_status p (until stop rs)) [ some s ↦ some s | none ↦ lookup p seen.1 ]
unfolding visit_revisions
lookup-visit_revisions stop p seen [] = refl
lookup-visit_revisions stop p seen (r ∷ rs) = ground (
  arith,
  lookup-visit_revision p seen r,
  lookup-visit_revisions stop p (visit_revision seen r) rs,
)

pub visit_revisions-IsDict :
    (stop : Option Text) (seen : Seen) (rs : List Revision)
    → IsDict seen.1
    → IsDict (visit_revisions stop seen rs).0.1
unfolding visit_revisions
visit_revisions-IsDict stop seen [] h = h
visit_revisions-IsDict stop seen (r ∷ rs) h =
    let here = visit_revision-IsDict seen r h in
    elim (Bool-cases (is_stop stop r)) [
      | inl e ↦ rw e here
      | inr e ↦ rw e (visit_revisions-IsDict stop (visit_revision seen r) rs here)
    ]

has_key-pages_with :
    (s : PageStatus) (p : ℕ) (d : List (ℕ × PageStatus))
    → has_key p d ≡ false
    → contains p (pages_with s d) ≡ false
has_key-pages_with s p [] h = refl
has_key-pages_with s p ((k, t) ∷ d) h = ground (arith, has_key-pages_with s p d)

pub contains-pages_with :
    (s : PageStatus) (p : ℕ) (d : List (ℕ × PageStatus))
    → IsDict d
    → contains p (pages_with s d) ≡ is_status s (lookup p d)
contains-pages_with s p [] h = refl
contains-pages_with s p ((k, t) ∷ d) h =
    let absent = has_key-pages_with s k d h.0 in
    ground (arith, contains-pages_with s p d h.1, absent)
