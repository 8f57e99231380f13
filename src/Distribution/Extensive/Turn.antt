-- ===== src/Distribution/Extensive/Turn.antt =====
-- What a turn of the while loop does: the pages that it gives to the first annotator, and what is left.
use badgerdoc.Base.{
  ℕ, zero, suc, ◌+◌, ◌-◌, ◌≤◌, ◌<◌, ◌≡◌, refl, ◌∙◌, ap, subst, true, not, ◌&&◌, ◌||◌, List, [], ◌∷◌,
  ◌++◌, ◌==◌, ==_iff, leb, count, contains, contains-append, contains-count, length, take,
  length-take, All, All-append, number_key, lookup, put, lookup-put, Bool-cases, inl, inr, arith,
}
use badgerdoc.Distribution.Types.{
  max_pages, Settings, new_task, covered, covered-append, covered_by, covered_by-append, IsSized,
}
use badgerdoc.Distribution.Extensive.{
  sorted_difference, Seen, or_empty, seen_pages, add_seen, Annotator, Spread, keep_able, can_take,
  give_pages,
}
use badgerdoc.Distribution.Extensive.Sets.{
  once, count-sorted_difference, length-sorted_difference, count-take,
}

added :
    (g f : ℕ) (d : List (ℕ × List ℕ)) (pages : List ℕ) (p : ℕ)
    → contains p (or_empty (lookup f (put g (or_empty (lookup g d) ++ pages) d)))
      ≡ contains p (or_empty (lookup f d)) || (g == f && contains p pages)
added g f d pages p =
    rw (lookup-put g f (or_empty (lookup g d) ++ pages) d) (elim (Bool-cases (g == f)) [
      | inl e ↦ rw e (rw ((==_iff g f).0 e) (contains-append p (or_empty (lookup f d)) pages))
      | inr e ↦ rw e (ground arith)
    ])

seen_pages-add_seen :
    (u f v g : ℕ) (pages : List ℕ) (seen : Seen) (p : ℕ)
    → contains p (seen_pages u f (add_seen v g pages seen))
      ≡ contains p (seen_pages u f seen) || (v == u && g == f && contains p pages)
seen_pages-add_seen u f v g pages seen p =
    rw (lookup-put v u (put g (seen_pages v g seen ++ pages) (or_empty (lookup v seen))) seen)
      (elim (Bool-cases (v == u)) [
        | inl e ↦ rw e (rw ((==_iff v u).0 e) (added g f (or_empty (lookup u seen)) pages p))
        | inr e ↦ rw e (ground arith)
      ])

abbrev pub IsAble : Annotator → Type 0
IsAble a = 0 < a.load

-- What the dict of the seen pages says of the tasks: no user has a page twice.
pub record IsKnown {F : Type 0} (s : Spread F) : Type 0 where
  pub seen :
      (user id page : ℕ)
      → covered_by user id page s.tasks ≡ once (contains page (seen_pages user id s.seen))
  pub sized : All IsSized s.tasks
  pub able : All IsAble s.annotators

-- What a turn does to the pages of a file and to the loop's variables. It gives away pages or drops an
-- annotator.
pub record IsTurned {F : Type 0} (file_id : ℕ) (pages : List ℕ) (s : Spread F) (left : List ℕ)
    (s' : Spread F) : Type 0 where
  pub known : IsKnown s'
  pub moved :
      (id page : ℕ)
      → covered id page s'.tasks + once (file_id == id && contains page left)
        ≡ covered id page s.tasks + once (file_id == id && contains page pages)
  pub fewer : length left + length s'.annotators < length pages + length s.annotators

keep_able-IsAble :
    (user load : ℕ) (rest : List Annotator)
    → All IsAble rest
    → All IsAble (keep_able user load rest)
keep_able-IsAble user zero rest h = h
keep_able-IsAble user (suc n) rest h = (omega arith, h)

keep_able-length :
    (user load : ℕ) (rest : List Annotator) → length (keep_able user load rest) ≤ suc (length rest)
keep_able-length user zero rest = omega arith
keep_able-length user (suc n) rest = omega arith

-- The first pages that the user has not seen.
record IsGiven (pages seen given : List ℕ) : Type 0 where
  new : (p : ℕ) → count p given ≤ once (contains p pages && not (contains p seen))
  nonempty : 0 < length given
  bounded : length given ≤ max_pages

can_take-bounds :
    (n load : ℕ) → 0 < n → 0 < load → (0 < can_take n load) × (can_take n load ≤ max_pages)
can_take-bounds n load h g = elim (Bool-cases (leb max_pages load)) [
  | inl e ↦ rw e (omega arith, omega arith)
  | inr e ↦ rw e (omega arith, ground (arith, e))
]

take-IsGiven :
    (pages seen not_seen : List ℕ) (n : ℕ)
    → 0 < n
    → n ≤ max_pages
    → 0 < length not_seen
    → ((p : ℕ) → count p not_seen ≡ once (contains p pages && not (contains p seen)))
    → IsGiven pages seen (take n not_seen)
take-IsGiven pages seen not_seen n h g some_left distinct = record {
  new = λ p. omega (arith, count-take p n not_seen, distinct p);
  nonempty = omega (arith, length-take n not_seen);
  bounded = omega (arith, length-take n not_seen);
}

-- A page that is given is one of the pages.
given_member :
    (pages seen given : List ℕ)
    → IsGiven pages seen given
    → (p : ℕ) × (contains p pages ≡ true) × (contains p given ≡ true)
given_member pages seen [] h = absurd (omega (arith, h.nonempty))
given_member pages seen (g ∷ given) h =
    (g, ground (arith, h.new g, (==_iff g g).1 refl), ground (arith, (==_iff g g).1 refl))

module _ {F : Type 0} (settings : Settings) (file_id : ℕ) where
  seen-new :
      (pages given : List ℕ) (user : ℕ) (s : Spread F)
      → IsGiven pages (seen_pages user file_id s.seen) given
      → IsKnown s
      → (u id page : ℕ)
      → covered_by u id page (s.tasks ++ new_task settings file_id user given ∷ [])
        ≡ once (contains page (seen_pages u id (add_seen user file_id given s.seen)))
  seen-new pages given user s h k u id page =
      covered_by-append u id page s.tasks (new_task settings file_id user given ∷ [])
      ∙ (rw (seen_pages-add_seen u id user file_id given s.seen page)
          (elim (Bool-cases (user == u)) [
            | inl e ↦ elim (Bool-cases (file_id == id)) [
              | inl f ↦
                  let fresh : count page given
                      ≤ once (contains page pages && not (contains page (seen_pages u id s.seen))) =
                    rw (← (==_iff user u).0 e) (rw (← (==_iff file_id id).0 f) (h.new page)) in
                  rw e (rw f (ground (arith, k.seen u id page, fresh, contains-count page given)))
              | inr f ↦ rw e (rw f (ground (arith, k.seen u id page)))
            ]
            | inr e ↦ rw e (ground (arith, k.seen u id page))
          ]))

  moved-new :
      (pages given : List ℕ) (user : ℕ) (s : Spread F)
      → IsGiven pages (seen_pages user file_id s.seen) given
      → (id page : ℕ)
      → covered id page (s.tasks ++ new_task settings file_id user given ∷ [])
          + once (file_id == id && contains page (sorted_difference pages given))
        ≡ covered id page s.tasks + once (file_id == id && contains page pages)
  moved-new pages given user s h id page =
      let after = covered-append id page s.tasks (new_task settings file_id user given ∷ []) in
      elim (Bool-cases (file_id == id)) [
        | inl f ↦ rw after (
            rw f (
              ground (
                arith,
                count-sorted_difference page pages given,
                contains-count page (sorted_difference pages given),
                contains-count page given,
                h.new page,
              )))
        | inr f ↦ rw after (rw f (ground arith))
      ]

  pub give_pages-IsTurned :
      (pages not_seen : List ℕ) (a : Annotator) (rest : List Annotator) (s : Spread F)
      → s.annotators ≡ a ∷ rest
      → 0 < length pages
      → ((p : ℕ)
          → count p not_seen
            ≡ once (contains p pages && not (contains p (seen_pages a.user_id file_id s.seen))))
      → IsKnown s
      → IsTurned file_id pages s
          (give_pages settings file_id pages not_seen a rest s).0
          (give_pages settings file_id pages not_seen a rest s).1
  give_pages-IsTurned pages [] a rest s same nonempty distinct k =
      let (able, others) = subst (All IsAble) same k.able in
      record {
        known = record { seen = k.seen; sized = k.sized; able = others };
        moved = λ id page. refl;
        fewer = omega (arith, ap length same);
      }
  give_pages-IsTurned pages (q ∷ qs) a rest s same nonempty distinct k =
      let (able, others) = subst (All IsAble) same k.able in
      let (some_room, room) = can_take-bounds (length pages) a.load nonempty able in
      let seen = seen_pages a.user_id file_id s.seen in
      let h =
        take-IsGiven pages seen (q ∷ qs) (can_take (length pages) a.load) some_room room
          (omega arith) distinct in
      let given = take (can_take (length pages) a.load) (q ∷ qs) in
      let (p, inside, handed) = given_member pages seen given h in
      record {
        known = record {
          seen = seen-new pages given a.user_id s h k;
          sized =
              All-append IsSized s.tasks (new_task settings file_id a.user_id given ∷ []) k.sized
                ((h.nonempty, h.bounded), tt);
          able = keep_able-IsAble a.user_id (a.load - length given) rest others;
        };
        moved = moved-new pages given a.user_id s h;
        fewer = omega (
          arith,
          ap length same,
          length-sorted_difference p pages given inside handed,
          keep_able-length a.user_id (a.load - length given) rest,
        );
      }
