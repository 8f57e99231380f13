-- ===== src/Distribution/Partial/Filter.antt =====
-- Users without load and files without pages are left out of the stage of partial files, and the
-- loads and pages of the others are the loads and pages of all.
use badgerdoc.Base.{
  ℕ, ◌<◌, ◌≡◌, refl, inl, inr, pos, ◌==ℤ◌, List, [], ◌∷◌, ◌==◌, length, count, All, arith,
  Bool-cases, not, filter_by,
}
use badgerdoc.Distribution.Types.{FileItem, User, item_pages, total_pages, remaining, IsConsistent}
use badgerdoc.Distribution.Loads.{IsNonneg, IsPositive, loads, load_of}

abbrev pub with_pages : List FileItem → List FileItem
with_pages = filter_by (λ f. not (f.pages_number == 0))

-- Files without pages are left out, and offer none.
pub record IsOffered (files : List FileItem) : Type 0 where
  pub consistent : All IsConsistent (with_pages files)
  pub positive : All (λ f. 0 < f.pages_number) (with_pages files)
  pub same_total : total_pages (with_pages files) ≡ total_pages files
  pub same_pages : (id page : ℕ) → remaining id page (with_pages files) ≡ remaining id page files

count-nil : (page : ℕ) (xs : List ℕ) → length xs ≡ 0 → count page xs ≡ 0
count-nil page [] h = refl
count-nil page (x ∷ xs) h = absurd (omega arith)

pub with_pages-IsOffered : (files : List FileItem) → All IsConsistent files → IsOffered files
with_pages-IsOffered [] c = record {
  consistent = tt;
  positive = tt;
  same_total = refl;
  same_pages = λ id page. refl;
}
with_pages-IsOffered (f ∷ files) c =
    let k = with_pages-IsOffered files c.1 in
    elim (Bool-cases (f.pages_number == 0)) [
      | inl none ↦ record {
        consistent = rw none k.consistent;
        positive = rw none k.positive;
        same_total = ground (arith, none, k.same_total);
        same_pages = λ id page.
            ground (arith, none, k.same_pages id page, count-nil page (item_pages f), c.0);
      }
      | inr some ↦ record {
        consistent = rw some (c.0, k.consistent);
        positive = rw some (ground (arith, some), k.positive);
        same_total = ground (arith, some, k.same_total);
        same_pages = λ id page. ground (arith, some, k.same_pages id page);
      }
    ]

module _ {F : Type 0} where
  abbrev pub with_load : List (User F) → List (User F)
  with_load = filter_by (λ u. not (u.pages_number ==ℤ pos 0))

  -- Users without load are left out, and the loads stay the same.
  pub record IsKept (annotators : List (User F)) : Type 0 where
    pub positive : IsPositive (with_load annotators)
    pub same_loads : loads (with_load annotators) ≡ loads annotators
    pub same_load : (id : ℕ) → load_of id (with_load annotators) ≡ load_of id annotators

  pub with_load-IsKept : (annotators : List (User F)) → IsNonneg annotators → IsKept annotators
  with_load-IsKept [] h = record { positive = tt; same_loads = refl; same_load = λ id. refl }
  with_load-IsKept (a ∷ rest) h =
      let k = with_load-IsKept rest h.1 in
      elim (Bool-cases (a.pages_number ==ℤ pos 0)) [
        | inl spent ↦ record {
          positive = rw spent k.positive;
          same_loads = ground (arith, spent, k.same_loads);
          same_load = λ id. ground (arith, spent, k.same_load id);
        }
        | inr load ↦ record {
          positive = rw load (ground (arith, load, h.0), k.positive);
          same_loads = ground (arith, load, k.same_loads);
          same_load = λ id. ground (arith, load, k.same_load id);
        }
      ]
