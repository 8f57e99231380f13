-- ===== src/Distribution/Tasks/Moves.antt =====
-- What giving pages of the files to one user does, as a relation between the states before and
-- after. Both stages of the distribution of whole files have it, and it composes.
use badgerdoc.Base.{
  ℕ, ◌+◌, ◌≡◌, refl, ap, ◌∙◌, pos, ◌+ℤ◌, int_laws, ℤ, List, [], ◌++◌, if◌then◌else◌, ◌==◌, All,
  All-append, arith,
}
use badgerdoc.Distribution.Types.{
  FileItem, User, Task, total_pages, remaining, IsDistinct, IsConsistent, covered, covered-append,
  workload, workload-append, IsSized,
}

-- `number` pages went from the files into tasks of the user, and from the load of the user.
pub record IsMoved {F : Type 0} (number : ℕ) (user : User F) (files : List FileItem)
    (tasks : List Task) (user' : User F) (files' : List FileItem) : Type 0 where
  pub moved :
      (id page : ℕ) → covered id page tasks + remaining id page files' ≡ remaining id page files
  pub given : (id : ℕ) → workload id tasks ≡ (if user.user_id == id then number else 0)
  pub sized : All IsSized tasks
  pub same_user : user'.user_id ≡ user.user_id
  pub load : user'.pages_number +ℤ pos number ≡ user.pages_number
  pub fewer : total_pages files' + number ≡ total_pages files
  pub distinct : IsDistinct files'
  pub consistent : All IsConsistent files'

pub IsMoved-none :
    {F : Type 0} (user : User F) (files : List FileItem)
    → IsDistinct files
    → All IsConsistent files
    → IsMoved 0 user files [] user files
IsMoved-none user files d c = record {
  moved = λ id page. omega arith;
  given = λ id. ground arith;
  sized = tt;
  same_user = refl;
  load = omega int_laws;
  fewer = omega arith;
  distinct = d;
  consistent = c;
}

load_trans : (m n : ℕ) {x y : ℤ} (z : ℤ) → y +ℤ pos m ≡ x → z +ℤ pos n ≡ y → z +ℤ pos (m + n) ≡ x
load_trans m n z h k = rw (← h, ← k) (omega int_laws)

pub IsMoved-trans :
    {F : Type 0} (m n : ℕ) (user user' user'' : User F) (files files' files'' : List FileItem)
    (tasks more : List Task)
    → IsMoved m user files tasks user' files'
    → IsMoved n user' files' more user'' files''
    → IsMoved (m + n) user files (tasks ++ more) user'' files''
IsMoved-trans m n user user' user'' files files' files'' tasks more a b = record {
  moved =
      λ id page. omega (arith, covered-append id page tasks more, a.moved id page, b.moved id page);
  given = λ id. ground (
    arith,
    workload-append id tasks more,
    a.given id,
    b.given id,
    ap (λ (x : ℕ). x == id) a.same_user,
  );
  sized = All-append IsSized tasks more a.sized b.sized;
  same_user = b.same_user ∙ a.same_user;
  load = load_trans m n user''.pages_number a.load b.load;
  fewer = omega (arith, a.fewer, b.fewer);
  distinct = b.distinct;
  consistent = b.consistent;
}
