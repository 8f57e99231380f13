-- ===== src/Annotations/Post/Rules.antt =====
-- The steps that the two handlers share, and what holds after each of them.
use badgerdoc.Base.{
  ℕ, ◌≡◌, refl, sym, Bool, true, false, not, ◌&&◌, ◌||◌, Option, none, some, ◌∷◌, if◌then◌else◌,
  Call, raises, Exception, index_error, stop_iteration, zero_division, key_error, attribute_error,
  out_of_fuel, value_error, field_constraint_error, service_error, http_exception, number_key,
}
use badgerdoc.Actions.{Action, return, Holds, returned, raised, ◌>>=◌, >>=-Holds, weaken-Holds}
use badgerdoc.Annotations.Types.{Revision}
use badgerdoc.Annotations.Tables.{Services, Store, Author}
use badgerdoc.Annotations.Save.{DocForSave, construct_annotated_doc}
use badgerdoc.Annotations.Save.Laws.{IsConstructed, IsFailed, construct_annotated_doc-IsConstructed}
use badgerdoc.Annotations.Post.{
  check_if_kafka_message_is_needed, save_and_tell, found_or, on_value_error, catch_value_error,
}

pub unrefused : (a b : Bool) → (not a && b) ≡ false → a || not b ≡ true
unrefused true b h = refl
unrefused false true h = sym h
unrefused false false h = refl

pub found_or-Holds :
    {A S : Type 0} {Q : A → S → Type 0} {E : S → Type 0} (status_code : ℕ) (o : Option A) (s : S)
    → ((a : A) → o ≡ some a → Q a s)
    → E s
    → Holds Q E (found_or status_code o s)
found_or-Holds status_code none s h k = raised k
found_or-Holds status_code (some a) s h k = returned (h a refl)

caught :
    {A S : Type 0} {Q : A → S → Type 0} {E : S → Type 0} (status_code : ℕ) (e : Exception) (s : S)
    → E s
    → Holds Q E (catch_value_error status_code (raises e), s)
caught status_code index_error s h = raised h
caught status_code stop_iteration s h = raised h
caught status_code zero_division s h = raised h
caught status_code key_error s h = raised h
caught status_code attribute_error s h = raised h
caught status_code out_of_fuel s h = raised h
caught status_code value_error s h = raised h
caught status_code field_constraint_error s h = raised h
caught status_code service_error s h = raised h
caught status_code (http_exception n) s h = raised h

caught-Holds :
    {A S : Type 0} {Q : A → S → Type 0} {E : S → Type 0} (status_code : ℕ) (out : Call A × S)
    → Holds Q E out
    → Holds Q E (catch_value_error status_code out.0, out.1)
caught-Holds status_code _ (returned h) = returned h
caught-Holds status_code _ (raised h) = caught status_code _ _ h

pub on_value_error-Holds :
    {A S : Type 0} {Q : A → S → Type 0} {E : S → Type 0} (status_code : ℕ) (action : Action S A)
    (s : S)
    → Holds Q E (action s)
    → Holds Q E (on_value_error status_code action s)
on_value_error-Holds status_code action s h = caught-Holds status_code (action s) h

module _ (services : Services) where
  pub save_and_tell-Holds :
      {Q : Revision → Store → Type 0} {E : Store → Type 0} (author : Author)
      (doc : DocForSave services) (latest_doc : Option Revision) (is_latest : Bool)
      → (s : Store)
      → ((r : Revision) (is_new : Bool) (left : Store)
          → IsConstructed services author doc latest_doc is_latest s left (r, is_new)
          → Q r (record left {
            messages =
                (if is_new then (author.job_id, author.file_id) ∷ left.messages else left.messages);
          }))
      → ((left : Store) → IsFailed services author doc latest_doc is_latest s left → E left)
      → Holds Q E (save_and_tell services author doc latest_doc is_latest s)
  save_and_tell-Holds {Q = Q} {E = E} author doc latest_doc is_latest s f g = >>=-Holds _ _ _ (
      on_value_error-Holds 404 (construct_annotated_doc services author doc latest_doc is_latest) s
        (weaken-Holds (λ result left h. told result.0 result.1 left (f result.0 result.1 left h))
          (λ left h. g left h)
          (construct_annotated_doc-IsConstructed services author doc latest_doc is_latest s)))
    where
      told :
          (r : Revision) (is_new : Bool) (left : Store)
          → Q r (record left {
            messages =
                (if is_new then (author.job_id, author.file_id) ∷ left.messages else left.messages);
          })
          → Holds Q E (
              (check_if_kafka_message_is_needed is_new author.job_id author.file_id >>= λ _.
              return r)
                left)
      told r true left h = >>=-Holds _ _ _ (returned (returned h))
      told r false left h = >>=-Holds _ _ _ (returned (returned h))
