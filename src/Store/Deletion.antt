-- ===== src/Store/Deletion.antt =====
-- `deleteTask` of packages/store/src/sqlite-store.ts with the cascades of its schema.
use baara_next.Base.{
  List, [], ◌∷◌, ◌++◌, Bool, true, false, not, none, ◌≡◌, ◌≢◌, refl, subst, arith, is_some, find,
  keep, remove, ◌==◌, All, keep-Distinct, find-remove_self, find-remove_ne, Option-cases, inl, inr,
  Bool-cases,
}
use baara_next.Core.Errors.{ok}
use baara_next.Core.Types.{Key, Execution, Task}
use baara_next.Core.Events.{Event}
use baara_next.Store.Schema.{Store, get_task}
use baara_next.Store.Events.{max_seq}
use baara_next.Store.Tasks.{delete_task, still_there}
use baara_next.Store.Soundness.{IsSound, IsNumbered}

-- What is left of a table has what the test asks for.
keep-All {ℓ} :
    {A : Type ℓ} (p : A → Bool) (P : A → Type 0) (xs : List A)
    → ((a : A) → p a ≡ true → P a)
    → All P (keep p xs)
keep-All p P [] f = tt
keep-All p P (x ∷ xs) f = elim (Bool-cases (p x)) [
  | inl left ↦ rw left (f x left, keep-All p P xs f)
  | inr gone ↦ rw gone (keep-All p P xs f)
]

keep-All_and {ℓ} :
    {A : Type ℓ} (p : A → Bool) (P Q : A → Type 0) (xs : List A)
    → ((a : A) → p a ≡ true → P a → Q a)
    → All P xs
    → All Q (keep p xs)
keep-All_and p P Q [] f h = tt
keep-All_and p P Q (x ∷ xs) f h = elim (Bool-cases (p x)) [
  | inl left ↦ rw left (f x left h.0, keep-All_and p P Q xs f h.1)
  | inr gone ↦ rw gone (keep-All_and p P Q xs f h.1)
]

still_there-is_some :
    (xs : List Execution) (id : Key)
    → still_there xs id ≡ true
    → is_some (find (λ e. e.id) id xs) ≡ true
still_there-is_some [] id h = h
still_there-is_some (x ∷ xs) id h = ground (arith, still_there-is_some xs id)

module _ (p : Key → Bool) where
  max_seq-keep :
      (k : Key) (es : List Event)
      → p k ≡ true
      → max_seq k (keep (λ v. p v.execution_id) es) ≡ max_seq k es
  max_seq-keep k [] h = refl
  max_seq-keep k (e ∷ es) h = ground (arith, max_seq-keep k es h)

  keep-append_left :
      (xs : List Event) (e : Event)
      → p e.execution_id ≡ true
      → keep (λ v. p v.execution_id) (xs ++ e ∷ []) ≡ keep (λ v. p v.execution_id) xs ++ e ∷ []
  keep-append_left [] e h = rw h refl
  keep-append_left (x ∷ xs) e h = ground (arith, keep-append_left xs e h)

  keep-append_gone :
      (xs : List Event) (e : Event)
      → p e.execution_id ≡ false
      → keep (λ v. p v.execution_id) (xs ++ e ∷ []) ≡ keep (λ v. p v.execution_id) xs
  keep-append_gone [] e h = rw h refl
  keep-append_gone (x ∷ xs) e h = ground (arith, keep-append_gone xs e h)

  IsNumbered-keep :
      (seen es : List Event)
      → IsNumbered seen es
      → IsNumbered (keep (λ v. p v.execution_id) seen) (keep (λ v. p v.execution_id) es)
  IsNumbered-keep seen [] h = tt
  IsNumbered-keep seen (e ∷ es) h =
      let rest = IsNumbered-keep (seen ++ e ∷ []) es h.1 in
      let left_of = λ (l : List Event). IsNumbered l (keep (λ v. p v.execution_id) es) in
      elim (Bool-cases (p e.execution_id)) [
        | inl left ↦
            let same = max_seq-keep e.execution_id seen left in
            rw left (omega (arith, same, h.0), subst left_of (keep-append_left seen e left) rest)
        | inr gone ↦ rw gone (subst left_of (keep-append_gone seen e gone) rest)
      ]

other_task : (id : Key) (e : Execution) → not (e.task_id == id) ≡ true → e.task_id ≢ id
other_task id e h = ground arith

stays_owned :
    (id : Key) (e : Execution) (tasks : List Task)
    → not (e.task_id == id) ≡ true
    → is_some (find (λ x. x.id) e.task_id tasks) ≡ true
    → is_some (find (λ x. x.id) e.task_id (remove (λ x. x.id) id tasks)) ≡ true
stays_owned id e tasks other h =
    ground (arith, find-remove_ne (λ (x : Task). x.id) e.task_id id tasks (other_task id e other))

-- A task that is deleted is gone with all its executions, and the store that is left is sound.
pub delete_task-IsSound :
    (id : Key) (s t : Store)
    → IsSound s
    → delete_task id s ≡ ok t
    → IsSound t × (get_task id t ≡ none) × All (λ (e : Execution). e.task_id ≢ id) t.executions
unfolding delete_task
delete_task-IsSound id s t v h = elim (Option-cases (get_task id s)) [
  | inl missing ↦ ground arith
  | inr (old, found) ↦
      let left = keep (λ (e : Execution). not (e.task_id == id)) s.executions in
      let e : t ≡ record s {
        tasks = remove (λ x. x.id) id s.tasks;
        executions = left;
        events = keep (λ v. still_there left v.execution_id) s.events;
        input_requests = keep (λ r. still_there left r.execution_id) s.input_requests;
        task_messages = keep (λ m. still_there left m.execution_id) s.task_messages;
      } =
        ground arith in
      rw e (
        record {
          executions_distinct = keep-Distinct (λ x. x.id) _ s.executions v.executions_distinct;
          executions_owned =
              keep-All_and _ _ _ s.executions (λ x. stays_owned id x s.tasks) v.executions_owned;
          events_owned = keep-All _ _ s.events (λ x. still_there-is_some left x.execution_id);
          events_numbered = IsNumbered-keep (still_there left) [] s.events v.events_numbered;
          requests_owned =
              keep-All _ _ s.input_requests (λ x. still_there-is_some left x.execution_id);
        },
        find-remove_self (λ x. x.id) id s.tasks,
        keep-All _ _ s.executions (other_task id),
      )
]
