-- ===== src/Store/Selection.antt =====
-- What `dequeueExecution` of packages/store/src/sqlite-store.ts picks.
use baara_next.Base.{
  List, [], ◌∷◌, true, false, none, some, ◌≡◌, ◌<◌, ◌≤◌, refl, arith, update, Distinct, ◌⊎◌, inl,
  inr, Option-cases, Bool-cases, keep, All, All-imp, subst, sym, find-update_self, if◌then◌else◌,
}
use baara_next.Core.Types.{Key, Execution}
use baara_next.Store.Schema.{Store, get_execution}
use baara_next.Store.Executions.{
  dequeue_execution, first_in_order, is_waiting_in, assign, comes_before,
}
use baara_next.Store.Inversion.{find-first_in_order, first_in_order-keep}

-- No row of the list has a smaller priority, or an earlier date with the same priority.
abbrev pub IsFirst : Execution → List Execution → Type 0
IsFirst row xs =
    All
      (λ (x : Execution).
        (row.priority < x.priority)
        ⊎ ((row.priority ≡ x.priority) × (row.created_at ≤ x.created_at)))
      xs

not_before-le :
    (x row : Execution)
    → comes_before x row ≡ false
    → (row.priority < x.priority) ⊎ ((row.priority ≡ x.priority) × (row.created_at ≤ x.created_at))
not_before-le x row h = ground arith

-- No row of the list comes before `row`.
abbrev IsMinimal : Execution → List Execution → Type 0
IsMinimal row xs = All (λ x. comes_before x row ≡ false) xs

comes_before_irrefl : (x : Execution) → comes_before x x ≡ false
comes_before_irrefl x = ground arith

comes_before_asym : (x y : Execution) → comes_before y x ≡ true → comes_before x y ≡ false
comes_before_asym x y h = ground arith

not_before_trans :
    (x y z : Execution)
    → comes_before z y ≡ false
    → comes_before y x ≡ false
    → comes_before z x ≡ false
not_before_trans x y z h k = ground arith

first_in_order-none : (xs : List Execution) → first_in_order xs ≡ none → xs ≡ []
unfolding first_in_order
first_in_order-none [] h = refl
first_in_order-none (x ∷ xs) h = ground arith

first_in_order_cons :
    (x y : Execution) (xs : List Execution)
    → first_in_order xs ≡ some y
    → first_in_order (x ∷ xs) ≡ (if comes_before y x then some y else some x)
unfolding first_in_order
first_in_order_cons x y xs h = rw h refl

first_in_order-IsMinimal :
    (xs : List Execution) (row : Execution) → first_in_order xs ≡ some row → IsMinimal row xs
unfolding first_in_order
first_in_order-IsMinimal [] row h = cc
first_in_order-IsMinimal (x ∷ xs) row h = elim (Option-cases (first_in_order xs)) [
  | inl missing ↦
      let e : xs ≡ [] = first_in_order-none xs missing in
      rw e (ground (arith, comes_before_irrefl x), tt)
  | inr (y, found) ↦
      let step = first_in_order_cons x y xs found in
      let rest = first_in_order-IsMinimal xs y found in
      elim (Bool-cases (comes_before y x)) [
        | inl before ↦
            let e : row ≡ y = ground arith in
            subst (λ r. IsMinimal r (x ∷ xs)) (sym e) (comes_before_asym x y before, rest)
        | inr other ↦
            let e : row ≡ x = ground arith in
            subst (λ r. IsMinimal r (x ∷ xs)) (sym e)
              (comes_before_irrefl x, All-imp _ _ xs (λ z k. not_before_trans x y z k other) rest)
      ]
]

-- In a store whose executions have distinct ids a dequeue finds nothing only if no execution waits
-- in the queue, and then changes nothing. Otherwise it takes a waiting execution of the queue with
-- the smallest priority and, among those, the earliest date, returns it as assigned, and assigns
-- the row of that id in the table.
pub dequeue_execution_min :
    (queue_name : Key) (s : Store)
    → Distinct (λ e. e.id) s.executions
    → ((keep (is_waiting_in queue_name) s.executions ≡ [])
        × (dequeue_execution queue_name s ≡ (none, s)))
      ⊎ ((row : Execution) × (get_execution row.id s ≡ some row)
          × (is_waiting_in queue_name row ≡ true)
          × IsFirst row (keep (is_waiting_in queue_name) s.executions)
          × (dequeue_execution queue_name s ≡ (
            some (assign row),
            record s { executions = update (λ e. e.id) row.id assign s.executions },
          )))
unfolding dequeue_execution
dequeue_execution_min queue_name s d =
    let waiting = keep (is_waiting_in queue_name) s.executions in
    elim (Option-cases (first_in_order waiting)) [
      | inl missing ↦
          inl (first_in_order-none waiting missing, rw (missing, dequeue_execution) refl)
      | inr (row, found) ↦
          let there = find-first_in_order (is_waiting_in queue_name) s.executions row d found in
          let back =
            find-update_self (λ (e : Execution). e.id) row.id assign (λ e. refl) s.executions in
          inr (
            row,
            there,
            first_in_order-keep (is_waiting_in queue_name) s.executions row found,
            All-imp _ _ waiting (λ x. not_before-le x row)
                (first_in_order-IsMinimal waiting row found),
            rw (found, dequeue_execution, back, there) refl,
          )
    ]
