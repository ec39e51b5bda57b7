-- ===== src/Mcp/ProjectTools/Counts.antt =====
-- The numbers of tasks of packages/mcp/src/tools/projects.ts, which are counted in one pass, against
-- the lists of the tasks of each project.
use baara_next.Base.{
  ℕ, suc, ◌+◌, List, [], ◌∷◌, Bool, none, some, map, keep, length, set_in, ◌==◌, ◌≡◌, ◌≢◌, ◌∙◌, ap,
  subst, refl, arith, Bool-cases, Option-cases, inl, inr, if◌then◌else◌,
}
use baara_next.Core.Errors.{ok}
use baara_next.Core.Types.{Key, Project, Task}
use baara_next.Store.{Store, newest_first, insert_newest}
use baara_next.Store.Projects.{list_projects}
use baara_next.Store.Tasks.{list_tasks, in_project}
use baara_next.Orchestrator.World.{World, gets}
use baara_next.Executor.Registries.Lookup.{find-set_in_self, find-set_in_ne}
use baara_next.Mcp.ProjectTools.{
  TaskCount, count_of, count_or_zero, count_task, count_tasks, list_projects_tool,
}

module _ (mine : Task → Bool) where
  number-insert_newest :
      (t : Task) (ts : List Task)
      → length (keep mine (insert_newest (λ x. x.created_at) t ts)) ≡ length (keep mine (t ∷ ts))
  number-insert_newest t [] = refl
  number-insert_newest t (x ∷ ts) = ground (arith, number-insert_newest t ts)

  number-newest_first :
      (ts : List Task)
      → length (keep mine (newest_first (λ x. x.created_at) ts)) ≡ length (keep mine ts)
  number-newest_first [] = refl
  number-newest_first (t ∷ ts) =
      ground (
        arith,
        number-newest_first ts,
        number-insert_newest t (newest_first (λ x. x.created_at) ts),
      )

length-insert_newest :
    (t : Task) (ts : List Task) → length (insert_newest (λ x. x.created_at) t ts) ≡ suc (length ts)
length-insert_newest t [] = refl
length-insert_newest t (x ∷ ts) = ground (arith, length-insert_newest t ts)

length-newest_first : (ts : List Task) → length (newest_first (λ x. x.created_at) ts) ≡ length ts
length-newest_first [] = refl
length-newest_first (t ∷ ts) =
    ground
      (arith, length-newest_first ts, length-insert_newest t (newest_first (λ x. x.created_at) ts))

keep_every : (ts : List Task) → keep (in_project none) ts ≡ ts
keep_every [] = refl
keep_every (t ∷ ts) = ap (λ l. t ∷ l) (keep_every ts)

count_of-set_self :
    (c : TaskCount) (counts : List TaskCount)
    → count_of c.project_id (set_in (λ x. x.project_id) c counts) ≡ c.count
count_of-set_self c counts =
    ap count_or_zero (find-set_in_self (λ (x : TaskCount). x.project_id) c counts)

count_of-set_ne :
    (id : Key) (c : TaskCount) (counts : List TaskCount)
    → id ≢ c.project_id
    → count_of id (set_in (λ x. x.project_id) c counts) ≡ count_of id counts
count_of-set_ne id c counts h =
    ap count_or_zero (find-set_in_ne (λ (x : TaskCount). x.project_id) id c counts h)

count_of-count_task :
    (id : Key) (t : Task) (counts : List TaskCount)
    → count_of id (count_task t counts)
      ≡ count_of id counts + (if in_project (some id) t then 1 else 0)
count_of-count_task id t counts = elim (Option-cases t.project_id) [
  | inl free ↦ rw free (omega arith)
  | inr (k, owned) ↦
      let c : TaskCount = record { project_id = k; count = count_of k counts + 1 } in
      elim (Bool-cases (k == id)) [
        | inl same ↦
            let h : k ≡ id = ground arith in
            let set = count_of-set_self c counts in
            rw (owned, same)
              (subst (λ i. count_of i (set_in (λ x. x.project_id) c counts) ≡ count_of i counts + 1)
                h set)
        | inr apart ↦
            let h : id ≢ k = ground arith in
            let kept = count_of-set_ne id c counts h in rw (owned, apart) (kept ∙ omega arith)
      ]
]

count_of-count_tasks :
    (id : Key) (ts : List Task) (counts : List TaskCount)
    → count_of id (count_tasks ts counts)
      ≡ count_of id counts + length (keep (in_project (some id)) ts)
count_of-count_tasks id [] counts = omega arith
count_of-count_tasks id (t ∷ ts) counts =
    ground
      (arith, count_of-count_tasks id ts (count_task t counts), count_of-count_task id t counts)

counted :
    (s : Store) (id : Key)
    → count_of id (count_tasks (list_tasks none s) []) ≡ length (list_tasks (some id) s)
unfolding list_tasks
counted s id =
    let every = ap (newest_first (λ (t : Task). t.created_at)) (keep_every s.tasks) in
    let all = newest_first (λ (t : Task). t.created_at) s.tasks in
    let one_pass = count_of-count_tasks id all [] in
    let number = number-newest_first (in_project (some id)) s.tasks in
    let own = length-newest_first (keep (in_project (some id)) s.tasks) in
    let total : count_of id (count_tasks all []) ≡ length (list_tasks (some id) s) =
      omega (arith, one_pass, number, own) in
    ap (λ ts. count_of id (count_tasks ts [])) every ∙ total

map-counted :
    (s : Store) (ps : List Project)
    → map {B = Project × ℕ} (λ q. (q, count_of q.id (count_tasks (list_tasks none s) []))) ps
      ≡ map {B = Project × ℕ} (λ q. (q, length (list_tasks (some q.id) s))) ps
map-counted s [] = refl
map-counted s (q ∷ ps) = rw (counted s q.id, map-counted s ps) refl

-- The numbers of tasks that `list_projects` counts in one pass over all tasks are the lengths of the
-- lists of the tasks of each project.
pub list_projects_tool-list_tasks :
    (w : World)
    → list_projects_tool w ≡ (
      ok (
          map {B = Project × ℕ}
            (λ q. (q, length (list_tasks (some q.id) w.store)))
            (list_projects w.store)),
      w,
    )
unfolding list_projects_tool gets
list_projects_tool-list_tasks w = rw (map-counted w.store (list_projects w.store)) refl
