-- ===== src/Mcp/ProjectTools.antt =====
-- packages/mcp/src/tools/projects.ts: the projects with their numbers of tasks.
use baara_next.Base.{
  ℕ, suc, ◌+◌, List, [], ◌∷◌, Option, none, some, map, find, keep, length, set_in, if◌then◌else◌,
  ◌==◌, ◌≡◌, refl, arith,
}
use baara_next.Core.Types.{Key, Project, Task}
use baara_next.Store.{Store}
use baara_next.Store.Projects.{list_projects}
use baara_next.Store.Tasks.{list_tasks}
use baara_next.Orchestrator.World.{Action, look}
pub mod Counts

-- An entry of `tasksByProject`.
pub record TaskCount : Type 0 where
  pub project_id : Key
  pub count : ℕ

-- `?? 0`
abbrev pub count_or_zero : Option TaskCount → ℕ
count_or_zero none = 0
count_or_zero (some c) = c.count

abbrev pub count_of : Key → List TaskCount → ℕ
count_of id counts = count_or_zero (find (λ c. c.project_id) id counts)

abbrev pub count_task : Task → List TaskCount → List TaskCount
count_task t counts = elim t.project_id [
  | none ↦ counts
  | some id ↦
      set_in (λ c. c.project_id) (record { project_id = id; count = count_of id counts + 1 }) counts
]

abbrev pub count_tasks : List Task → List TaskCount → List TaskCount
count_tasks [] counts = counts
count_tasks (t ∷ ts) counts = count_tasks ts (count_task t counts)

-- `list_projects`
unfoldable pub list_projects_tool : Action (List (Project × ℕ))
list_projects_tool = look (λ s.
    let counts = count_tasks (list_tasks none s) [] in
    map (λ (q : Project). (q, count_of q.id counts)) (list_projects s))
