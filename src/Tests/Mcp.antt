-- ===== src/Tests/Mcp.antt =====
-- The projects of a small world with their numbers of tasks.
use baara_next.Base.{ℕ, ◌≡◌, some, length, map, [], ◌∷◌}
use baara_next.Core.Errors.{ok}
use baara_next.Core.Types.{Project}
use baara_next.Store.Projects.{list_projects}
use baara_next.Store.Tasks.{list_tasks}
use baara_next.Orchestrator.World.{World}
use baara_next.Mcp.ProjectTools.{list_projects_tool}
use baara_next.Mcp.ProjectTools.Counts.{list_projects_tool-list_tasks}
use baara_next.Tests.Sample.{world, report}

abbrev work : Project
work = record {
  id = 5;
  name = 6;
  description = [];
  instructions = [];
  working_directory = [];
  created_at = 1;
  updated_at = 1;
}

abbrev with_project : World
with_project = record world {
  store = record world.store {
    projects = work ∷ [];
    tasks = record report { project_id = some 5 } ∷ record report { id = 22 } ∷ [];
  };
}

list_projects_tool-list_tasks_example : list_projects_tool with_project ≡ (
  ok (
      map {B = Project × ℕ}
        (λ q. (q, length (list_tasks (some q.id) with_project.store)))
        (list_projects with_project.store)),
  with_project,
)
list_projects_tool-list_tasks_example = list_projects_tool-list_tasks with_project
