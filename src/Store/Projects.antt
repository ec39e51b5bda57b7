-- ===== src/Store/Projects.antt =====
-- The projects and the templates of packages/store/src/sqlite-store.ts.
use baara_next.Base.{
  ℕ, List, [], ◌∷◌, ◌++◌, not, ◌&&◌, ◌||◌, Option, if◌then◌else◌, ◌==◌, is_some, get_or, update,
  remove, map, exists_in,
}
use baara_next.Core.Errors.{
  Result, ok, guard, or_err, constraint_failed, duplicate_entity, project_not_found,
  template_not_found, ◌>>=◌, ◌>>◌,
}
use baara_next.Core.Types.{Key, Text, Project, ProjectInput, Template, AgentConfig, Task}
use baara_next.Store.Schema.{Store, get_project, get_template, newest_first}
use baara_next.Store.Threads.{cleared}

-- `listProjects` and `listTemplates`
unfoldable pub list_projects : Store → List Project
list_projects s = newest_first (λ p. p.created_at) s.projects

unfoldable pub list_templates : Store → List Template
list_templates s = newest_first (λ t. t.created_at) s.templates

-- `createProject`
unfoldable pub create_project : (id : Key) → ProjectInput → (now : ℕ) → Store → Result Store
create_project id input now s = do
  name ← or_err input.name constraint_failed
  guard (not (exists_in (λ (p : Project). p.id == id || p.name == name) s.projects))
      (duplicate_entity name)
  let p : Project = record {
    id = id;
    name = name;
    description = get_or input.description [];
    instructions = get_or input.instructions [];
    working_directory = get_or input.working_directory [];
    created_at = now;
    updated_at = now;
  }
  ok (record s { projects = s.projects ++ p ∷ [] })

-- The SET clauses of `updateProject`.
abbrev pub with_project_input : ProjectInput → (now : ℕ) → Project → Project
with_project_input input now p = record p {
  name = get_or input.name p.name;
  description = get_or input.description p.description;
  instructions = get_or input.instructions p.instructions;
  working_directory = get_or input.working_directory p.working_directory;
  updated_at = now;
}

-- `updateProject`; a name that is taken is the driver's exception, which is not translated here.
unfoldable pub update_project : (id : Key) → ProjectInput → (now : ℕ) → Store → Result Store
update_project id input now s = do
  existing ← or_err (get_project id s) (project_not_found id)
  let p = with_project_input input now existing
  let taken = exists_in (λ (x : Project). not (x.id == id) && x.name == p.name) s.projects
  let f = with_project_input input now
  let done =
      (guard (not taken) constraint_failed
        >> ok (record s { projects = update (λ x. x.id) id f s.projects }))
  let sets_something =
      (is_some input.name
        || is_some input.description
        || is_some input.instructions
        || is_some input.working_directory)
  if sets_something then done else ok s

-- `deleteProject`; the tasks of the project stay.
unfoldable pub delete_project : (id : Key) → Store → Result Store
delete_project id s = do
  _ ← or_err (get_project id s) (project_not_found id)
  ok (record s {
    projects = remove (λ p. p.id) id s.projects;
    tasks = map (λ (t : Task). record t { project_id = cleared id t.project_id }) s.tasks;
  })

-- `createTemplate`
unfoldable pub create_template :
    (id name : Key) → Option Text → AgentConfig → (now : ℕ) → Store → Result Store
create_template id name description agent_config now s = do
  guard (not (exists_in (λ (t : Template). t.id == id || t.name == name) s.templates))
      (duplicate_entity name)
  let t : Template = record {
    id = id;
    name = name;
    description = get_or description [];
    agent_config = agent_config;
    created_at = now;
    updated_at = now;
  }
  ok (record s { templates = s.templates ++ t ∷ [] })

-- `deleteTemplate`
unfoldable pub delete_template : (id : Key) → Store → Result Store
delete_template id s = do
  _ ← or_err (get_template id s) (template_not_found id)
  ok (record s { templates = remove (λ t. t.id) id s.templates })
