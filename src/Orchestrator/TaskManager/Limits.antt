-- ===== src/Orchestrator/TaskManager/Limits.antt =====
-- What `sanitizeInput` of packages/orchestrator/src/task-manager.ts makes of an input, and the tasks
-- that it lets into the store.
use baara_next.Base.{
  ℕ, [], ◌∷◌, ◌++◌, ◌≤◌, true, not, Option, none, some, ◌≡◌, refl, sym, subst, arith, ◌⊎◌, inl, inr,
  Option-cases, Bool-cases, All, All-append_one, All-update, min, map_some, get_or, update,
}
use baara_next.Core.Errors.{ok, answers}
use baara_next.Core.Types.{Key, Text, Task, TaskInput, AgentConfig}
use baara_next.Store.{Store, get_task}
use baara_next.Store.Tasks.{create_task, update_task, new_task, with_input, sets_nothing}
use baara_next.Orchestrator.TaskManager.{
  sanitize_input, sanitize_agent, sanitize_config, create, modify, toggle, clamp, min_timeout_ms,
  max_timeout_ms, max_retries, max_budget_usd, holds_of, is_valid_type, is_valid_mode, nothing,
}

abbrev pub OptionAll {ℓ} : {A : Type ℓ} → (A → Type 0) → Option A → Type 0
OptionAll P none = Unit
OptionAll P (some a) = P a

abbrev pub IsTimeout : ℕ → Type 0
IsTimeout n = (min_timeout_ms ≤ n) × (n ≤ max_timeout_ms)

-- An input whose numbers keep the limits.
abbrev pub IsWithin : TaskInput → Type 0
IsWithin i = OptionAll IsTimeout i.timeout_ms × OptionAll (λ n. n ≤ max_retries) i.max_retries

clamp-IsTimeout :
    (o : Option ℕ) → OptionAll IsTimeout (map_some (clamp min_timeout_ms max_timeout_ms) o)
clamp-IsTimeout none = tt
clamp-IsTimeout (some n) = (omega arith, omega arith)

clamp-retries : (o : Option ℕ) → OptionAll (λ n. n ≤ max_retries) (map_some (clamp 0 max_retries) o)
clamp-retries none = tt
clamp-retries (some n) = omega arith

clamp_idem :
    (lo hi : ℕ) (o : Option ℕ)
    → map_some (clamp lo hi) (map_some (clamp lo hi) o) ≡ map_some (clamp lo hi) o
clamp_idem lo hi none = refl
clamp_idem lo hi (some n) = ground arith

cap_idem :
    (hi : ℕ) (o : Option ℕ)
    → map_some (λ b. min b hi) (map_some (λ b. min b hi) o) ≡ map_some (λ b. min b hi) o
cap_idem hi none = refl
cap_idem hi (some n) = ground arith

sanitize_config-eq-ok :
    (c d : AgentConfig)
    → sanitize_config c ≡ ok d
    → (holds_of is_valid_mode c.permission_mode ≡ true)
      × (d ≡ record c {
        budget_usd = map_some (λ b. min b max_budget_usd) c.budget_usd;
        max_turns = map_some (clamp 1 200) c.max_turns;
      })
unfolding sanitize_config
sanitize_config-eq-ok c d h = elim (Bool-cases (holds_of is_valid_mode c.permission_mode)) [
  | inl valid ↦ (valid, ground arith)
  | inr invalid ↦ ground arith
]

sanitize_config_idem : (c d : AgentConfig) → sanitize_config c ≡ ok d → sanitize_config d ≡ ok d
unfolding sanitize_config
sanitize_config_idem c d h =
    let (valid, e) = sanitize_config-eq-ok c d h in
    subst (λ x. sanitize_config x ≡ ok x) (sym e)
      (rw (valid, cap_idem max_budget_usd c.budget_usd, clamp_idem 1 200 c.max_turns) refl)

sanitize_agent_idem :
    (a b : Option (Option AgentConfig)) → sanitize_agent a ≡ ok b → sanitize_agent b ≡ ok b
sanitize_agent_idem none b h = ground arith
sanitize_agent_idem (some none) b h = ground arith
sanitize_agent_idem (some (some c)) b h = elim (answers (sanitize_config c)) [
  | inl (d, e) ↦ ground (arith, sanitize_config_idem c d e)
  | inr (x, e) ↦ ground arith
]

-- The shape of an answer.
sanitize_input-eq-ok :
    (i o : TaskInput)
    → sanitize_input i ≡ ok o
    → (holds_of is_valid_type i.execution_type ≡ true)
      × (a : Option (Option AgentConfig)) × (sanitize_agent i.agent_config ≡ ok a)
      × (o ≡ record i {
        timeout_ms = map_some (clamp min_timeout_ms max_timeout_ms) i.timeout_ms;
        max_retries = map_some (clamp 0 max_retries) i.max_retries;
        agent_config = a;
      })
unfolding sanitize_input
sanitize_input-eq-ok i o h = elim (Bool-cases (holds_of is_valid_type i.execution_type)) [
  | inl valid ↦ elim (answers (sanitize_agent i.agent_config)) [
    | inl (a, e) ↦ (valid, a, e, ground arith)
    | inr (x, e) ↦ ground arith
  ]
  | inr invalid ↦ ground arith
]

-- An input that is let through has a timeout between a second and an hour and at most ten retries,
-- if it has these at all, and is let through a second time without any change.
pub sanitize_input-IsWithin :
    (i o : TaskInput) → sanitize_input i ≡ ok o → IsWithin o × (sanitize_input o ≡ ok o)
unfolding sanitize_input
sanitize_input-IsWithin i o h =
    let (valid, a, e, same) = sanitize_input-eq-ok i o h in
    subst (λ x. IsWithin x × (sanitize_input x ≡ ok x)) (sym same)
      (
        (clamp-IsTimeout i.timeout_ms, clamp-retries i.max_retries),
        rw
            (
              valid,
              sanitize_agent_idem i.agent_config a e,
              clamp_idem min_timeout_ms max_timeout_ms i.timeout_ms,
              clamp_idem 0 max_retries i.max_retries,
            )
            refl,
      )

-- A task whose numbers keep the limits.
abbrev pub IsLimited : Task → Type 0
IsLimited t = IsTimeout t.timeout_ms × (t.max_retries ≤ max_retries)

get_or-OptionAll {ℓ} :
    {A : Type ℓ} (P : A → Type 0) (o : Option A) (d : A) → OptionAll P o → P d → P (get_or o d)
get_or-OptionAll P none d h k = k
get_or-OptionAll P (some a) d h k = h

new_task-IsLimited :
    (id name : Key) (prompt : Text) (i : TaskInput) (now : ℕ)
    → IsWithin i
    → IsLimited (new_task id name prompt i now)
unfolding new_task
new_task-IsLimited id name prompt i now h = (
  get_or-OptionAll IsTimeout i.timeout_ms 300000 h.0 (omega arith, omega arith),
  get_or-OptionAll (λ n. n ≤ max_retries) i.max_retries 0 h.1 (omega arith),
)

with_input-IsLimited :
    (i : TaskInput) (now : ℕ) (t : Task) → IsWithin i → IsLimited t → IsLimited (with_input i now t)
unfolding with_input
with_input-IsLimited i now t h l = (
  get_or-OptionAll IsTimeout i.timeout_ms t.timeout_ms h.0 l.0,
  get_or-OptionAll (λ n. n ≤ max_retries) i.max_retries t.max_retries h.1 l.1,
)

create_task-eq-ok :
    (id : Key) (i : TaskInput) (now : ℕ) (s t : Store)
    → create_task id i now s ≡ ok t
    → (name : Key) × (prompt : Text) × (t.tasks ≡ s.tasks ++ new_task id name prompt i now ∷ [])
unfolding create_task
create_task-eq-ok id i now s t e = elim (Option-cases i.name) [
  | inl missing ↦ ground arith
  | inr (name, n) ↦ elim (Option-cases i.prompt) [
    | inl missing ↦ ground arith
    | inr (prompt, p) ↦ (name, prompt, ground arith)
  ]
]

update_task-eq-ok :
    (id : Key) (i : TaskInput) (now : ℕ) (s t : Store)
    → update_task id i now s ≡ ok t
    → (t.tasks ≡ s.tasks) ⊎ (t.tasks ≡ update (λ x. x.id) id (with_input i now) s.tasks)
unfolding update_task
update_task-eq-ok id i now s t e = elim (Option-cases (get_task id s)) [
  | inl missing ↦ ground arith
  | inr (old, found) ↦ elim (Bool-cases (sets_nothing i)) [
    | inl none_set ↦ inl (ground arith)
    | inr some_set ↦ inr (ground arith)
  ]
]

update_task-IsLimited :
    (id : Key) (i : TaskInput) (now : ℕ) (s t : Store)
    → IsWithin i
    → All IsLimited s.tasks
    → update_task id i now s ≡ ok t
    → All IsLimited t.tasks
update_task-IsLimited id i now s t h l e = elim (update_task-eq-ok id i now s t e) [
  | inl same ↦ rw same l
  | inr changed ↦ rw changed (
      All-update (λ x. x.id) IsLimited id (with_input i now) s.tasks
        (λ x. with_input-IsLimited i now x h) l)
]

-- Each write of a task that succeeds keeps every task of the store within the limits: a timeout
-- between a second and an hour, and at most ten retries. This holds of the creation, the change
-- and the toggle of a task.
pub create-IsLimited :
    (id : Key) (i : TaskInput) (now : ℕ) (s t : Store)
    → All IsLimited s.tasks
    → (create id i now s ≡ ok t) ⊎ (modify id i now s ≡ ok t) ⊎ (toggle id now s ≡ ok t)
    → All IsLimited t.tasks
unfolding create modify toggle
create-IsLimited id i now s t l (inl e) = elim (answers (sanitize_input i)) [
  | inl (o, clean) ↦
      let (within, _) = sanitize_input-IsWithin i o clean in
      let (name, prompt, made) = create_task-eq-ok id o now s t (ground arith) in
      rw made
        (All-append_one IsLimited s.tasks _ l (new_task-IsLimited id name prompt o now within))
  | inr (x, refused) ↦ ground arith
]
create-IsLimited id i now s t l (inr (inl e)) = elim (answers (sanitize_input i)) [
  | inl (o, clean) ↦
      let (within, _) = sanitize_input-IsWithin i o clean in
      update_task-IsLimited id o now s t within l (ground arith)
  | inr (x, refused) ↦ ground arith
]
create-IsLimited id i now s t l (inr (inr e)) = elim (Option-cases (get_task id s)) [
  | inl missing ↦ ground arith
  | inr (old, found) ↦
      update_task-IsLimited id (record nothing { enabled = some (not old.enabled) }) now s t
        (tt, tt) l (ground arith)
]
