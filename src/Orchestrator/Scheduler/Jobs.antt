-- ===== src/Orchestrator/Scheduler/Jobs.antt =====
-- The jobs that packages/orchestrator/src/scheduler.ts keeps: one for each task.
use baara_next.Base.{
  true, false, none, some, ◌≡◌, ◌≢◌, ◌⊎◌, inl, inr, refl, find, remove, set_in, Distinct,
  Bool-cases, remove-Distinct, find-remove_self, find-remove_ne, ◌∙◌,
}
use baara_next.Core.Errors.{ok, err, other}
use baara_next.Core.Types.{Key, Text}
use baara_next.Executor.Registries.Lookup.{find-set_in_self, find-set_in_ne, set_in-Distinct}
use baara_next.Orchestrator.World.{World, Platform, Job, effects, and_then}
use baara_next.Orchestrator.Scheduler.{register, unregister}

-- What a registration leaves: another task has the job that it had, and no two jobs are for one task.
abbrev pub KeepsOther : (task_id : Key) → World → World → Type 0
KeepsOther k w v =
    (find (λ j. j.task_id) k v.jobs ≡ find (λ j. j.task_id) k w.jobs)
    × Distinct (λ j. j.task_id) v.jobs

-- Where no two jobs are for one task, a registration ends in one of two ways. With an expression that
-- croner takes it returns, and the task has the job with that expression and no other one. With any
-- other expression it throws, and the task is left without a job, even if it had one. Both times any
-- other task has the job that it had, and no two jobs are for one task.
pub register-Distinct :
    (p : Platform) (task_id : Key) (cron : Text) (k : Key) (w : World)
    → k ≢ task_id
    → Distinct (λ j. j.task_id) w.jobs
    → (v : World) × KeepsOther k w v
      × (((p.is_cron cron ≡ true)
            × (register p task_id cron w ≡ (ok tt, v))
            × (find (λ j. j.task_id) task_id v.jobs
                ≡ some (record { task_id = task_id; cron_expression = cron })))
          ⊎ ((p.is_cron cron ≡ false)
              × (register p task_id cron w ≡ (err other, v))
              × (find (λ j. j.task_id) task_id v.jobs ≡ none)))
unfolding register unregister effects and_then
register-Distinct p task_id cron k w apart d =
    let j : Job = record { task_id = task_id; cron_expression = cron } in
    let left = remove (λ (x : Job). x.task_id) task_id w.jobs in
    let gone = find-remove_self (λ (x : Job). x.task_id) task_id w.jobs in
    let single = remove-Distinct (λ (x : Job). x.task_id) task_id w.jobs d in
    let same = find-remove_ne (λ (x : Job). x.task_id) k task_id w.jobs apart in
    elim (Bool-cases (p.is_cron cron)) [
      | inl valid ↦ (
        record w { jobs = set_in (λ x. x.task_id) j left },
        (
          find-set_in_ne (λ (x : Job). x.task_id) k j left apart ∙ same,
          set_in-Distinct (λ (x : Job). x.task_id) j left single,
        ),
        inl (valid, rw valid refl, find-set_in_self (λ (x : Job). x.task_id) j left),
      )
      | inr invalid ↦
          (record w { jobs = left }, (same, single), inr (invalid, rw invalid refl, gone))
    ]
