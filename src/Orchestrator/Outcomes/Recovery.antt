-- ===== src/Orchestrator/Outcomes/Recovery.antt =====
-- How `recoverExecution` of packages/orchestrator/src/orchestrator-service.ts ends.
use baara_next.Base.{◌+◌, ◌≤◌, some, ◌≡◌, refl, Bool, true, false, arith, ltb, find-key}
use baara_next.Core.Status.{ExecutionStatus, retry_scheduled, can_transition}
use baara_next.Core.Errors.{err, invalid_state_transition}
use baara_next.Core.Types.{Key, Execution, ExecutionUpdates, Task, no_updates}
use baara_next.Store.{Store, get_execution, get_task}
use baara_next.Store.Executions.{update_execution_status}
use baara_next.Orchestrator.World.{World, Platform, effects}
use baara_next.Orchestrator.Service.Recover.{
  recover_execution, resume, is_in_flight, recovered_from_crash,
}

-- A transition that the state machine lacks is refused.
pub update_execution_status_refused :
    (id : Key) (status : ExecutionStatus) (u : ExecutionUpdates) (s : Store) (e : Execution)
    → get_execution id s ≡ some e
    → can_transition e.status status ≡ false
    → update_execution_status id status u s ≡ err (invalid_state_transition e.status status id)
unfolding update_execution_status
update_execution_status_refused id status u s e found may = ground arith

no_way_back :
    (s : ExecutionStatus) → is_in_flight s ≡ true → can_transition s retry_scheduled ≡ false
unfolding can_transition
no_way_back s h = ground arith

-- The record of the crash is the first statement of a recovery, and the state machine refuses it.
resume_refused :
    (p : Platform) (bus : Bool) (w : World) (e : Execution) (t : Task)
    → get_execution e.id w.store ≡ some e
    → is_in_flight e.status ≡ true
    → resume p bus e t w ≡ (err (invalid_state_transition e.status retry_scheduled e.id), w)
unfolding resume effects
resume_refused p bus w e t found flying =
    let u : ExecutionUpdates = record no_updates {
      error = some (some recovered_from_crash);
      completed_at = some (some w.now);
    } in
    let no = no_way_back e.status flying in
    rw (update_execution_status_refused e.id retry_scheduled u w.store e found no) refl

-- A crashed execution that has an attempt left is not recovered: the first step of the recovery is
-- a transition that the state machine lacks, so the call throws and changes nothing at all.
pub recover_execution_refused :
    (p : Platform) (bus : Bool) (id : Key) (w : World) (e : Execution) (t : Task)
    → get_execution id w.store ≡ some e
    → is_in_flight e.status ≡ true
    → get_task e.task_id w.store ≡ some t
    → e.attempt ≤ t.max_retries
    → recover_execution p bus id w ≡ (err (invalid_state_transition e.status retry_scheduled id), w)
unfolding recover_execution effects
recover_execution_refused p bus id w e t found flying owned left =
    let same : e.id ≡ id = find-key (λ e. e.id) id w.store.executions e found in
    let here : get_execution e.id w.store ≡ some e = cc in
    let short : ltb (t.max_retries + 1) (e.attempt + 1) ≡ false = ground arith in
    rw (found, flying, owned, short) (rw (← same) (resume_refused p bus w e t here flying))
