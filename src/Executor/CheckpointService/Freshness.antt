-- ===== src/Executor/CheckpointService/Freshness.antt =====
-- How old the latest checkpoint of packages/executor/src/checkpoint-service.ts can be.
use baara_next.Base.{
  ℕ, suc, ◌+◌, ◌≤◌, ◌<◌, ◌%◌, List, [], ◌∷◌, true, false, some, ◌≡◌, refl, arith, All, All-imp,
  All-append_one, length, ◌≢◌, ◌⊎◌, inl, inr, Bool-cases,
}
use native.Mathlib.Nat.{add-mod_right, mod_self, add-zero, add-suc, suc-add}
use baara_next.Core.Errors.{ok, answers}
use baara_next.Core.Types.{Key, TaskMessage, outbound, checkpoint_type}
use baara_next.Core.Json.{IsFaithful}
use baara_next.Core.Conversation.{Checkpoint}
use baara_next.Store.Messages.{send_message}
use baara_next.Store.Logs.{sent, send_message-eq-ok, read_latest_message-send_message}
use baara_next.Executor.MessageBus.{Bus, Formats, write_checkpoint, read_latest_checkpoint}
use baara_next.Executor.CheckpointService.{
  CheckpointService, Moment, checkpoint_at, is_due, save_checkpoint, on_turn_complete,
  complete_turns,
}

-- No row of the bus is from a later time.
abbrev pub IsPast : ℕ → Bus → Type 0
IsPast now bus = All (λ (m : TaskMessage). m.created_at ≤ now) bus.store.task_messages

-- The clock does not go back.
abbrev pub IsTimely : ℕ → List Moment → Type 0
IsTimely now [] = Unit
IsTimely now (m ∷ ms) = (now ≤ m.now) × IsTimely m.now ms

module _ (formats : Formats) (faithful : IsFaithful formats.checkpoints) where
  write_checkpoint-sent :
      (id k : Key) (c : Checkpoint) (now : ℕ) (bus after : Bus)
      → write_checkpoint formats id k c now bus ≡ ok after
      → send_message id k outbound checkpoint_type (formats.checkpoints.stringify c) now bus.store
        ≡ ok after.store
  unfolding write_checkpoint
  write_checkpoint-sent id k c now bus after h = ground arith

  -- A checkpoint that is written, while the clock has not gone back, is the one that is read next.
  pub read_latest_checkpoint-write_checkpoint :
      (id k : Key) (c : Checkpoint) (now : ℕ) (bus after : Bus)
      → IsPast now bus
      → write_checkpoint formats id k c now bus ≡ ok after
      → read_latest_checkpoint formats k after ≡ ok (some c)
  unfolding read_latest_checkpoint
  read_latest_checkpoint-write_checkpoint id k c now bus after past h =
      let payload = formats.checkpoints.stringify c in
      rw
        (
          read_latest_checkpoint,
          read_latest_message-send_message id k outbound checkpoint_type payload now bus.store
              after.store past (write_checkpoint-sent id k c now bus after h),
          faithful c,
        )
        refl

  write_checkpoint-IsPast :
      (id k : Key) (c : Checkpoint) (m now : ℕ) (bus after : Bus)
      → m ≤ now
      → IsPast m bus
      → write_checkpoint formats id k c now bus ≡ ok after
      → IsPast now after
  write_checkpoint-IsPast id k c m now bus after later past h =
      let payload = formats.checkpoints.stringify c in
      let rows = bus.store.task_messages in
      rw
        (send_message-eq-ok id k outbound checkpoint_type payload now bus.store after.store
          (write_checkpoint-sent id k c now bus after h))
        (All-append_one _ rows (sent id k outbound checkpoint_type payload now)
          (All-imp _ _ rows (λ x p. omega arith) past) (omega arith))

  module _ (service : CheckpointService) (positive : 0 < service.interval_turns) where
    -- After n turns: too few for a checkpoint, or one from fewer turns ago than the interval.
    abbrev IsSaved : ℕ → Bus → Type 0
    IsSaved n bus =
        (n < service.interval_turns)
        ⊎ ((c : Checkpoint) × (read_latest_checkpoint formats service.execution_id bus
              ≡ ok (some c))
            × (c.turn_count % service.interval_turns ≡ 0)
            × (c.turn_count ≤ n)
            × (n < c.turn_count + service.interval_turns))

    due_multiple : (n : ℕ) → is_due service n ≡ true → n % service.interval_turns ≡ 0
    due_multiple n h = ground arith

    early_multiple : (n : ℕ) → 0 < n → is_due service n ≡ false → n % service.interval_turns ≢ 0
    early_multiple n p h = ground arith

    on_turn_complete-IsSaved :
        (n : ℕ) (m : Moment) (now : ℕ) (bus after : Bus)
        → now ≤ m.now
        → IsPast now bus
        → IsSaved n bus
        → on_turn_complete formats service (suc n) m bus ≡ ok after
        → IsSaved (suc n) after × IsPast m.now after
    unfolding on_turn_complete save_checkpoint
    on_turn_complete-IsSaved n m now bus after later past saved h =
        let k = service.execution_id in
        let c = checkpoint_at service (suc n) m in
        let i = service.interval_turns in
        let current : IsPast m.now bus =
          All-imp _ _ bus.store.task_messages (λ x p. omega arith) past in
        elim (Bool-cases (is_due service (suc n))) [
          | inl due ↦
              let written : write_checkpoint formats m.message_id k c m.now bus ≡ ok after =
                ground arith in
              (
                inr (
                  c,
                  read_latest_checkpoint-write_checkpoint m.message_id k c m.now bus after current
                      written,
                  due_multiple (suc n) due,
                  omega arith,
                  omega arith,
                ),
                write_checkpoint-IsPast m.message_id k c now m.now bus after later past written,
              )
          | inr early ↦
              let same : bus ≡ after = ground arith in
              let missed = early_multiple (suc n) (omega arith) early in
              (
                rw (← same) (elim saved [
                  | inl few ↦
                      let short : suc n ≢ i = λ q. missed (rw q (mod_self i)) in inl (omega arith)
                  | inr (old, read, multiple, past_turn, near) ↦
                      let short : suc n ≢ old.turn_count + i =
                        λ q. missed (rw (q, add-mod_right old.turn_count i) multiple) in
                      inr (old, read, multiple, omega arith, omega arith)
                ]),
                rw (← same) current,
              )
        ]

    complete_turns-IsSaved :
        (n : ℕ) (ms : List Moment) (now : ℕ) (bus after : Bus)
        → IsTimely now ms
        → IsPast now bus
        → IsSaved n bus
        → complete_turns formats service n ms bus ≡ ok after
        → IsSaved (n + length ms) after
    complete_turns-IsSaved n [] now bus after timely past saved h =
        let same : bus ≡ after = ground arith in rw (← same, add-zero n) saved
    complete_turns-IsSaved n (m ∷ ms) now bus after timely past saved h =
        elim (answers (on_turn_complete formats service (suc n) m bus)) [
          | inl (next, done) ↦
              let step = on_turn_complete-IsSaved n m now bus next timely.0 past saved done in
              let rest =
                complete_turns-IsSaved (suc n) ms m.now next after timely.1 step.1 step.0
                  (ground arith) in
              rw (add-suc n (length ms), ← suc-add n (length ms)) rest
          | inr (e, thrown) ↦ ground arith
        ]

    -- Let what is written be read back, the interval be positive, no row of the bus be from a later
    -- time, and the clock not go back. After a loop that counts and reports at least as many turns as
    -- the interval, and returns, the latest checkpoint can be read, and fewer turns than the interval
    -- have passed since its turn.
    pub complete_turns-fresh :
        (ms : List Moment) (now : ℕ) (bus after : Bus)
        → IsTimely now ms
        → IsPast now bus
        → service.interval_turns ≤ length ms
        → complete_turns formats service 0 ms bus ≡ ok after
        → (c : Checkpoint) × (read_latest_checkpoint formats service.execution_id after
            ≡ ok (some c))
          × (c.turn_count ≤ length ms)
          × (length ms < c.turn_count + service.interval_turns)
    complete_turns-fresh ms now bus after timely past many h =
        elim (complete_turns-IsSaved 0 ms now bus after timely past (inl positive) h) [
          | inl few ↦ ground arith
          | inr (c, read, multiple, passed, near) ↦ (c, read, omega arith, omega arith)
        ]
