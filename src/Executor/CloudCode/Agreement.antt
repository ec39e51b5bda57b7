-- ===== src/Executor/CloudCode/Agreement.antt =====
-- The results of packages/executor/src/runtimes/cloud-code.ts and sandboxes/native.ts compared.
use baara_next.Base.{
  ℕ, List, [], ◌∷◌, ◌++◌, Bool, true, Option, none, some, ◌≡◌, refl, ap, Bool-cases, inl, inr,
  if◌then◌else◌,
}
use baara_next.Core.Types.{Key, Text, completed}
use baara_next.Core.Conversation.{Checkpoint}
use baara_next.Executor.Sdk.{SdkMessage, MessageKind, Tick, Arrival, Ending, exhausted, rejected}
use baara_next.Executor.CloudCode.{
  Totals, no_totals, completed_with, failed_after, count_message, CloudLoop, cloud_loop,
  execute_cloud,
}
use baara_next.Executor.NativeSandbox.{
  Session, Host, Loop, Run, hear, complete_turn, add_turn, override_usage, count_turn, take_message,
  native_loop, begin_run, execute_native, conclude,
}

-- The two loops end alike, without a bus.
data Agree : Loop → CloudLoop → Type 0 where
  both_finished :
      (s : Session) (t : Totals)
      → s.bus ≡ none
      → s.totals ≡ t
      → Agree (Loop.finished s) (CloudLoop.finished t)
  both_threw :
      (s : Session) (message : Text) → Agree (Loop.threw s message) (CloudLoop.threw message)

module _ (host : Host) (k : Key) where
  hear_keeps :
      (kind : MessageKind) (now : ℕ) (s : Session)
      → ((hear kind now s).bus ≡ s.bus) × ((hear kind now s).totals ≡ s.totals)
  hear_keeps (MessageKind.text t) now s = (refl, refl)
  hear_keeps (MessageKind.tool_use name input) now s = (refl, refl)
  hear_keeps (MessageKind.tool_result name output is_error) now s = (refl, refl)
  hear_keeps MessageKind.turn_complete now s = (refl, refl)
  hear_keeps MessageKind.other_kind now s = (refl, refl)

  complete_turn_alone :
      (kind : MessageKind) (t : Tick) (s : Session)
      → s.bus ≡ none
      → (next : Session) × (complete_turn host k kind t s ≡ Loop.finished next)
        × (next.bus ≡ none)
        × (next.totals ≡ s.totals)
  complete_turn_alone MessageKind.turn_complete t s h = (count_turn s, rw h refl, h, refl)
  complete_turn_alone (MessageKind.text m) t s h = (s, refl, h, refl)
  complete_turn_alone (MessageKind.tool_use name input) t s h = (s, refl, h, refl)
  complete_turn_alone (MessageKind.tool_result name output is_error) t s h = (s, refl, h, refl)
  complete_turn_alone MessageKind.other_kind t s h = (s, refl, h, refl)

  take_message_alone :
      (m : SdkMessage) (t : Tick) (s : Session)
      → s.bus ≡ none
      → (next : Session) × (take_message host k m t s ≡ Loop.finished next)
        × (next.bus ≡ none)
        × (next.totals ≡ count_message m s.totals)
  unfolding take_message count_message
  take_message_alone m t s h =
      let kept = hear_keeps m.kind t.timestamp s in
      let heard = add_turn host k m (hear m.kind t.timestamp s) in
      let (next, done, alone, totals) = complete_turn_alone m.kind t heard (rw kept.0 h) in
      (override_usage host k m next, rw (take_message, done) refl, alone, rw (totals, kept.1) refl)

  loops-Agree :
      (arrivals : List Arrival) (ending : Ending) (s : Session) (t : Totals)
      → s.bus ≡ none
      → s.totals ≡ t
      → Agree (native_loop host k arrivals ending s) (cloud_loop arrivals ending t)
  loops-Agree [] exhausted s t h e = both_finished s t h e
  loops-Agree [] (rejected message) s t h e = both_threw s message
  loops-Agree (a ∷ arrivals) ending s t h e = elim (Bool-cases a.aborted) [
    | inl aborted ↦ rw aborted (both_finished s t h e)
    | inr live ↦
        let (next, done, alone, totals) = take_message_alone a.message a.tick s h in
        rw (live, done)
          (loops-Agree arrivals ending next (count_message a.message t) alone (rw (totals, e) refl))
  ]

  conclude_alone :
      (run : Run) (l : Loop) (c : CloudLoop)
      → Agree l c
      → (conclude host k run l).0 ≡ elim c [
        | CloudLoop.finished t ↦ completed_with t run.duration
        | CloudLoop.threw message ↦ failed_after run.aborted run.timeout message run.duration
      ]
  conclude_alone run _ _ (both_finished s t h e) = rw (h, e) refl
  conclude_alone run _ _ (both_threw s message) = refl

  begun_alone :
      (c : Option Checkpoint) (now : ℕ) (s : Session)
      → ((begin_run host k c now s).bus ≡ s.bus) × ((begin_run host k c now s).totals ≡ s.totals)
  begun_alone none now s = (refl, refl)
  begun_alone (some c) now s = (refl, refl)

  -- A run in the native sandbox without a bus reports what the cloud runtime reports of the same
  -- messages with the same end: status, output, error, tokens and duration.
  pub execute_native-execute_cloud :
      (arrivals : List Arrival) (run : Run) (c : Option Checkpoint) (s : Session)
      → s.bus ≡ none
      → (execute_native host k arrivals run c s).0
        ≡ execute_cloud arrivals run.ending run.aborted run.timeout run.duration
  unfolding execute_native execute_cloud
  execute_native-execute_cloud arrivals run c s h =
      let fresh = record s { totals = no_totals; turn_count = 0 } in
      let kept = begun_alone c run.started fresh in
      conclude_alone run _ _ (
        loops-Agree arrivals run.ending (begin_run host k c run.started fresh) no_totals
          (rw kept.0 h) kept.1)

cloud_loop_cut :
    (before : List Arrival) (a : Arrival) (rest : List Arrival) (ending : Ending) (t : Totals)
    → a.aborted ≡ true
    → cloud_loop (before ++ a ∷ rest) ending t ≡ cloud_loop before exhausted t
cloud_loop_cut [] a rest ending t h = rw h refl
cloud_loop_cut (b ∷ before) a rest ending t h =
    ap (λ r. if b.aborted then CloudLoop.finished t else r)
      (cloud_loop_cut before a rest ending (count_message b.message t) h)

exhausted_finishes :
    (arrivals : List Arrival) (t : Totals)
    → (u : Totals) × (cloud_loop arrivals exhausted t ≡ CloudLoop.finished u)
exhausted_finishes [] t = (t, refl)
exhausted_finishes (a ∷ arrivals) t = elim (Bool-cases a.aborted) [
  | inl aborted ↦ (t, rw aborted refl)
  | inr live ↦
      let (u, e) = exhausted_finishes arrivals (count_message a.message t) in (u, rw (live, e) refl)
]

-- A run of the cloud runtime that is aborted before one of its messages, by its timeout or by a
-- cancellation, is reported as completed, with the output and the tokens of the messages before.
pub execute_cloud-aborted :
    (before : List Arrival) (a : Arrival) (rest : List Arrival) (ending : Ending) (aborted : Bool)
    (timeout duration : ℕ)
    → a.aborted ≡ true
    → (execute_cloud (before ++ a ∷ rest) ending aborted timeout duration
        ≡ execute_cloud before exhausted aborted timeout duration)
      × ((execute_cloud (before ++ a ∷ rest) ending aborted timeout duration).status ≡ completed)
unfolding execute_cloud
execute_cloud-aborted before a rest ending aborted timeout duration h =
    let cut = cloud_loop_cut before a rest ending no_totals h in
    let (u, e) = exhausted_finishes before no_totals in
    (rw (execute_cloud, cut) refl, rw (execute_cloud, cut, e) refl)
