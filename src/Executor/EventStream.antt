-- ===== src/Executor/EventStream.antt =====
-- The event iterator of the sandbox instances (packages/executor/src/sandboxes/native.ts and
-- docker.ts): `pushEvent` and `closeEvents` of the run, `next` of its consumer.
use baara_next.Base.{
  ℕ, suc, List, [], ◌∷◌, ◌++◌, Bool, true, false, Option, none, some, if◌then◌else◌, map,
}
pub mod Order

-- A promise of `next` that is resolved: the number of the call, and the event, `none` for the end.
pub record Answer {ℓ} (A : Type ℓ) : Type ℓ where
  pub request : ℕ
  pub result : Option A

-- `issued` counts the calls of `next`, `answers` lists the resolved ones in the order in which they
-- are resolved.
pub record EventStream {ℓ} (A : Type ℓ) : Type ℓ where
  pub event_queue : List A
  pub event_resolvers : List ℕ
  pub done : Bool
  pub issued : ℕ
  pub answers : List (Answer A)

pub data StreamCall {ℓ} (A : Type ℓ) : Type ℓ where
  next close : StreamCall A
  push : A → StreamCall A

module _ {ℓ} {A : Type ℓ} where
  abbrev pub fresh_stream : EventStream A
  fresh_stream = record {
    event_queue = [];
    event_resolvers = [];
    done = false;
    issued = 0;
    answers = [];
  }

  abbrev pub answer_of : ℕ → Option A → Answer A
  answer_of request result = record { request = request; result = result }

  -- `next`
  unfoldable pub next_event : EventStream A → EventStream A
  next_event s = elim s.event_queue [
    | event ∷ rest ↦ record s {
      event_queue = rest;
      issued = suc s.issued;
      answers = s.answers ++ answer_of s.issued (some event) ∷ [];
    }
    | [] ↦
        if s.done
        then record s { issued = suc s.issued; answers = s.answers ++ answer_of s.issued none ∷ [] }
        else record s {
          issued = suc s.issued;
          event_resolvers = s.event_resolvers ++ s.issued ∷ [];
        }
  ]

  -- `pushEvent`
  unfoldable pub push_event : A → EventStream A → EventStream A
  push_event event s = elim s.event_resolvers [
    | request ∷ rest ↦ record s {
      event_resolvers = rest;
      answers = s.answers ++ answer_of request (some event) ∷ [];
    }
    | [] ↦ record s { event_queue = s.event_queue ++ event ∷ [] }
  ]

  -- `closeEvents`
  unfoldable pub close_events : EventStream A → EventStream A
  close_events s = record s {
    done = true;
    event_resolvers = [];
    answers = s.answers ++ map (λ request. answer_of request none) s.event_resolvers;
  }

  unfoldable pub stream_step : StreamCall A → EventStream A → EventStream A
  stream_step next s = next_event s
  stream_step (push event) s = push_event event s
  stream_step close s = close_events s

  abbrev pub run_stream : List (StreamCall A) → EventStream A → EventStream A
  run_stream [] s = s
  run_stream (c ∷ cs) s = run_stream cs (stream_step c s)
