-- ===== src/Server/Conflicts.antt =====
-- Which errors `POST /:id/input` of packages/server/src/routes/executions.ts answers.
use baara_next.Base.{
  ℕ, suc, sym, ◌∙◌, update, [], ◌∷◌, Option, none, some, ◌≡◌, ◌≢◌, refl, arith, Option-cases, inl,
  inr,
}
use baara_next.Core.Status.{running}
use baara_next.Core.Errors.{Error, Result, ok, err, execution_not_found, other}
use baara_next.Core.Events.{EventType, input_provided}
use baara_next.Core.Types.{Key, Text, no_updates}
use baara_next.Store.{Store, get_execution}
use baara_next.Store.Events.{append_event}
use baara_next.Store.Inputs.{get_input_request, with_response}
use baara_next.Store.Executions.{update_execution_status}
use baara_next.Orchestrator.World.{
  World, Platform, Action, effects, stored, on_store, ◌>>=◌, ◌>>◌, and_then, throw, pure, or_throw,
  seconds,
}
use baara_next.Orchestrator.EventHandler.{emit, append_next}
use baara_next.Orchestrator.Service.Input.{provide_input}
use baara_next.Orchestrator.Outcomes.Dialogue.{respond_to_input_ok}
use baara_next.Server.Replies.{
  Reply, RequestBody, malformed, null_body, given, reply, accepted, answer, input_errors,
}
use baara_next.Server.ExecutionRoutes.{post_input}

-- No error of the action is one that the route calls a conflict.
abbrev IsCalm : {A : Type 0} → Action A → Type 0
IsCalm {A} m = (w : World) (e : Error) → (m w).0 ≡ err e → input_errors e ≢ some 409

and_then-IsCalm :
    {A B : Type 0} (r : Result A) (f : A → Action B)
    → ((e : Error) → r ≡ err e → input_errors e ≢ some 409)
    → ((a : A) → IsCalm (f a))
    → IsCalm (and_then r f)
unfolding and_then throw
and_then-IsCalm (ok a) f calm next w e h = next a w e h
and_then-IsCalm (err x) f calm next w e h = ground (arith, calm x refl)

bind-IsCalm :
    {A B : Type 0} (m : Action A) (f : A → Action B)
    → IsCalm m
    → ((a : A) → IsCalm (f a))
    → IsCalm (m >>= f)
unfolding ◌>>=◌
bind-IsCalm m f calm next w e h = and_then-IsCalm (m w).0 f (calm w) next (m w).1 e h

stored-calm :
    (r : Result Store) (w : World) (e : Error)
    → ((x : Error) → r ≡ err x → input_errors x ≢ some 409)
    → (stored r w).0 ≡ err e
    → input_errors e ≢ some 409
unfolding stored
stored-calm (ok s) w e calm h = ground arith
stored-calm (err x) w e calm h = ground (arith, calm x refl)

on_store-IsCalm :
    (f : Store → Result Store)
    → ((s : Store) (e : Error) → f s ≡ err e → input_errors e ≢ some 409)
    → IsCalm (on_store f)
unfolding on_store
on_store-IsCalm f calm w e h = stored-calm (f w.store) w e (calm w.store) h

update-IsCalm :
    (id : Key) (s : Store) (e : Error)
    → update_execution_status id running no_updates s ≡ err e
    → input_errors e ≢ some 409
unfolding update_execution_status
update-IsCalm id s e h = ground arith

append-calm :
    (id execution_id : Key) (now : ℕ) (type : EventType) (s : Store) (e : Error)
    → append_next id execution_id now type s ≡ err e
    → input_errors e ≢ some 409
unfolding append_next append_event
append-calm id execution_id now type s e h = ground arith

emit-IsCalm : (p : Platform) (id : Key) (type : EventType) → IsCalm (emit p id type)
unfolding emit effects and_then
emit-IsCalm p id type w e h =
    on_store-IsCalm (append_next (p.uuid w.drawn) id w.now type)
      (append-calm (p.uuid w.drawn) id w.now type) (record w { drawn = suc w.drawn }) e h

-- The status of a reply is not the one of a conflict, if no error of the action is one.
answer-calm :
    (r : Result (Unit {0})) (a : Reply)
    → ((e : Error) → r ≡ err e → input_errors e ≢ some 409)
    → answer input_errors (λ _. reply 200 accepted) r ≡ ok a
    → a.status ≢ 409
answer-calm (ok x) a calm h = ground arith
answer-calm (err e) a calm h = ground (arith, calm e refl)

provide_input-IsCalm :
    (p : Platform) (id : Key) (response : Text) → IsCalm (provide_input p id response)
unfolding provide_input effects and_then or_throw stored
provide_input-IsCalm p id response w e h = elim (Option-cases (get_execution id w.store)) [
  | inl gone ↦
      let thrown : (provide_input p id response w).0 ≡ err (execution_not_found id) =
        rw gone refl in
      ground (arith, thrown, h)
  | inr (x, found) ↦ elim (Option-cases (get_input_request id w.store)) [
    | inl unasked ↦
        let thrown : (provide_input p id response w).0 ≡ err other = rw (found, unasked) refl in
        ground (arith, thrown, h)
    | inr (r, asked) ↦
        let said = respond_to_input_ok id response (seconds w) w.store r asked in
        let tail =
          bind-IsCalm (on_store (update_execution_status id running no_updates))
            (λ _. emit p id (input_provided r.id response)) (on_store-IsCalm _ (update-IsCalm id))
            (λ _. emit-IsCalm p id _) in
        let v : World = record w {
          store = record w.store {
            input_requests =
                update (λ q. q.id) r.id (with_response response (seconds w)) w.store.input_requests;
          };
        } in
        let goes : (provide_input p id response w).0
            ≡ ((on_store (update_execution_status id running no_updates)
                  >> emit p id (input_provided r.id response))
                v).0 =
          rw (found, asked, said) refl in
        tail v e (sym goes ∙ h)
  ]
]

-- Whatever the state of the execution and the body of the request, an answer that comes over HTTP is
-- never refused with the status 409 of a conflict.
pub post_input_no_conflict :
    (p : Platform) (w : World) (id : Key) (body : RequestBody (Option Text)) (r : Reply)
    → (post_input p id body w).0 ≡ ok r
    → r.status ≢ 409
unfolding post_input pure throw
post_input_no_conflict p w id malformed r h = ground arith
post_input_no_conflict p w id null_body r h = cc
post_input_no_conflict p w id (given none) r h = ground arith
post_input_no_conflict p w id (given (some [])) r h = ground arith
post_input_no_conflict p w id (given (some (c ∷ cs))) r h =
    answer-calm (provide_input p id (c ∷ cs) w).0 r (provide_input-IsCalm p id (c ∷ cs) w) h
