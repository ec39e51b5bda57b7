-- ===== src/Executor/EventStream/Order.antt =====
-- In what order the event iterator of packages/executor/src/sandboxes/native.ts answers.
use baara_next.Base.{
  ℕ, zero, suc, List, [], ◌∷◌, ◌++◌, Bool, true, none, some, ◌≡◌, refl, ap, arith, map, subst, ◌⊎◌,
  inl, inr, Bool-cases,
}
use mathlib.Core.List.{append_assoc, append-nil}
use baara_next.Executor.EventStream.{
  Answer, EventStream, StreamCall, next, close, push, fresh_stream, answer_of, next_event,
  push_event, close_events, stream_step, run_stream,
}

-- The numbers below n.
abbrev pub numbers : ℕ → List ℕ
numbers zero = []
numbers (suc n) = numbers n ++ n ∷ []

abbrev pub requests {ℓ} : {A : Type ℓ} → List (Answer A) → List ℕ
requests = map (λ a. a.request)

unfoldable ends {ℓ} : {A : Type ℓ} → List ℕ → List (Answer A)
ends rs = map (λ r. answer_of r none) rs

requests-ends {ℓ} : (A : Type ℓ) (rs : List ℕ) → requests {A = A} (ends rs) ≡ rs
unfolding ends
requests-ends A [] = refl
requests-ends A (r ∷ rs) = ap (λ l. r ∷ l) (requests-ends A rs)

module _ {ℓ} {A : Type ℓ} where
  abbrev pub delivered : List (Answer A) → List A
  delivered [] = []
  delivered (a ∷ rest) = elim a.result [ none ↦ delivered rest | some e ↦ e ∷ delivered rest ]

  abbrev pub pushed : List (StreamCall A) → List A
  pushed [] = []
  pushed (next ∷ cs) = pushed cs
  pushed (close ∷ cs) = pushed cs
  pushed (push e ∷ cs) = e ∷ pushed cs

  -- What the stream keeps to, after the events `sent`.
  record Follows (sent : List A) (s : EventStream A) : Type ℓ where
    nothing_lost : delivered s.answers ++ s.event_queue ≡ sent
    in_turn : requests s.answers ++ s.event_resolvers ≡ numbers s.issued
    one_side : (s.event_queue ≡ []) ⊎ (s.event_resolvers ≡ [])
    ended : s.done ≡ true → s.event_resolvers ≡ []

  delivered-append : (xs ys : List (Answer A)) → delivered (xs ++ ys) ≡ delivered xs ++ delivered ys
  delivered-append [] ys = refl
  delivered-append (a ∷ xs) ys = ground (arith, delivered-append xs ys)

  requests-append : (xs ys : List (Answer A)) → requests (xs ++ ys) ≡ requests xs ++ requests ys
  requests-append [] ys = refl
  requests-append (a ∷ xs) ys = ground (arith, requests-append xs ys)

  delivered-ends : (rs : List ℕ) → delivered (ends rs) ≡ []
  unfolding ends
  delivered-ends [] = refl
  delivered-ends (r ∷ rs) = delivered-ends rs

  module _ (sent : List A) (done : Bool) (issued : ℕ) (answers : List (Answer A)) where
    abbrev stream_of : List A → List ℕ → EventStream A
    stream_of q rs = record {
      event_queue = q;
      event_resolvers = rs;
      done = done;
      issued = issued;
      answers = answers;
    }

    next_event-Follows :
        (q : List A) (rs : List ℕ)
        → Follows sent (stream_of q rs)
        → Follows sent (next_event (stream_of q rs))
    unfolding next_event
    next_event-Follows (e ∷ q) (r ∷ rs) f = ground arith
    next_event-Follows (e ∷ q) [] f = record {
      nothing_lost =
          rw
            (
              delivered-append answers (answer_of issued (some e) ∷ []),
              append_assoc (delivered answers) (e ∷ []) q,
            )
            f.nothing_lost;
      in_turn =
          rw
            (
              append-nil (requests (answers ++ answer_of issued (some e) ∷ [])),
              requests-append answers (answer_of issued (some e) ∷ []),
              ← f.in_turn,
              append-nil (requests answers),
            )
            refl;
      one_side = inr refl;
      ended = λ h. refl;
    }
    next_event-Follows [] rs f = elim (Bool-cases done) [
      | inl closed ↦
          let none_left : rs ≡ [] = f.ended closed in
          let nil = append-nil (requests answers) in
          let full : requests answers ≡ numbers issued = cc in
          let added = requests-append answers (answer_of issued none ∷ []) in
          rw closed (record {
            nothing_lost =
                rw (delivered-append answers (answer_of issued none ∷ []))
                  (rw (append-nil (delivered answers ++ [])) f.nothing_lost);
            in_turn = rw (none_left, append-nil _, added, full) refl;
            one_side = inl refl;
            ended = λ h. none_left;
          })
      | inr live ↦ rw live (record {
        nothing_lost = f.nothing_lost;
        in_turn = rw (← append_assoc (requests answers) rs (issued ∷ []), f.in_turn) refl;
        one_side = inl refl;
        ended = λ h. ground arith;
      })
    ]

    push_event-Follows :
        (e : A) (q : List A) (rs : List ℕ)
        → Follows sent (stream_of q rs)
        → Follows (sent ++ e ∷ []) (push_event e (stream_of q rs))
    unfolding push_event
    push_event-Follows e q [] f = record {
      nothing_lost = rw (← f.nothing_lost, append_assoc (delivered answers) q (e ∷ [])) refl;
      in_turn = f.in_turn;
      one_side = inr refl;
      ended = f.ended;
    }
    push_event-Follows e (x ∷ q) (r ∷ rs) f = ground arith
    push_event-Follows e [] (r ∷ rs) f = record {
      nothing_lost =
          rw
            (
              delivered-append answers (answer_of r (some e) ∷ []),
              append-nil (delivered answers ++ e ∷ []),
              ← f.nothing_lost,
              append-nil (delivered answers),
            )
            refl;
      in_turn =
          rw
            (
              requests-append answers (answer_of r (some e) ∷ []),
              append_assoc (requests answers) (r ∷ []) rs,
            )
            f.in_turn;
      one_side = inl refl;
      ended = ground arith;
    }

    close_events-Follows :
        (q : List A) (rs : List ℕ)
        → Follows sent (stream_of q rs)
        → Follows sent (close_events (stream_of q rs))
    unfolding close_events ends
    close_events-Follows q rs f = record {
      nothing_lost =
          rw (delivered-append answers (ends rs), delivered-ends rs, append-nil (delivered answers))
            f.nothing_lost;
      in_turn =
          rw
            (
              append-nil (requests (answers ++ ends rs)),
              requests-append answers (ends rs),
              requests-ends A rs,
            )
            f.in_turn;
      one_side = inr refl;
      ended = λ h. refl;
    }

  step-Follows :
      (c : StreamCall A) (sent : List A) (s : EventStream A)
      → Follows sent s
      → Follows (sent ++ pushed (c ∷ [])) (stream_step c s)
  unfolding stream_step
  step-Follows next sent s f =
      rw (append-nil sent)
        (next_event-Follows sent s.done s.issued s.answers s.event_queue s.event_resolvers f)
  step-Follows (push e) sent s f =
      push_event-Follows sent s.done s.issued s.answers e s.event_queue s.event_resolvers f
  step-Follows close sent s f =
      rw (append-nil sent)
        (close_events-Follows sent s.done s.issued s.answers s.event_queue s.event_resolvers f)

  pushed_first :
      (c : StreamCall A) (cs : List (StreamCall A)) (sent : List A)
      → (sent ++ pushed (c ∷ [])) ++ pushed cs ≡ sent ++ pushed (c ∷ cs)
  pushed_first next cs sent = rw (append-nil sent) refl
  pushed_first (push e) cs sent = append_assoc sent (e ∷ []) (pushed cs)
  pushed_first close cs sent = rw (append-nil sent) refl

  run-Follows :
      (cs : List (StreamCall A)) (sent : List A) (s : EventStream A)
      → Follows sent s
      → Follows (sent ++ pushed cs) (run_stream cs s)
  run-Follows [] sent s f = rw (append-nil sent) f
  run-Follows (c ∷ cs) sent s f =
      let rest =
        run-Follows cs (sent ++ pushed (c ∷ [])) (stream_step c s) (step-Follows c sent s f) in
      subst (λ l. Follows l (run_stream (c ∷ cs) s)) (pushed_first c cs sent) rest

  -- Whatever the order of calls of `next`, `pushEvent` and `closeEvents` on a new iterator, the events
  -- that its consumer was given and then those in the queue are the events pushed, in that order; and
  -- the calls of `next` are answered in the order in which they are made, those without an answer last.
  pub run_stream-in_order :
      (cs : List (StreamCall A))
      → (delivered (run_stream cs fresh_stream).answers ++ (run_stream cs fresh_stream).event_queue
          ≡ pushed cs)
        × (requests (run_stream cs fresh_stream).answers
              ++ (run_stream cs fresh_stream).event_resolvers
            ≡ numbers (run_stream cs fresh_stream).issued)
  run_stream-in_order cs =
      let f =
        run-Follows cs [] fresh_stream (record {
          nothing_lost = refl;
          in_turn = refl;
          one_side = inl refl;
          ended = λ h. refl;
        }) in
      (f.nothing_lost, f.in_turn)
