-- ===== src/Transport/HttpTransport/Polling.antt =====
-- The end of the polling loop of packages/transport/src/http-transport.ts.
use baara_next.Base.{
  ℕ, zero, suc, ◌+◌, ◌*◌, ◌≤◌, ◌<◌, ◌≡◌, refl, arith, false, Option, none, some, ◌⊎◌, inl, inr,
  Bool-cases, ltb,
}
use baara_next.Core.Types.{Text, InputStatus, responded, timed_out}
use baara_next.Transport.HttpTransport.{
  Reply, replied, aborted, failed, Outcome, thrown, InputState, Poll, Verdict, stop_with, go_on,
  is_success, judge_state, judge, unanswered, poll_input, poll_timeout_ms,
}

state_wait :
    (id : Text) (s : InputStatus) (r : Option (Option Text)) (wait : ℕ)
    → judge_state id s r ≡ go_on wait
    → wait ≡ 2000
state_wait id responded (some text) wait h = cc
state_wait id responded none wait h = ground arith
state_wait id timed_out r wait h = cc
state_wait id InputStatus.pending r wait h = ground arith

-- Between two polls pass two seconds at least, if a poll that the client aborts takes that long.
round_wait :
    (id : Text) (r : Reply InputState) (took wait : ℕ)
    → (r ≡ aborted → 2000 ≤ took)
    → judge id r ≡ go_on wait
    → 2000 ≤ took + wait
round_wait id (replied status body text) took wait slow h = elim (Bool-cases (is_success status)) [
  | inl good ↦
      let same : judge_state id body.status body.response ≡ go_on wait = ground arith in
      let two = state_wait id body.status body.response wait same in omega arith
  | inr bad ↦ ground arith
]
round_wait id aborted took wait slow h = let long = slow refl in omega arith
round_wait id (failed message) took wait slow h = cc

verdicts :
    (v : Verdict)
    → ((o : Outcome (Option Text)) × (v ≡ stop_with o)) ⊎ ((wait : ℕ) × (v ≡ go_on wait))
verdicts (stop_with o) = inl (o, refl)
verdicts (go_on wait) = inr (wait, refl)

wait_small : (id : Text) (r : Reply InputState) (wait : ℕ) → judge id r ≡ go_on wait → wait ≤ 2000
wait_small id (replied status body text) wait h = elim (Bool-cases (is_success status)) [
  | inl good ↦
      let same : judge_state id body.status body.response ≡ go_on wait = ground arith in
      let two = state_wait id body.status body.response wait same in omega arith
  | inr bad ↦ ground arith
]
wait_small id aborted wait h = ground arith
wait_small id (failed message) wait h = cc

module _ (id : Text) (polls : ℕ → Poll) (deadline longest : ℕ) where
  -- The outcome is what one of the polls says, and that poll began before the deadline; or it is that
  -- none did, and the deadline has passed. No poll takes longer than the longest, and no wait longer than
  -- two seconds.
  abbrev pub IsEarned : (fuel n : ℕ) → Outcome (Option Text) → (end : ℕ) → Type 0
  IsEarned fuel n o end =
      (((i : ℕ) × (n ≤ i) × (i ≤ n + fuel) × (judge id (polls i).reply ≡ stop_with o))
        × (end < deadline + longest))
      ⊎ ((o ≡ thrown (unanswered id)) × (deadline ≤ end) × (end < deadline + longest + 2000))

  further :
      (fuel n : ℕ) (o : Outcome (Option Text)) (end : ℕ)
      → IsEarned fuel (suc n) o end
      → IsEarned (suc fuel) n o end
  further fuel n o end (inl ((i, from, to, says), soon)) =
      inl ((i, omega arith, omega arith, says), soon)
  further fuel n o end (inr late) = inr late

  poll_input-ends :
      (fuel n now : ℕ)
      → ((i : ℕ) → (polls i).reply ≡ aborted → 2000 ≤ (polls i).took)
      → ((i : ℕ) → (polls i).took ≤ longest)
      → deadline ≤ now + 2000 * fuel
      → now < deadline + longest + 2000
      → (o : Outcome (Option Text)) × (end : ℕ) × (poll_input (suc fuel) id polls n now deadline
          ≡ some (o, end))
        × IsEarned fuel n o end
  unfolding poll_input
  poll_input-ends zero n now slow quick near soon =
      let over : ltb now deadline ≡ false = ground arith in
      (thrown (unanswered id), now, rw (poll_input, over) refl, inr (refl, omega arith, soon))
  poll_input-ends (suc fuel) n now slow quick near soon = elim (Bool-cases (ltb now deadline)) [
    | inr over ↦
        (thrown (unanswered id), now, rw (poll_input, over) refl, inr (refl, ground arith, soon))
    | inl early ↦
        let took = (polls n).took in
        let short : took ≤ longest = quick n in
        let before : now < deadline = ground arith in
        elim (verdicts (judge id (polls n).reply)) [
          | inl (o, stops) ↦ (
            o,
            now + took,
            rw (poll_input, early, stops) refl,
            inl ((n, omega arith, omega arith, stops), omega arith),
          )
          | inr (wait, goes) ↦
              let long = round_wait id (polls n).reply took wait (slow n) goes in
              let small = wait_small id (polls n).reply wait goes in
              let later : deadline ≤ now + took + wait + 2000 * fuel = omega arith in
              let (o, end, ends, earned) =
                poll_input-ends fuel (suc n) (now + took + wait) slow quick later (omega arith) in
              (o, end, rw (poll_input, early, goes) ends, further fuel n o end earned)
        ]
  ]

-- The wait for input always ends. If a poll that the client's timer aborts takes at least two seconds
-- (the timer gives it thirty), and no poll takes longer than `longest`, then after at most 151 rounds
-- it ends in one of two ways: it returns or throws what one of the polls says, before the deadline of
-- five minutes plus `longest`; or it throws that there was no answer, not before the deadline and less
-- than `longest` and two seconds after it.
pub poll_input_terminates :
    (id : Text) (polls : ℕ → Poll) (now longest : ℕ)
    → ((i : ℕ) → (polls i).reply ≡ aborted → 2000 ≤ (polls i).took)
    → ((i : ℕ) → (polls i).took ≤ longest)
    → (o : Outcome (Option Text)) × (end : ℕ) × (poll_input 151 id polls 0 now
          (now + poll_timeout_ms)
        ≡ some (o, end))
      × IsEarned id polls (now + poll_timeout_ms) longest 150 0 o end
poll_input_terminates id polls now longest slow quick =
    poll_input-ends id polls (now + poll_timeout_ms) longest 150 0 now slow quick (omega arith)
      (omega arith)
