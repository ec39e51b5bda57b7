-- ===== src/Tests/Transport.antt =====
-- The loop of the HTTP transport against a server that answers the third poll.
use baara_next.Base.{ℕ, zero, suc, Option, ◌≡◌, ◌+◌, arith, [], ◌∷◌, none, some}
use baara_next.Core.Types.{Text, InputStatus, responded}
use baara_next.Transport.HttpTransport.{
  Poll, Reply, replied, aborted, InputState, Outcome, poll_input, poll_timeout_ms,
}
use baara_next.Transport.HttpTransport.Polling.{IsEarned, poll_input_terminates}

abbrev reply : ℕ → Reply InputState
reply zero = replied 200 (record { status = InputStatus.pending; response = none }) []
reply (suc zero) = aborted
reply (suc (suc n)) =
    replied 200 (record { status = responded; response = some (some (89 ∷ [])) }) []

abbrev polls : ℕ → Poll
polls n = record { reply = reply n; took = 30000 }

poll_input_terminates_example :
    (o : Outcome (Option Text)) × (end : ℕ) × (poll_input 151 [] polls 0 7 (7 + poll_timeout_ms)
      ≡ some (o, end))
    × IsEarned [] polls (7 + poll_timeout_ms) 30000 150 0 o end
poll_input_terminates_example =
    poll_input_terminates [] polls 7 30000 (λ i h. omega arith) (λ i. omega arith)
