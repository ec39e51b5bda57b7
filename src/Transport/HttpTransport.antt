-- ===== src/Transport/HttpTransport.antt =====
-- `HttpTransport` of packages/transport/src/http-transport.ts, from the replies of the server.
use baara_next.Base.{
  ℕ, zero, suc, ◌+◌, ◌*◌, List, [], ◌∷◌, ◌++◌, Bool, true, false, ◌&&◌, Option, none, some,
  if◌then◌else◌, leb, ltb, ◌==◌, codes, decimal,
}
use baara_next.Core.Types.{Text, InputStatus, responded, timed_out}
use baara_next.Orchestrator.Service.Match.{TaskAssignment}
pub mod Polling

-- `baseUrl.replace(/\/$/, "")`
abbrev pub strip_slash : Text → Text
strip_slash [] = []
strip_slash (c ∷ []) = if c == 47 then [] else c ∷ []
strip_slash (c ∷ d ∷ rest) = c ∷ strip_slash (d ∷ rest)

-- What a call of `fetch` ends with: a status and a body, the abort of the client's timer, or an error.
pub data Reply (A : Type 0) : Type 0 where
  replied : (status : ℕ) → (body : A) → (text : Text) → Reply A
  aborted : Reply A
  failed : (message : Text) → Reply A

pub data Outcome (A : Type 0) : Type 0 where
  returned : A → Outcome A
  thrown : (message : Text) → Outcome A

-- `res.ok`
abbrev pub is_success : ℕ → Bool
is_success status = leb 200 status && leb status 299

abbrev pub http_error : Text → ℕ → Text → Text
http_error call status text = call ++ codes " HTTP " ++ decimal status ++ codes ": " ++ text

-- `pollTask`
abbrev pub poll_task : Reply (Option TaskAssignment) → Outcome (Option TaskAssignment)
poll_task (replied status body text) =
    if status == 204
    then returned none
    else if is_success status
    then returned body
    else thrown (http_error (codes "pollTask") status text)
poll_task aborted = returned none
poll_task (failed message) = thrown message

-- `startExecution`, `completeExecution` and `heartbeat`, with the name of the call.
abbrev pub notify_server : Text → Reply (Unit {0}) → Outcome (Unit {0})
notify_server call (replied status body text) =
    if is_success status then returned tt else thrown (http_error call status text)
notify_server call aborted = thrown (codes "aborted")
notify_server call (failed message) = thrown message

-- The body of a poll for input. The response may be missing, and it may be null, as the server sends
-- it for a request that has none.
pub record InputState : Type 0 where
  pub status : InputStatus
  pub response : Option (Option Text)

-- A reply to a poll and how long it took.
pub record Poll : Type 0 where
  pub reply : Reply InputState
  pub took : ℕ

-- What one poll says: the answer, an error, or that the loop goes on after a wait.
pub data Verdict : Type 0 where
  stop_with : Outcome (Option Text) → Verdict
  go_on : (wait : ℕ) → Verdict

abbrev pub poll_interval_ms : ℕ
poll_interval_ms = 2000

abbrev pub poll_timeout_ms : ℕ
poll_timeout_ms = 300000

abbrev pub expired : Text → Text
expired id = codes "timed_out: input request " ++ id ++ codes " expired"

abbrev pub unanswered : Text → Text
unanswered id =
    codes "timed_out: input request "
    ++ id
    ++ codes " not answered within "
    ++ decimal poll_timeout_ms
    ++ codes "ms"

abbrev pub judge_state : (id : Text) → InputStatus → (response : Option (Option Text)) → Verdict
judge_state id responded (some text) = stop_with (returned text)
judge_state id responded none = go_on poll_interval_ms
judge_state id timed_out response = stop_with (thrown (expired id))
judge_state id InputStatus.pending response = go_on poll_interval_ms

-- The body of the loop.
abbrev pub judge : (id : Text) → Reply InputState → Verdict
judge id (replied status body text) =
    if is_success status
    then judge_state id body.status body.response
    else stop_with (thrown (http_error (codes "requestInput (poll)") status text))
judge id aborted = go_on 0
judge id (failed message) = stop_with (thrown message)

-- The loop of `requestInput`, on fuel; `none` is a loop that is not over. `polls n` is the n-th poll. The
-- end comes with the clock at that time; a wait takes the time that is asked for.
unfoldable pub poll_input :
    (fuel : ℕ) (id : Text) (polls : ℕ → Poll) (n now deadline : ℕ)
    → Option (Outcome (Option Text) × ℕ)
poll_input zero id polls n now deadline = none
poll_input (suc fuel) id polls n now deadline =
    if ltb now deadline
    then elim (judge id (polls n).reply) [
      | stop_with outcome ↦ some (outcome, now + (polls n).took)
      | go_on wait ↦ poll_input fuel id polls (suc n) (now + (polls n).took + wait) deadline
    ]
    else some (thrown (unanswered id), now)
