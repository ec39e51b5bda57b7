-- ===== src/Agent/Hitl.antt =====
-- `requestInput` of packages/agent/src/hitl.ts.
use baara_next.Base.{Bool, ◌||◌, if◌then◌else◌, codes, includes}
use baara_next.Core.Types.{Key, Text}

-- What a transport throws: the error of a timeout, another `Error` with its message, or anything.
pub data Thrown : Type 0 where
  input_timeout : (execution_id : Key) → Thrown
  plain_error : (message : Text) → Thrown
  anything : Thrown

pub data Answered : Type 0 where
  response : Text → Answered
  thrown : Thrown → Answered

abbrev pub speaks_of_timeout : Text → Bool
speaks_of_timeout message =
    includes (codes "timed_out") message || includes (codes "timeout") message

-- What the wrapper makes of the answer of the transport.
abbrev pub request_answer : (execution_id : Key) → Answered → Answered
request_answer execution_id (response r) = response r
request_answer execution_id (thrown (input_timeout k)) = thrown (input_timeout k)
request_answer execution_id (thrown (plain_error message)) =
    if speaks_of_timeout message
    then thrown (input_timeout execution_id)
    else thrown (plain_error message)
request_answer execution_id (thrown anything) = thrown anything
