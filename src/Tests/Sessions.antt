-- ===== src/Tests/Sessions.antt =====
-- Runs in the sandboxes, and the log files, at concrete values.
use baara_next.Base.{ℕ, ◌≡◌, refl, List, [], ◌∷◌, ◌++◌, Bool, true, false, none, some, codes, take}
use baara_next.Core.Errors.{ok}
use baara_next.Core.Types.{completed, Text}
use baara_next.Executor.EventStream.{StreamCall, next, push, close, fresh_stream, run_stream}
use baara_next.Executor.EventStream.Order.{delivered, requests, numbers, run_stream-in_order}
use baara_next.Executor.LogWriter.{LogEntry, read_log_entries, select, append_entry}
use baara_next.Executor.LogWriter.Chunks.{concat, entries_of, read_log_entries_whole}
use baara_next.Executor.LogWriter.RoundTrip.{written, everything, read_log_entries-append_entry}
use baara_next.Executor.MessageBus.{read_pending_commands}
use baara_next.Executor.Registries.{Runtime}
use baara_next.Executor.Sdk.{MessageKind, Tick, Arrival, exhausted}
use baara_next.Executor.CloudCode.{execute_cloud, no_totals}
use baara_next.Executor.CloudCode.Agreement.{execute_native-execute_cloud, execute_cloud-aborted}
use baara_next.Executor.NativeSandbox.{Session, Host, Run, execute_native}
use baara_next.Executor.NativeSandbox.Commands.{poll_commands}
use baara_next.Executor.NativeSandbox.Polling.{poll_commands-outstanding}
use baara_next.Tests.Wire.{codec_of-IsFaithful, command_wire, line_codec, line_codec-IsLineFormat}
use baara_next.Tests.Executor.{formats, bus_with, waiting_row, waiting-Represents}

abbrev stream_calls : List (StreamCall ℕ)
stream_calls = next ∷ push 5 ∷ push 6 ∷ push 7 ∷ next ∷ close ∷ []

run_stream-in_order_example :
    (delivered (run_stream stream_calls fresh_stream).answers
        ++ (run_stream stream_calls fresh_stream).event_queue
      ≡ 5 ∷ 6 ∷ 7 ∷ [])
    × (requests (run_stream stream_calls fresh_stream).answers
          ++ (run_stream stream_calls fresh_stream).event_resolvers
        ≡ numbers (run_stream stream_calls fresh_stream).issued)
run_stream-in_order_example = run_stream-in_order stream_calls

abbrev line : (level : Text) → LogEntry
line level = record {
  ts = 49 ∷ [];
  level = level;
  msg = 72 ∷ [];
  execution_id = 30;
  thread_id = none;
  meta = none;
}

abbrev entries : List LogEntry
entries = line (codes "info") ∷ line (codes "warn") ∷ []

abbrev file : Text
file = written line_codec line_codec-IsLineFormat entries []

read_log_entries_whole_example :
    (read_log_entries (λ t. t) line_codec (some (take 7 file ∷ [] ∷ file ∷ [])) everything
      ≡ select (λ t. t) everything (entries_of line_codec (concat (take 7 file ∷ [] ∷ file ∷ []))))
    × (read_log_entries (λ t. t) line_codec none everything ≡ [])
read_log_entries_whole_example =
    read_log_entries_whole line_codec (λ t. t) (take 7 file ∷ [] ∷ file ∷ []) everything

read_log_entries-append_entry_example :
    read_log_entries (λ t. t) line_codec (some (file ∷ [] ∷ [])) everything ≡ entries
unfolding append_entry
read_log_entries-append_entry_example =
    read_log_entries-append_entry line_codec line_codec-IsLineFormat (λ t. t) entries
      (file ∷ [] ∷ []) refl

abbrev two_runtimes : List Runtime
two_runtimes =
    (record { name = 15; capabilities = 1 ∷ 2 ∷ [] })
    ∷ (record { name = 17; capabilities = 3 ∷ 2 ∷ [] })
    ∷ []

abbrev host : Host
host = record { formats = formats; key_text = λ k. k ∷ []; error_text = λ e. [] }

abbrev session : Session
session = record {
  stream = fresh_stream;
  conversation_history = [];
  pending_prompts = [];
  paused = false;
  totals = no_totals;
  turn_count = 0;
  bus = none;
}

abbrev tick : Tick
tick = record { id = 70; message_id = 71; timestamp = 9; now = 9 }

abbrev said : (aborted : Bool) → Arrival
said aborted = record {
  message = record {
    kind = MessageKind.text (72 ∷ []);
    result = some (82 ∷ []);
    turn_usage = some (record { input_tokens = some 3; output_tokens = none });
    usage = none;
  };
  aborted = aborted;
  tick = tick;
}

abbrev run : Run
run = record {
  ending = exhausted;
  aborted = false;
  timeout = 1000;
  duration = 12;
  started = 8;
  last = tick;
}

execute_native-execute_cloud_example :
    (execute_native host 30 (said false ∷ said false ∷ []) run none session).0
    ≡ execute_cloud (said false ∷ said false ∷ []) exhausted false 1000 12
execute_native-execute_cloud_example =
    execute_native-execute_cloud host 30 (said false ∷ said false ∷ []) run none session refl

execute_cloud-aborted_example :
    (execute_cloud (said false ∷ said true ∷ said false ∷ []) exhausted true 1000 12
      ≡ execute_cloud (said false ∷ []) exhausted true 1000 12)
    × ((execute_cloud (said false ∷ said true ∷ said false ∷ []) exhausted true 1000 12).status
        ≡ completed)
execute_cloud-aborted_example =
    execute_cloud-aborted (said false ∷ []) (said true) (said false ∷ []) exhausted true 1000 12
      refl

poll_commands-outstanding_example :
    (t : Session) × (after : _) × (poll_commands host 30 10
        (record session { bus = some (bus_with (waiting_row ∷ [])) })
      ≡ ok t)
    × (t.pending_prompts ≡ (65 ∷ []) ∷ [])
    × (t.paused ≡ false)
    × (t.bus ≡ some after)
    × (read_pending_commands formats 30 after ≡ ok [])
poll_commands-outstanding_example =
    poll_commands-outstanding host 30 10 8
      (record session { bus = some (bus_with (waiting_row ∷ [])) }) (bus_with (waiting_row ∷ [])) _
      (codec_of-IsFaithful command_wire) waiting-Represents refl
