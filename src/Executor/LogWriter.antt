-- ===== src/Executor/LogWriter.antt =====
-- The log files of packages/executor/src/log-writer.ts: one line of JSON for each entry.
use baara_next.Base.{
  ℕ, List, [], ◌∷◌, ◌++◌, Bool, true, false, Option, none, some, ◌==◌, ◌+◌, if◌then◌else◌, keep,
  take, drop, length, get_or, trim, is_blank, includes, same_text,
}
use baara_next.Core.Types.{Key, Text}
use baara_next.Core.Json.{Codec}
use baara_next.Executor.LogWriter.Lines.{cut}
pub mod Lines
pub mod Chunks
pub mod RoundTrip

-- `ts` is the date as it is written, `meta` the JSON text of the details.
pub record LogEntry : Type 0 where
  pub ts : Text
  pub level : Text
  pub msg : Text
  pub execution_id : Key
  pub thread_id : Option Key
  pub meta : Option Text

pub record ReadLogOptions : Type 0 where
  pub level : Option Text
  pub search : Option Text
  pub limit : Option ℕ
  pub offset : Option ℕ

-- The reader between two chunks of the file.
pub record Reader : Type 0 where
  pub buffer : Text
  pub entries : List LogEntry

-- An empty string counts as no filter.
abbrev pub asked : Option Text → Option Text
asked none = none
asked (some []) = none
asked (some (c ∷ cs)) = some (c ∷ cs)

module _ (codec : Codec LogEntry) where
  -- `append`: the content of the file afterwards.
  unfoldable pub append_entry : LogEntry → Text → Text
  append_entry entry content = content ++ (codec.stringify entry ++ 10 ∷ [])

  -- A line that is malformed is skipped.
  abbrev pub parse_line : Text → List LogEntry
  parse_line line = elim (codec.parse line) [ none ↦ [] | some entry ↦ entry ∷ [] ]

  abbrev pub parse_lines : List Text → List LogEntry
  parse_lines [] = []
  parse_lines (line ∷ rest) = (if is_blank line then [] else parse_line line) ++ parse_lines rest

  -- One turn of the loop of `readLogEntries`.
  unfoldable pub read_chunk : Text → Reader → Reader
  read_chunk chunk r =
      let c = cut (r.buffer ++ chunk) in
      record { buffer = c.rest; entries = r.entries ++ parse_lines c.lines }

  -- The line that no line feed ends.
  unfoldable pub finish : Reader → List LogEntry
  finish r = if is_blank r.buffer then r.entries else r.entries ++ parse_line (trim r.buffer)

  abbrev pub read_chunks : List Text → Reader → List LogEntry
  read_chunks [] r = finish r
  read_chunks (chunk ∷ chunks) r = read_chunks chunks (read_chunk chunk r)

-- `lower` is `toLowerCase`, the case mapping of Unicode.
module _ (lower : Text → Text) where
  unfoldable pub select : ReadLogOptions → List LogEntry → List LogEntry
  select options entries =
      let by_level : List LogEntry = elim (asked options.level) [
        | none ↦ entries
        | some level ↦ keep (λ e. same_text e.level (lower level)) entries
      ] in
      let found : List LogEntry = elim (asked options.search) [
        | none ↦ by_level
        | some needle ↦ keep (λ e. includes (lower needle) (lower e.msg)) by_level
      ] in
      let offset = get_or options.offset 0 in
      let limit = get_or options.limit (length found) in take limit (drop offset found)

  -- `readLogEntries`: no file, or the decoded chunks of one; offset and limit are not negative.
  unfoldable pub read_log_entries :
      Codec LogEntry → Option (List Text) → ReadLogOptions → List LogEntry
  read_log_entries codec none options = []
  read_log_entries codec (some chunks) options =
      select options (read_chunks codec chunks (record { buffer = []; entries = [] }))
