-- ===== src/Executor/LogWriter/Chunks.antt =====
-- The chunks in which packages/executor/src/log-writer.ts reads a file.
use baara_next.Base.{
  List, [], ◌∷◌, ◌++◌, none, some, ◌≡◌, refl, arith, if◌then◌else◌, Bool-cases, trim, is_blank, inl,
  inr,
}
use mathlib.Core.List.{append_assoc, append-nil}
use baara_next.Core.Types.{Text}
use baara_next.Core.Json.{Codec}
use baara_next.Executor.LogWriter.{
  LogEntry, Reader, parse_line, parse_lines, read_chunk, finish, read_chunks, ReadLogOptions,
  read_log_entries, select,
}
use baara_next.Executor.LogWriter.Lines.{cut}

abbrev pub concat : List Text → Text
concat [] = []
concat (x ∷ xs) = x ++ concat xs

cut-append :
    (xs ys : Text)
    → cut (xs ++ ys) ≡ record {
      lines = (cut xs).lines ++ (cut ((cut xs).rest ++ ys)).lines;
      rest = (cut ((cut xs).rest ++ ys)).rest;
    }
cut-append [] ys = refl
cut-append (c ∷ xs) ys = ground (arith, cut-append xs ys)

module _ (codec : Codec LogEntry) where
  -- The entries of a whole file: those of its lines, and that of a last line without line feed.
  abbrev pub entries_of : Text → List LogEntry
  entries_of text =
      parse_lines codec (cut text).lines
      ++ (if is_blank (cut text).rest then [] else parse_line codec (trim (cut text).rest))

  parse_lines-append :
      (xs ys : List Text)
      → parse_lines codec (xs ++ ys) ≡ parse_lines codec xs ++ parse_lines codec ys
  parse_lines-append [] ys = refl
  parse_lines-append (x ∷ xs) ys =
      let first = if is_blank x then [] else parse_line codec x in
      rw
        (parse_lines-append xs ys, append_assoc first (parse_lines codec xs) (parse_lines codec ys))
        refl

  -- The reader after the text so far.
  abbrev reader_at : Text → Reader
  reader_at text = record { buffer = (cut text).rest; entries = parse_lines codec (cut text).lines }

  read_chunk-reader_at :
      (text chunk : Text) → read_chunk codec chunk (reader_at text) ≡ reader_at (text ++ chunk)
  unfolding read_chunk
  read_chunk-reader_at text chunk =
      let more = (cut ((cut text).rest ++ chunk)).lines in
      rw (cut-append text chunk, parse_lines-append (cut text).lines more) refl

  finish_lem :
      (r : Reader)
      → finish codec r
        ≡ r.entries ++ (if is_blank r.buffer then [] else parse_line codec (trim r.buffer))
  unfolding finish
  finish_lem r = elim (Bool-cases (is_blank r.buffer)) [
    | inl blank ↦ rw (blank, append-nil r.entries) refl
    | inr more ↦ rw more refl
  ]

  read_chunks-reader_at :
      (text : Text) (chunks : List Text)
      → read_chunks codec chunks (reader_at text) ≡ entries_of (text ++ concat chunks)
  read_chunks-reader_at text [] = rw (append-nil text) (finish_lem (reader_at text))
  read_chunks-reader_at text (chunk ∷ chunks) =
      rw (read_chunk-reader_at text chunk, ← append_assoc text chunk (concat chunks))
        (read_chunks-reader_at (text ++ chunk) chunks)

  -- However a file is cut into chunks, lines across chunks included, reading it selects from the
  -- entries of the lines of the whole file; a file that is not there has no entries.
  pub read_log_entries_whole :
      (lower : Text → Text) (chunks : List Text) (options : ReadLogOptions)
      → (read_log_entries lower codec (some chunks) options
          ≡ select lower options (entries_of (concat chunks)))
        × (read_log_entries lower codec none options ≡ [])
  unfolding read_log_entries
  read_log_entries_whole lower chunks options = (rw (read_chunks-reader_at [] chunks) refl, refl)
