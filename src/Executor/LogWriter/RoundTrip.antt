-- ===== src/Executor/LogWriter/RoundTrip.antt =====
-- What packages/executor/src/log-writer.ts writes and reads back.
use baara_next.Base.{
  List, [], ◌∷◌, ◌++◌, false, none, some, ◌≡◌, ◌≢◌, refl, arith, All, is_blank, length, take,
}
use mathlib.Core.List.{append_assoc, append-nil}
use baara_next.Core.Types.{Text}
use baara_next.Core.Json.{Codec, IsFaithful}
use baara_next.Executor.LogWriter.{
  LogEntry, append_entry, parse_line, ReadLogOptions, read_log_entries, select,
}
use baara_next.Executor.LogWriter.Lines.{cut}
use baara_next.Executor.LogWriter.Chunks.{concat, entries_of, read_log_entries_whole}

-- No filter and no page.
abbrev pub everything : ReadLogOptions
everything = record { level = none; search = none; limit = none; offset = none }

cut_line :
    (line rest : Text)
    → All (λ c. c ≢ 10) line
    → cut (line ++ 10 ∷ rest) ≡ record { lines = line ∷ (cut rest).lines; rest = (cut rest).rest }
cut_line [] rest h = refl
cut_line (c ∷ line) rest h = ground (arith, cut_line line rest h.1)

take-length {ℓ} : {A : Type ℓ} (xs : List A) → take (length xs) xs ≡ xs
take-length [] = refl
take-length (x ∷ xs) = ground (arith, take-length xs)

-- What `JSON.stringify` keeps to: the text of an object is one line and not blank, and is read back.
pub record IsLineFormat (codec : Codec LogEntry) : Type 0 where
  pub faithful : IsFaithful codec
  pub one_line : (e : LogEntry) → All (λ c. c ≢ 10) (codec.stringify e)
  pub not_blank : (e : LogEntry) → is_blank (codec.stringify e) ≡ false

module _ (codec : Codec LogEntry) (format : IsLineFormat codec) where
  -- The file after the entries are appended one by one.
  abbrev pub written : List LogEntry → Text → Text
  written [] content = content
  written (e ∷ es) content = written es (append_entry codec e content)

  abbrev lines_of : List LogEntry → Text
  lines_of [] = []
  lines_of (e ∷ es) = (codec.stringify e ++ 10 ∷ []) ++ lines_of es

  written-lines_of :
      (es : List LogEntry) (content : Text) → written es content ≡ content ++ lines_of es
  unfolding append_entry
  written-lines_of [] content = rw (append-nil content) refl
  written-lines_of (e ∷ es) content =
      let line = codec.stringify e ++ 10 ∷ [] in
      rw (written-lines_of es (content ++ line), append_assoc content line (lines_of es)) refl

  parse_line_read : (e : LogEntry) → parse_line codec (codec.stringify e) ≡ e ∷ []
  parse_line_read e = rw (parse_line, format.faithful e) refl

  entries_of-lines_of : (es : List LogEntry) → entries_of codec (lines_of es) ≡ es
  entries_of-lines_of [] = refl
  entries_of-lines_of (e ∷ es) =
      let text = codec.stringify e in
      rw
        (
          append_assoc text (10 ∷ []) (lines_of es),
          cut_line text (lines_of es) (format.one_line e),
          format.not_blank e,
          parse_line_read e,
          entries_of-lines_of es,
        )
        refl

  -- Let the text of an entry be one line, not blank, and read back. Entries that are appended one by
  -- one to an empty file are read back, all of them and in their order, however the file is cut into
  -- chunks.
  pub read_log_entries-append_entry :
      (lower : Text → Text) (es : List LogEntry) (chunks : List Text)
      → concat chunks ≡ written es []
      → read_log_entries lower codec (some chunks) everything ≡ es
  unfolding select
  read_log_entries-append_entry lower es chunks h =
      let whole = read_log_entries_whole codec lower chunks everything in
      let same : concat chunks ≡ lines_of es = rw h (written-lines_of es []) in
      rw (whole.0, same, entries_of-lines_of es) (take-length es)
