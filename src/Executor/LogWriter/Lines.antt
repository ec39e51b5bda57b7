-- ===== src/Executor/LogWriter/Lines.antt =====
-- How packages/executor/src/log-writer.ts cuts a text into lines.
use baara_next.Base.{ℕ, List, [], ◌∷◌, ◌==◌, if◌then◌else◌}
use baara_next.Core.Types.{Text}

-- `text.split("\n")`: the pieces before the last one, and the last one, which `pop` takes off.
pub record Cut : Type 0 where
  pub lines : List Text
  pub rest : Text

-- A code unit before the first piece.
abbrev pub before : ℕ → Cut → Cut
before c r = elim r.lines [
  | [] ↦ record { lines = []; rest = c ∷ r.rest }
  | line ∷ lines ↦ record { lines = (c ∷ line) ∷ lines; rest = r.rest }
]

abbrev pub cut : Text → Cut
cut [] = record { lines = []; rest = [] }
cut (c ∷ cs) =
    let r = cut cs in if c == 10 then record { lines = [] ∷ r.lines; rest = r.rest } else before c r
