-- ===== src/Web/ChatStore/Calls.antt =====
-- The tool calls of an answer in packages/web/src/stores/chat-store.ts.
use baara_next.Base.{
  List, [], ◌∷◌, ◌++◌, true, some, ◌≡◌, arith, Option, is_some, inl, inr, map, Option-cases,
}
use baara_next.Core.Types.{Key, Text}
use baara_next.Web.ChatStore.{ChatMessage, ToolCall, fill_call, fill_last, complete_call}

-- Only the last tool call may wait for its output.
abbrev pub IsSettled : List ToolCall → Type 0
IsSettled [] = Unit
IsSettled (c ∷ []) = Unit
IsSettled (c ∷ d ∷ cs) = (is_some c.output ≡ true) × IsSettled (d ∷ cs)

pub add_call-IsSettled :
    (cs : List ToolCall) (c : ToolCall) → IsSettled (map complete_call cs ++ c ∷ [])
add_call-IsSettled [] c = tt
add_call-IsSettled (d ∷ []) c = ground arith
add_call-IsSettled (d ∷ e ∷ cs) c = ground (arith, add_call-IsSettled (e ∷ cs) c)

pub complete-IsSettled : (cs : List ToolCall) → IsSettled (map complete_call cs)
complete-IsSettled [] = tt
complete-IsSettled (d ∷ []) = tt
complete-IsSettled (d ∷ e ∷ cs) = ground (arith, complete-IsSettled (e ∷ cs))

cons-IsSettled :
    (c : ToolCall) (cs : List ToolCall)
    → is_some c.output ≡ true
    → IsSettled cs
    → IsSettled (c ∷ cs)
cons-IsSettled c [] h g = tt
cons-IsSettled c (d ∷ cs) h g = (h, g)

fill_last-IsSettled :
    (name : Key) (output : Option Text) (cs filled : List ToolCall)
    → fill_last name output cs ≡ some filled
    → IsSettled cs
    → IsSettled filled
fill_last-IsSettled name output [] filled h g = cc
fill_last-IsSettled name output (c ∷ []) filled h g = ground arith
fill_last-IsSettled name output (c ∷ d ∷ cs) filled h g =
    elim (Option-cases (fill_last name output (d ∷ cs))) [
      | inl closed ↦ ground (arith, closed)
      | inr (rest, opened) ↦
          let settled = fill_last-IsSettled name output (d ∷ cs) rest opened g.1 in
          ground (arith, opened, settled, cons-IsSettled c rest g.0 settled)
    ]

pub fill_call-IsSettled :
    (name : Key) (output : Option Text) (m : ChatMessage)
    → IsSettled m.tool_calls
    → IsSettled (fill_call name output m).tool_calls
unfolding fill_call
fill_call-IsSettled name output m h = elim (Option-cases (fill_last name output m.tool_calls)) [
  | inl closed ↦ rw closed h
  | inr (filled, opened) ↦ rw opened (fill_last-IsSettled name output m.tool_calls filled opened h)
]
