-- ===== src/Tests/Wire.antt =====
-- A way of writing values as text that is read back, in place of JSON.
use baara_next.Base.{
  ℕ, zero, suc, ◌+◌, ◌-◌, ◌≡◌, ◌≢◌, refl, ap, ◌∙◌, List, [], ◌∷◌, ◌++◌, false, Option, none, some,
  arith, All, map, map_some, length, is_blank,
}
use mathlib.Core.List.{append_assoc, append-nil}
use baara_next.Core.Types.{Text}
use baara_next.Core.Json.{Codec, IsFaithful}
use baara_next.Core.Conversation.{
  Checkpoint, ConversationMessage, Speaker, user, assistant, Content, blocks, InboundCommand,
  command, hitl_response, pause, resume,
}
use baara_next.Executor.LogWriter.{LogEntry}
use baara_next.Executor.LogWriter.RoundTrip.{IsLineFormat}

-- Writing, and reading from the front of a text.
pub record Wire (A : Type 0) : Type 0 where
  put : A → Text
  get : Text → Option (A × Text)
  law : (a : A) (rest : Text) → get (put a ++ rest) ≡ some (a, rest)

abbrev get_number : Text → Option (ℕ × Text)
get_number [] = none
get_number (n ∷ rest) = some (n, rest)

abbrev pub number : Wire ℕ
number = record { put = λ n. n ∷ []; get = get_number; law = λ n rest. refl }

abbrev after :
    {A B : Type 0} → Option (A × Text) → (A → Text → Option (B × Text)) → Option (B × Text)
after none f = none
after (some (a, rest)) f = f a rest

module _ {A B : Type 0} where
  -- One after the other.
  abbrev pub both : Wire A → Wire B → Wire (A × B)
  both u v = record {
    put = λ c. u.put c.0 ++ v.put c.1;
    get = λ t. after (u.get t) (λ a rest. after (v.get rest) (λ b last. some ((a, b), last)));
    law = λ c rest.
        rw
          (append_assoc (u.put c.0) (v.put c.1) rest, u.law c.0 (v.put c.1 ++ rest), v.law c.1 rest)
          refl;
  }

  -- The same content in another shape.
  abbrev pub reshaped : (f : A → B) (g : B → A) → ((b : B) → f (g b) ≡ b) → Wire A → Wire B
  reshaped f g h u = record {
    put = λ b. u.put (g b);
    get = λ t. after (u.get t) (λ a rest. some (f a, rest));
    law = λ b rest. rw (u.law (g b) rest, h b) refl;
  }

module _ {A : Type 0} (w : Wire A) where
  abbrev put_all : List A → Text
  put_all [] = []
  put_all (a ∷ xs) = w.put a ++ put_all xs

  abbrev get_all : ℕ → Text → Option (List A × Text)
  get_all zero t = some ([], t)
  get_all (suc n) t =
      after (w.get t) (λ a rest. after (get_all n rest) (λ xs last. some (a ∷ xs, last)))

  pub get_all-put_all :
      (xs : List A) (rest : Text) → get_all (length xs) (put_all xs ++ rest) ≡ some (xs, rest)
  get_all-put_all [] rest = refl
  get_all-put_all (a ∷ xs) rest =
      rw
        (
          append_assoc (w.put a) (put_all xs) rest,
          w.law a (put_all xs ++ rest),
          get_all-put_all xs rest,
        )
        refl

  abbrev get_list : Text → Option (List A × Text)
  get_list [] = none
  get_list (n ∷ t) = get_all n t

  abbrev pub many : Wire (List A)
  many = record { put = λ xs. length xs ∷ put_all xs; get = get_list; law = get_all-put_all }

  abbrev pub codec_of : Codec A
  codec_of = record { stringify = w.put; parse = λ t. map_some (λ c. c.0) (w.get t) }

pub codec_of-IsFaithful : {A : Type 0} (w : Wire A) → IsFaithful (codec_of w)
codec_of-IsFaithful w a = rw (← append-nil (w.put a), w.law a []) refl

abbrev text_wire : Wire Text
text_wire = many number

-- A number in front says which case it is.
abbrev speaker_of : ℕ → Speaker
speaker_of zero = user
speaker_of (suc n) = assistant

abbrev number_of : Speaker → ℕ
number_of user = 0
number_of assistant = 1

pub speaker_back : (s : Speaker) → speaker_of (number_of s) ≡ s
speaker_back user = refl
speaker_back assistant = refl

abbrev content_of : ℕ × (Text × List Text) → Content
content_of (zero, (t, bs)) = Content.text t
content_of (suc n, (t, bs)) = blocks bs

abbrev parts_of : Content → ℕ × (Text × List Text)
parts_of (Content.text t) = (0, (t, []))
parts_of (blocks bs) = (1, ([], bs))

pub content_back : (c : Content) → content_of (parts_of c) ≡ c
content_back (Content.text t) = refl
content_back (blocks bs) = refl

abbrev message_wire : Wire ConversationMessage
message_wire =
    reshaped (λ c. record { role = c.0; content = c.1 }) (λ m. (m.role, m.content)) (λ m. refl)
      (both (reshaped speaker_of number_of speaker_back number)
        (reshaped content_of parts_of content_back (both number (both text_wire (many text_wire)))))

abbrev pub checkpoint_wire : Wire Checkpoint
checkpoint_wire =
    reshaped
      (λ c. record {
        id = c.0;
        execution_id = c.1.0;
        turn_count = c.1.1.0;
        conversation_history = c.1.1.1.0;
        pending_tool_calls = c.1.1.1.1.0;
        agent_state = c.1.1.1.1.1.0;
        timestamp = c.1.1.1.1.1.1;
      })
      (λ c. (
        c.id,
        (
          c.execution_id,
          (
            c.turn_count,
            (c.conversation_history, (c.pending_tool_calls, (c.agent_state, c.timestamp))),
          ),
        ),
      ))
      (λ c. refl)
      (both number (
        both number
          (both number (both (many message_wire) (both (many text_wire) (both text_wire number))))))

abbrev command_of : ℕ × Text → InboundCommand
command_of (zero, t) = command t
command_of (suc zero, t) = hitl_response t
command_of (suc (suc zero), t) = pause
command_of (suc (suc (suc n)), t) = resume

abbrev command_parts : InboundCommand → ℕ × Text
command_parts (command t) = (0, t)
command_parts (hitl_response t) = (1, t)
command_parts pause = (2, [])
command_parts resume = (3, [])

pub command_back : (c : InboundCommand) → command_of (command_parts c) ≡ c
command_back (command t) = refl
command_back (hitl_response t) = refl
command_back pause = refl
command_back resume = refl

abbrev pub command_wire : Wire InboundCommand
command_wire = reshaped command_of command_parts command_back (both number text_wire)

abbrev option_of : {A : Type 0} → List A → Option A
option_of [] = none
option_of (a ∷ xs) = some a

abbrev list_of : {A : Type 0} → Option A → List A
list_of none = []
list_of (some a) = a ∷ []

pub option_back : {A : Type 0} (o : Option A) → option_of (list_of o) ≡ o
option_back none = refl
option_back (some a) = refl

abbrev perhaps : {A : Type 0} → Wire A → Wire (Option A)
perhaps w = reshaped option_of list_of option_back (many w)

abbrev pub entry_wire : Wire LogEntry
entry_wire =
    reshaped
      (λ c. record {
        ts = c.0;
        level = c.1.0;
        msg = c.1.1.0;
        execution_id = c.1.1.1.0;
        thread_id = c.1.1.1.1.0;
        meta = c.1.1.1.1.1;
      })
      (λ e. (e.ts, (e.level, (e.msg, (e.execution_id, (e.thread_id, e.meta)))))) (λ e. refl)
      (both text_wire
        (both text_wire (both text_wire (both number (both (perhaps number) (perhaps text_wire))))))

-- Out of the way of the line feed.
abbrev lift : Text → Text
lift = map (λ n. n + 11)

abbrev lower : Text → Text
lower = map (λ n. n - 11)

lower-lift : (t : Text) → lower (lift t) ≡ t
lower-lift [] = refl
lower-lift (c ∷ t) = ground (arith, lower-lift t)

lift_one_line : (t : Text) → All (λ c. c ≢ 10) (lift t)
lift_one_line [] = tt
lift_one_line (c ∷ t) = ground (arith, lift_one_line t)

abbrev parse_shifted : Text → Option LogEntry
parse_shifted [] = none
parse_shifted (c ∷ t) = (codec_of entry_wire).parse (lower t)

abbrev pub line_codec : Codec LogEntry
line_codec = record {
  stringify = λ e. 123 ∷ lift ((codec_of entry_wire).stringify e);
  parse = parse_shifted;
}

starts_visible : (t : Text) → is_blank (123 ∷ t) ≡ false
starts_visible t = ground arith

pub line_codec-IsLineFormat : IsLineFormat line_codec
line_codec-IsLineFormat = record {
  faithful = λ e.
      ap (codec_of entry_wire).parse (lower-lift ((codec_of entry_wire).stringify e))
      ∙ codec_of-IsFaithful entry_wire e;
  one_line = λ e. (omega arith, lift_one_line ((codec_of entry_wire).stringify e));
  not_blank = λ e. starts_visible (lift ((codec_of entry_wire).stringify e));
}
