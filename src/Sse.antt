-- ===== src/Sse.antt =====
-- runTime/src/openclaw_gateway_runtime/agent_runtime/anthropic_sse.py: the events of a model's stream. A
-- line is its text after the decoding and without the end of the line. An event of the API is its type with
-- the keys that the builder reads, where a key that is missing or of another type is none. Of a block the
-- type, the text and the input are kept. Values that the builder only passes on are texts of JSON; a
-- `message_delta` is taken to be without `content`. The parsing of JSON is a parameter, `none` where it
-- raises.
pub mod Lines
pub mod Blocks
mod Tests
use Prim.Native.String.{◌++◌ as ◌<>◌}
use runtime_assistant_agent.Base.{
  ℕ, String, Bool, true, false, not, ◌&&◌, Option, none, some, List, [], ◌∷◌, ◌++◌, ◌==◌,
  if◌then◌else◌, get_or, nat_beq, length, modify, get_elem?,
}
use runtime_assistant_agent.Base.Dict.{Dict, insert}
use runtime_assistant_agent.Base.Strings.{is_blank, skip_start, after}

-- `"\n".join(buf)`
abbrev pub join_lines : List String → String
join_lines [] = ""
join_lines (x ∷ []) = x
join_lines (x ∷ y ∷ xs) = x <> "\n" <> join_lines (y ∷ xs)

-- what is yielded at the end of an event
abbrev pub flush : List String → List String
flush [] = []
flush (x ∷ xs) = join_lines (x ∷ xs) ∷ []

abbrev is_comment : String → Bool
is_comment line = elim (after ":" line) [ none ↦ false | some rest ↦ true ]

abbrev with_data : List String → Option String → List String
with_data buf none = buf
with_data buf (some data_text) = buf ++ skip_start data_text ∷ []

-- the buffer after a line that is not empty
abbrev pub on_line : List String → String → List String
on_line buf line = if is_comment line then buf else with_data buf (after "data:" line)

-- `iter_sse_data_lines`, with the buffer
unfoldable pub iter_sse_data_lines : List String → List String → List String
iter_sse_data_lines buf [] = flush buf
iter_sse_data_lines buf (line ∷ rest) =
    let next = iter_sse_data_lines [] rest in
    let more = iter_sse_data_lines (on_line buf line) rest in
    if line == "" then flush buf ++ next else more

pub record Block : Type 0 where
  pub type : String
  pub text : Option String
  pub input : Option String

pub data SseEvent : Type 0 where
  message_start : Dict String → SseEvent
  content_block_start : Option Block → SseEvent
  text_delta : ℕ → Option String → SseEvent
  input_json_delta : ℕ → Option String → SseEvent
  content_block_stop : ℕ → SseEvent
  message_delta : Option (Dict String) → SseEvent
  message_stop : SseEvent
  failure : SseEvent
  unknown : SseEvent

-- `AnthropicStreamBuilder`; `content` of the response is the blocks, the buffers of inputs are by index
pub record AnthropicStreamBuilder : Type 0 where
  pub response : Dict String
  pub blocks : List Block
  pub tool_input_buf : List (ℕ × String)

abbrev pub init : AnthropicStreamBuilder
init = record { response = []; blocks = []; tool_input_buf = [] }

abbrev without_content : Dict String → Dict String
without_content [] = []
without_content ((k, v) ∷ d) =
    let rest = without_content d in if k == "content" then rest else (k, v) ∷ rest

-- `self.response.update(d)`
abbrev update : Dict String → Dict String → Dict String
update response [] = response
update response ((k, v) ∷ d) = update (insert k v response) d

abbrev pub buffered : ℕ → List (ℕ × String) → Option String
buffered i [] = none
buffered i ((j, s) ∷ rest) = let later = buffered i rest in if nat_beq j i then some s else later

-- `_tool_input_buf[index] = _tool_input_buf.get(index, "") + partial`
abbrev pub buffer : ℕ → String → List (ℕ × String) → List (ℕ × String)
buffer i part [] = (i, part) ∷ []
buffer i part ((j, s) ∷ rest) =
    let more = buffer i part rest in if nat_beq j i then (j, s <> part) ∷ rest else (j, s) ∷ more

abbrev pub add_text : String → Block → Block
add_text t b = if b.type == "text" then record b { text = some (get_or b.text "" <> t) } else b

abbrev raw_input : String → String
raw_input raw = "{\"_raw\": " <> raw <> "}"

abbrev parsed : (String → Option String) → String → String
parsed parse raw = get_or (parse raw) (raw_input raw)

abbrev close_block : (String → Option String) → Option String → Block → Block
close_block parse none b = b
close_block parse (some raw) b =
    if b.type == "tool_use" && not (is_blank raw)
    then record b { input = some (parsed parse raw) }
    else b

-- `feed`: the builder and the text that is returned; `none` where `SseError` is raised
unfoldable pub feed :
    (String → Option String)
    → SseEvent
    → AnthropicStreamBuilder
    → Option (AnthropicStreamBuilder × Option String)
feed parse (message_start msg) s =
    some (record s { response = update s.response (without_content msg) }, none)
feed parse (content_block_start none) s = some (s, none)
feed parse (content_block_start (some b)) s = some (record s { blocks = s.blocks ++ b ∷ [] }, none)
feed parse (text_delta i none) s = some (s, none)
feed parse (text_delta i (some t)) s =
    some (record s { blocks = modify s.blocks i (add_text t) }, some t)
feed parse (input_json_delta i none) s = some (s, none)
feed parse (input_json_delta i (some part)) s =
    some (record s { tool_input_buf = buffer i part s.tool_input_buf }, none)
feed parse (content_block_stop i) s = some (
  record s { blocks = modify s.blocks i (close_block parse (buffered i s.tool_input_buf)) },
  none,
)
feed parse (message_delta none) s = some (s, none)
feed parse (message_delta (some delta)) s =
    some (record s { response = update s.response delta }, none)
feed parse message_stop s = some (s, none)
feed parse failure s = none
feed parse unknown s = some (s, none)

abbrev then_feed :
    (AnthropicStreamBuilder → Option (AnthropicStreamBuilder × List String))
    → Option (AnthropicStreamBuilder × Option String)
    → Option (AnthropicStreamBuilder × List String)
then_feed rest none = none
then_feed rest (some (s, t)) = elim (rest s) [
  | none ↦ none
  | some (s', ts) ↦ elim t [ none ↦ some (s', ts) | some x ↦ some (s', x ∷ ts) ]
]

-- events one after another, with the texts that are returned
abbrev pub feed_all :
    (String → Option String)
    → List SseEvent
    → AnthropicStreamBuilder
    → Option (AnthropicStreamBuilder × List String)
feed_all parse [] s = some (s, [])
feed_all parse (e ∷ es) s = then_feed (feed_all parse es) (feed parse e s)
