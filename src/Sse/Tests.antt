-- ===== src/Sse/Tests.antt =====
-- Streams of events, read and put together.
use runtime_assistant_agent.Base.{String, ◌≡◌, refl, Option, none, some, List, [], ◌∷◌, All}
use runtime_assistant_agent.Base.Strings.{is_space}
use runtime_assistant_agent.Sse.{
  iter_sse_data_lines, SseEvent, content_block_start, text_delta, input_json_delta,
  content_block_stop, message_stop, failure, Block, AnthropicStreamBuilder, init, feed, feed_all,
}
use runtime_assistant_agent.Sse.Lines.{IsTrimmed, stream_lines, texts, stream_is_read}
use runtime_assistant_agent.Sse.Blocks.{
  HasText, extended, collect, delta_of, delta_at, text_is_collected,
}

abbrev events : List (List String)
events = ("{\"a\":" ∷ "1}" ∷ []) ∷ [] ∷ ("[DONE]" ∷ []) ∷ []

abbrev events-IsTrimmed : All IsTrimmed events
unfolding is_space
events-IsTrimmed = ((refl, (refl, tt)), (tt, ((refl, tt), tt)))

stream_is_read_example : iter_sse_data_lines [] (stream_lines events) ≡ texts events
stream_is_read_example = stream_is_read events events-IsTrimmed

lines_test :
    iter_sse_data_lines []
      (": ping" ∷ "event: x" ∷ "data:  a" ∷ "data:b" ∷ "" ∷ "" ∷ "data: c" ∷ [])
    ≡ "a\nb" ∷ "c" ∷ []
unfolding iter_sse_data_lines is_space
lines_test = refl

abbrev text_block : Block
text_block = record { type = "text"; text = some "Hel"; input = none }

abbrev tool_block : Block
tool_block = record { type = "tool_use"; text = none; input = none }

abbrev started : AnthropicStreamBuilder
started = record init { blocks = text_block ∷ [] }

abbrev parse : String → Option String
parse raw = none

abbrev rest_events : List SseEvent
rest_events =
    text_delta 0 (some "lo")
    ∷ content_block_stop 0
    ∷ content_block_start (some tool_block)
    ∷ input_json_delta 1 (some "{\"q\"")
    ∷ text_delta 1 (some "x")
    ∷ input_json_delta 1 (some ":1")
    ∷ content_block_stop 1
    ∷ text_delta 0 (some "!")
    ∷ message_stop
    ∷ []

text_is_collected_example :
    (s' : AnthropicStreamBuilder) × (feed_all parse rest_events started
      ≡ some (s', collect delta_of rest_events))
    × HasText 0 s' (extended "Hel" (collect (delta_at 0) rest_events))
text_is_collected_example =
    text_is_collected parse rest_events started 0 "Hel"
      (tt, (tt, (tt, (tt, (tt, (tt, (tt, (tt, (tt, tt))))))))) (text_block, refl, refl, refl)

error_test : feed parse failure init ≡ none
unfolding feed
error_test = refl
