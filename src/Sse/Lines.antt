-- ===== src/Sse/Lines.antt =====
-- The lines of a stream of events, written and read.
use text.Mathlib.TextEquality.{eq_iff}
use text.Mathlib.TextLemmas.{cons-ne-nil}
use runtime_assistant_agent.Base.{
  String, false, ◌≡◌, refl, ◌∙◌, ap, sym, List, [], ◌∷◌, ◌++◌, append_assoc, ◌==◌, if◌then◌else◌,
  All, Bool-cases, inl, inr, append-nil,
}
use runtime_assistant_agent.Base.Strings.{prefixed, skip_start}
use runtime_assistant_agent.Sse.{iter_sse_data_lines, flush, on_line}

abbrev pub data_line : String → String
data_line s = prefixed "data:" s

data_line-full : (s : String) → (data_line s == "") ≡ false
data_line-full s = elim (Bool-cases (data_line s == "")) [
  | inl same ↦ absurd (cons-ne-nil _ _ ((eq_iff (data_line s) "").0 same))
  | inr differs ↦ differs
]

on_data_line :
    (buf : List String) (s : String) → on_line buf (data_line s) ≡ buf ++ skip_start s ∷ []
on_data_line buf s = refl

-- the lines of an event, and the empty line behind it
abbrev pub event_lines : List String → List String
event_lines [] = "" ∷ []
event_lines (d ∷ ds) = data_line d ∷ event_lines ds

-- the lines of a stream
abbrev pub stream_lines : List (List String) → List String
stream_lines [] = []
stream_lines (event ∷ events) = event_lines event ++ stream_lines events

-- texts without whitespace in front
abbrev pub IsTrimmed : List String → Type 0
IsTrimmed event = All (λ d. skip_start d ≡ d) event

end_event :
    (buf : List String) (rest : List String)
    → iter_sse_data_lines buf ("" ∷ rest) ≡ flush buf ++ iter_sse_data_lines [] rest
unfolding iter_sse_data_lines
end_event buf rest = refl

next_line :
    (buf : List String) (d : String) (rest : List String)
    → skip_start d ≡ d
    → iter_sse_data_lines buf (data_line d ∷ rest) ≡ iter_sse_data_lines (buf ++ d ∷ []) rest
unfolding iter_sse_data_lines
next_line buf d rest h =
    ap
      (λ b.
        if b
        then flush buf ++ iter_sse_data_lines [] rest
        else iter_sse_data_lines (on_line buf (data_line d)) rest)
      (data_line-full d)
    ∙ ap (λ x. iter_sse_data_lines (buf ++ x ∷ []) rest) h

read_event :
    (buf event rest : List String)
    → IsTrimmed event
    → iter_sse_data_lines buf (event_lines event ++ rest)
      ≡ flush (buf ++ event) ++ iter_sse_data_lines [] rest
read_event buf [] rest h =
    end_event buf rest ∙ ap (λ b. flush b ++ iter_sse_data_lines [] rest) (sym (append-nil buf))
read_event buf (d ∷ ds) rest h =
    next_line buf d (event_lines ds ++ rest) h.0
    ∙ read_event (buf ++ d ∷ []) ds rest h.1
    ∙ ap (λ b. flush b ++ iter_sse_data_lines [] rest) (append_assoc buf (d ∷ []) ds)

-- the texts of the events that have a line
abbrev pub texts : List (List String) → List String
texts [] = []
texts (event ∷ events) = flush event ++ texts events

-- A stream in which each event is written as one `data:` line for each of its lines and an empty line is
-- read as the lines of each event joined, in their order, for lines without whitespace in front; an event
-- without a line yields nothing.
pub stream_is_read :
    (events : List (List String))
    → All IsTrimmed events
    → iter_sse_data_lines [] (stream_lines events) ≡ texts events
unfolding iter_sse_data_lines
stream_is_read [] h = refl
stream_is_read (event ∷ events) h =
    read_event [] event (stream_lines events) h.0
    ∙ ap (λ ts. flush event ++ ts) (stream_is_read events h.1)
