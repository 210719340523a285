-- ===== src/Chunking/Tests.antt =====
-- Responses of a few characters.
use runtime_assistant_agent.Base.{◌≡◌, refl, some, List, [], ◌∷◌, All, arith}
use runtime_assistant_agent.Base.Strings.{is_space}
use runtime_assistant_agent.Chunking.{
  Text, find_split_point, chunk_from, chunks, value_error, chunk_response_text,
}
use runtime_assistant_agent.Chunking.Bounds.{IsBounded}
use runtime_assistant_agent.Chunking.Content.{visible, join, chunks_hold_text}

-- "ab cd"
abbrev words : Text
words = 97 ∷ 98 ∷ 32 ∷ 99 ∷ 100 ∷ []

no_bound : chunk_response_text 0 (some words) ≡ value_error
unfolding chunk_response_text
no_bound = refl

two_words : chunk_response_text 3 (some words) ≡ chunks ((97 ∷ 98 ∷ []) ∷ (99 ∷ 100 ∷ []) ∷ [])
unfolding chunk_response_text chunk_from find_split_point is_space
two_words = refl

-- "ab。c" with the bound 2: the full stop behind the bound stays with the first chunk, which is longer
-- than the bound.
longer_chunk :
    chunk_response_text 2 (some (97 ∷ 98 ∷ 12290 ∷ 99 ∷ []))
    ≡ chunks ((97 ∷ 98 ∷ 12290 ∷ []) ∷ (99 ∷ []) ∷ [])
unfolding chunk_response_text chunk_from find_split_point is_space
longer_chunk = refl

chunks_hold_text_example :
    (all : List Text) × (chunk_response_text 2 (some words) ≡ chunks all)
    × (visible (join all) ≡ visible words)
    × All (IsBounded 2) all
chunks_hold_text_example = chunks_hold_text 2 words (omega arith)
