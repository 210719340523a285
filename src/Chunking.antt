-- ===== src/Chunking.antt =====
-- assistant_agent/src/assistant_agent/realtime/chunking.py: the chunks of a response. A text is the list
-- of its code points. The cursor is what is left of the text behind it, so that positions count from the
-- cursor. The loop takes fuel, and `none` means that it ran out.
pub mod Bounds
pub mod Content
mod Tests
use runtime_assistant_agent.Base.{
  ℕ, zero, suc, ◌+◌, ◌-◌, Bool, true, false, not, ◌&&◌, ◌||◌, Option, none, some, List, [], ◌∷◌,
  ◌++◌, if◌then◌else◌, ltb, leb, nat_beq, length, take,
}
use runtime_assistant_agent.Base.Strings.{is_space}

abbrev pub Text : Type 0
Text = List ℕ

abbrev pub skip_space : Text → Text
skip_space [] = []
skip_space (c ∷ cs) = let rest = skip_space cs in if is_space c then rest else c ∷ cs

abbrev cons_end : ℕ → Text → Text
cons_end c [] = if is_space c then [] else c ∷ []
cons_end c (d ∷ ds) = c ∷ d ∷ ds

-- the text without the whitespace at its end
abbrev pub strip_end : Text → Text
strip_end [] = []
strip_end (c ∷ cs) = cons_end c (strip_end cs)

-- `str.strip`
abbrev pub strip : Text → Text
strip t = strip_end (skip_space t)

abbrev pub drop : Text → ℕ → Text
drop t zero = t
drop [] (suc n) = []
drop (c ∷ cs) (suc n) = drop cs n

abbrev pub begins : Text → Text → Bool
begins [] t = true
begins (s ∷ sep) [] = false
begins (s ∷ sep) (c ∷ t) = nat_beq s c && begins sep t

-- the last place of a separator from 1 up to a bound
abbrev pub rfind : Text → Text → ℕ → Option ℕ
rfind sep t zero = none
rfind sep t (suc i) =
    let earlier = rfind sep t i in if begins sep (drop t (suc i)) then some (suc i) else earlier

abbrev pub separators : List Text
separators =
    (10 ∷ 10 ∷ [])
    ∷ (10 ∷ [])
    ∷ (12290 ∷ [])
    ∷ (65281 ∷ [])
    ∷ (65311 ∷ [])
    ∷ (46 ∷ 32 ∷ [])
    ∷ (33 ∷ 32 ∷ [])
    ∷ (63 ∷ 32 ∷ [])
    ∷ (65307 ∷ [])
    ∷ (59 ∷ 32 ∷ [])
    ∷ (65292 ∷ [])
    ∷ (44 ∷ 32 ∷ [])
    ∷ (32 ∷ [])
    ∷ []

-- the loop over the separators, with the end that is left where none is found
abbrev pub split_by : List Text → Text → ℕ → ℕ
split_by [] t hard_end = hard_end
split_by (sep ∷ seps) t hard_end = elim (rfind sep t (suc hard_end - length sep)) [
  | some i ↦ i + length sep
  | none ↦ split_by seps t hard_end
]

-- `_find_split_point`
pub find_split_point : ℕ → Text → ℕ
find_split_point max_chars t =
    if leb (length t) max_chars then length t else split_by separators t max_chars

abbrev pub cons_chunk : Text → Option (List Text) → Option (List Text)
cons_chunk chunk none = none
cons_chunk [] (some chunks) = some chunks
cons_chunk (c ∷ cs) (some chunks) = some ((c ∷ cs) ∷ chunks)

-- the loop of `chunk_response_text`
pub chunk_from : ℕ → ℕ → Text → Option (List Text)
chunk_from fuel max_chars [] = some []
chunk_from zero max_chars (c ∷ cs) = none
chunk_from (suc fuel) max_chars (c ∷ cs) =
    let split_at = find_split_point max_chars (c ∷ cs) in
    cons_chunk (strip (take (c ∷ cs) split_at))
      (chunk_from fuel max_chars (skip_space (drop (c ∷ cs) split_at)))

pub data Result : Type 0 where
  value_error : Result
  out_of_fuel : Result
  chunks : List Text → Result

abbrev pub as_result : Option (List Text) → Result
as_result none = out_of_fuel
as_result (some cs) = chunks cs

abbrev pub chunk_text : ℕ → Option Text → Result
chunk_text max_chars none = chunks []
chunk_text max_chars (some text) =
    as_result (chunk_from (length (strip text)) max_chars (strip text))

unfoldable pub chunk_response_text : ℕ → Option Text → Result
chunk_response_text max_chars text =
    if ltb max_chars 1 then value_error else chunk_text max_chars text
