-- ===== src/Chunking/Bounds.antt =====
-- How long a chunk is, and that the loop ends.
use runtime_assistant_agent.Base.{
  ℕ, zero, suc, ◌-◌, ◌≤◌, ◌≡◌, refl, ap, ◌∙◌, some, List, [], ◌∷◌, arith, leb, length, take, All,
  Bool-cases, Option-cases, inl, inr,
}
use runtime_assistant_agent.Chunking.{
  Text, skip_space, cons_end, strip_end, strip, drop, begins, rfind, separators, split_by,
  find_split_point, cons_chunk, chunk_from,
}

pub length-skip_space : (t : Text) → length (skip_space t) ≤ length t
length-skip_space [] = omega arith
length-skip_space (c ∷ cs) = ground (arith, length-skip_space cs)

length-cons_end : (c : ℕ) (t : Text) → length (cons_end c t) ≤ suc (length t)
length-cons_end c [] = ground arith
length-cons_end c (d ∷ ds) = omega arith

length-strip_end : (t : Text) → length (strip_end t) ≤ length t
length-strip_end [] = omega arith
length-strip_end (c ∷ cs) = omega (arith, length-cons_end c (strip_end cs), length-strip_end cs)

length-strip : (t : Text) → length (strip t) ≤ length t
length-strip t = omega (arith, length-strip_end (skip_space t), length-skip_space t)

length-take : (t : Text) (n : ℕ) → length (take t n) ≤ n
length-take t zero = omega arith
length-take [] (suc n) = omega arith
length-take (c ∷ cs) (suc n) = omega (arith, length-take cs n)

length-drop : (t : Text) (n : ℕ) → length (drop t n) ≤ length t
length-drop t zero = omega arith
length-drop [] (suc n) = omega arith
length-drop (c ∷ cs) (suc n) = omega (arith, length-drop cs n)

rfind-bounds : (sep t : Text) (hi i : ℕ) → rfind sep t hi ≡ some i → (1 ≤ i) × (i ≤ hi)
rfind-bounds sep t zero i h = cc
rfind-bounds sep t (suc hi) i h = elim (Bool-cases (begins sep (drop t (suc hi)))) [
  | inl here ↦ ground arith
  | inr not_here ↦ let r = rfind-bounds sep t hi i (ground arith) in (r.0, omega (arith, r.1))
]

split_by-bounds :
    (seps : List Text) (t : Text) (hard_end : ℕ)
    → 1 ≤ hard_end
    → (1 ≤ split_by seps t hard_end) × (split_by seps t hard_end ≤ suc hard_end)
split_by-bounds [] t hard_end h = (h, omega arith)
split_by-bounds (sep ∷ seps) t hard_end h =
    elim (Option-cases (rfind sep t (suc hard_end - length sep))) [
      | inl missing ↦ rw (missing, split_by) (split_by-bounds seps t hard_end h)
      | inr (i, found) ↦
          let r = rfind-bounds sep t (suc hard_end - length sep) i found in
          rw (found, split_by) (omega (arith, r.0), omega (arith, r.0, r.1))
    ]

pub find_split_point-bounds :
    (max_chars : ℕ) (c : ℕ) (cs : Text)
    → 1 ≤ max_chars
    → (1 ≤ find_split_point max_chars (c ∷ cs))
      × (find_split_point max_chars (c ∷ cs) ≤ suc max_chars)
unfolding find_split_point
find_split_point-bounds max_chars c cs h = elim (Bool-cases (leb (length (c ∷ cs)) max_chars)) [
  | inl short ↦ rw short (omega arith, ground arith)
  | inr long ↦ rw long (split_by-bounds separators (c ∷ cs) max_chars h)
]

length-drop_less : (c : ℕ) (cs : Text) (n : ℕ) → 1 ≤ n → length (drop (c ∷ cs) n) ≤ length cs
length-drop_less c cs zero h = absurd (omega arith)
length-drop_less c cs (suc n) h = length-drop cs n

-- Chunks have a character and at most one more than the bound.
abbrev pub IsBounded : ℕ → Text → Type 0
IsBounded max_chars chunk = (1 ≤ length chunk) × (length chunk ≤ suc max_chars)

cons_chunk-All :
    (max_chars : ℕ) (chunk : Text) (chunks : List Text)
    → length chunk ≤ suc max_chars
    → All (IsBounded max_chars) chunks
    → (all : List Text) × (cons_chunk chunk (some chunks) ≡ some all)
      × All (IsBounded max_chars) all
cons_chunk-All max_chars [] chunks h a = (chunks, refl, a)
cons_chunk-All max_chars (c ∷ cs) chunks h a = ((c ∷ cs) ∷ chunks, refl, ((omega arith, h), a))

-- Fuel of the text's length is enough.
pub chunk_from-All :
    (fuel max_chars : ℕ) (t : Text)
    → 1 ≤ max_chars
    → length t ≤ fuel
    → (all : List Text) × (chunk_from fuel max_chars t ≡ some all) × All (IsBounded max_chars) all
unfolding chunk_from
chunk_from-All fuel max_chars [] m h = ([], refl, tt)
chunk_from-All zero max_chars (c ∷ cs) m h = absurd (omega arith)
chunk_from-All (suc fuel) max_chars (c ∷ cs) m h =
    let k = find_split_point max_chars (c ∷ cs) in
    let (low, high) = find_split_point-bounds max_chars c cs m in
    let left = skip_space (drop (c ∷ cs) k) in
    let (rest, e, a) =
      chunk_from-All fuel max_chars left m
        (omega (arith, length-skip_space (drop (c ∷ cs) k), length-drop_less c cs k low)) in
    let (all, e', a') =
      cons_chunk-All max_chars (strip (take (c ∷ cs) k)) rest
        (omega (arith, length-strip (take (c ∷ cs) k), length-take (c ∷ cs) k, high)) a in
    (all, ap (cons_chunk (strip (take (c ∷ cs) k))) e ∙ e', a')
