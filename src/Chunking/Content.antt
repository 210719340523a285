-- ===== src/Chunking/Content.antt =====
-- What the chunks hold of the text.
use runtime_assistant_agent.Base.{
  ℕ, zero, suc, ◌≤◌, false, not, ◌≡◌, refl, sym, ap, ◌∙◌, none, some, List, [], ◌∷◌, ◌++◌, arith,
  if◌then◌else◌, ltb, length, take, All, Bool-cases, Option-cases, inl, inr, filter_if,
}
use runtime_assistant_agent.Base.Strings.{is_space}
use runtime_assistant_agent.Chunking.{
  Text, skip_space, cons_end, strip_end, strip, drop, find_split_point, cons_chunk, chunk_from,
  chunks, value_error, chunk_response_text, chunk_text, as_result,
}
use runtime_assistant_agent.Chunking.Bounds.{IsBounded, chunk_from-All}

-- the characters of a text that are no whitespace
abbrev pub visible : Text → Text
visible t = filter_if (λ c. not (is_space c)) t

abbrev pub join : List Text → Text
join [] = []
join (t ∷ ts) = t ++ join ts

visible-append : (s t : Text) → visible (s ++ t) ≡ visible s ++ visible t
visible-append [] t = refl
visible-append (c ∷ s) t = elim (Bool-cases (is_space c)) [
  | inl space ↦ rw space (visible-append s t)
  | inr seen ↦ rw seen (ap (λ r. c ∷ r) (visible-append s t))
]

visible-skip_space : (t : Text) → visible (skip_space t) ≡ visible t
visible-skip_space [] = refl
visible-skip_space (c ∷ cs) = elim (Bool-cases (is_space c)) [
  | inl space ↦ rw space (visible-skip_space cs)
  | inr seen ↦ rw seen (rw seen refl)
]

visible-cons_end : (c : ℕ) (t : Text) → visible (cons_end c t) ≡ visible (c ∷ t)
visible-cons_end c [] = elim (Bool-cases (is_space c)) [
  | inl space ↦ rw space refl
  | inr seen ↦ rw seen (rw seen refl)
]
visible-cons_end c (d ∷ ds) = refl

visible-cons : (c : ℕ) (s t : Text) → visible s ≡ visible t → visible (c ∷ s) ≡ visible (c ∷ t)
visible-cons c s t h = ap (λ r. if not (is_space c) then c ∷ r else r) h

visible-strip_end : (t : Text) → visible (strip_end t) ≡ visible t
visible-strip_end [] = refl
visible-strip_end (c ∷ cs) =
    visible-cons_end c (strip_end cs) ∙ visible-cons c (strip_end cs) cs (visible-strip_end cs)

visible-strip : (t : Text) → visible (strip t) ≡ visible t
visible-strip t = visible-strip_end (skip_space t) ∙ visible-skip_space t

take-drop : (t : Text) (n : ℕ) → take t n ++ drop t n ≡ t
take-drop t zero = refl
take-drop [] (suc n) = refl
take-drop (c ∷ cs) (suc n) = ap (λ r. c ∷ r) (take-drop cs n)

join-cons_chunk :
    (chunk : Text) (parts all : List Text)
    → cons_chunk chunk (some parts) ≡ some all
    → join all ≡ chunk ++ join parts
join-cons_chunk [] parts all h = let e : parts ≡ all = ground arith in ap join (sym e)
join-cons_chunk (c ∷ cs) parts all h =
    let e : (c ∷ cs) ∷ parts ≡ all = ground arith in ap join (sym e)

no_chunks : (chunk : Text) (all : List Text) → cons_chunk chunk none ≡ some all → ⊥
no_chunks chunk all h = cc

visible-chunk_from :
    (fuel max_chars : ℕ) (t : Text) (all : List Text)
    → chunk_from fuel max_chars t ≡ some all
    → visible (join all) ≡ visible t
unfolding chunk_from
visible-chunk_from fuel max_chars [] all h =
    let e : [] ≡ all = ground arith in ap (λ ts. visible (join ts)) (sym e)
visible-chunk_from zero max_chars (c ∷ cs) all h = cc
visible-chunk_from (suc fuel) max_chars (c ∷ cs) all h =
    let k = find_split_point max_chars (c ∷ cs) in
    let head = take (c ∷ cs) k in
    let tail = drop (c ∷ cs) k in
    elim (Option-cases (chunk_from fuel max_chars (skip_space tail))) [
      | inl e ↦ absurd (no_chunks (strip head) all (sym (ap (cons_chunk (strip head)) e) ∙ h))
      | inr (parts, e) ↦
          ap visible
            (join-cons_chunk (strip head) parts all (sym (ap (cons_chunk (strip head)) e) ∙ h))
          ∙ visible-append (strip head) (join parts)
          ∙ ap (λ v. v ++ visible (join parts)) (visible-strip head)
          ∙ ap (λ v. visible head ++ v)
              (visible-chunk_from fuel max_chars (skip_space tail) parts e
                ∙ visible-skip_space tail)
          ∙ sym (visible-append head tail)
          ∙ ap visible (take-drop (c ∷ cs) k)
    ]

-- A response is cut into chunks for every bound of at least one character, and the loop ends. The chunks
-- hold the characters of the text that are no whitespace, in their order. No chunk is empty, and none is
-- longer than one character more than the bound.
pub chunks_hold_text :
    (max_chars : ℕ) (text : Text)
    → 1 ≤ max_chars
    → (all : List Text) × (chunk_response_text max_chars (some text) ≡ chunks all)
      × (visible (join all) ≡ visible text)
      × All (IsBounded max_chars) all
unfolding chunk_response_text
chunks_hold_text max_chars text m =
    let t = strip text in
    let (all, e, a) = chunk_from-All (length t) max_chars t m (omega arith) in
    let positive : ltb max_chars 1 ≡ false = ground arith in
    (
      all,
      ap (λ b. if b then value_error else chunk_text max_chars (some text)) positive
          ∙ ap as_result e,
      visible-chunk_from (length t) max_chars t all e ∙ visible-strip text,
      a,
    )
