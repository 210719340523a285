-- ===== src/Sse/Blocks.antt =====
-- The texts and the inputs that a builder collects.
use Prim.Native.String.{◌++◌ as ◌<>◌}
use runtime_assistant_agent.Base.{
  ℕ, zero, suc, String, true, ◌≡◌, refl, ◌∙◌, ap, sym, subst, Option, none, some, List, [], ◌∷◌,
  ◌++◌, ◌==◌, if◌then◌else◌, get_or, nat_beq, modify, get_elem?, get_elem?-modify, Bool-cases, inl,
  inr, All, arith,
}
use runtime_assistant_agent.Sse.{
  SseEvent, message_start, content_block_start, text_delta, input_json_delta, content_block_stop,
  message_delta, message_stop, failure, unknown, Block, AnthropicStreamBuilder, feed, feed_all,
  then_feed, add_text, close_block, buffered,
}

-- the event is not of the type `error`
abbrev pub IsFine : SseEvent → Type 0
IsFine failure = ⊥
IsFine e = Unit

-- the text that an event brings
abbrev pub delta_of : SseEvent → List String
delta_of (text_delta i (some t)) = t ∷ []
delta_of e = []

-- the text that an event brings for one block
abbrev pub delta_at : ℕ → SseEvent → List String
delta_at i (text_delta j (some t)) = if nat_beq j i then t ∷ [] else []
delta_at i e = []

abbrev pub collect : (SseEvent → List String) → List SseEvent → List String
collect f [] = []
collect f (e ∷ es) = f e ++ collect f es

-- a text with others behind it
abbrev pub extended : String → List String → String
extended s [] = s
extended s (t ∷ ts) = extended (s <> t) ts

extended-append :
    (s : String) (xs ys : List String) → extended s (xs ++ ys) ≡ extended (extended s xs) ys
extended-append s [] ys = refl
extended-append s (x ∷ xs) ys = extended-append (s <> x) xs ys

-- The block at a position is a block of text that has been extended.
abbrev pub HasText : ℕ → AnthropicStreamBuilder → String → Type 0
HasText i s t =
    (b : Block) × (get_elem? s.blocks i ≡ some b)
    × ((b.type == "text") ≡ true)
    × (get_or b.text "" ≡ t)

get_elem?-snoc :
    (xs ys : List Block) (i : ℕ) (b : Block)
    → get_elem? xs i ≡ some b
    → get_elem? (xs ++ ys) i ≡ some b
get_elem?-snoc [] ys i b h = ground arith
get_elem?-snoc (x ∷ xs) ys zero b h = h
get_elem?-snoc (x ∷ xs) ys (suc i) b h = get_elem?-snoc xs ys i b h

modified :
    (xs : List Block) (i j : ℕ) (f : Block → Block) (b : Block)
    → get_elem? xs i ≡ some b
    → get_elem? (modify xs j f) i ≡ some (if nat_beq j i then f b else b)
modified xs i j f b h = ground (arith, get_elem?-modify xs j i f)

add_text-text :
    (b : Block) (t : String)
    → (b.type == "text") ≡ true
    → add_text t b ≡ record b { text = some (get_or b.text "" <> t) }
add_text-text b t h = rw h refl

close_block-text :
    (parse : String → Option String) (raw : Option String) (b : Block)
    → ((close_block parse raw b).type ≡ b.type) × ((close_block parse raw b).text ≡ b.text)
close_block-text parse none b = (refl, refl)
close_block-text parse (some raw) b = ground arith

-- `some t` as the one text, and `none` as no text
abbrev pub returned : Option String → List String
returned none = []
returned (some t) = t ∷ []

-- The event is taken, its text is returned, and the block of text at a position is extended by its part.
abbrev Extends : (String → Option String) → SseEvent → AnthropicStreamBuilder → ℕ → String → Type 0
Extends parse e s i t =
    (s' : AnthropicStreamBuilder) × (o : Option String) × (feed parse e s ≡ some (s', o))
    × (returned o ≡ delta_of e)
    × HasText i s' (extended t (delta_at i e))

text-Extends :
    (s : AnthropicStreamBuilder) (j i : ℕ) (u t : String)
    → HasText i s t
    → HasText i
        (record s { blocks = modify s.blocks j (add_text u) })
        (extended t (if nat_beq j i then u ∷ [] else []))
text-Extends s j i u t (b, at, is_text, same) = elim (Bool-cases (nat_beq j i)) [
  | inl here ↦ rw here (
    record b { text = some (get_or b.text "" <> u) },
    modified s.blocks i j (add_text u) b at
        ∙ ap (λ c. some (if c then add_text u b else b)) here
        ∙ ap some (add_text-text b u is_text),
    is_text,
    ap (λ x. x <> u) same,
  )
  | inr elsewhere ↦ rw elsewhere (
    b,
    modified s.blocks i j (add_text u) b at
        ∙ ap (λ c. some (if c then add_text u b else b)) elsewhere,
    is_text,
    same,
  )
]

close-HasText :
    (parse : String → Option String) (s : AnthropicStreamBuilder) (j i : ℕ) (raw : Option String)
    (t : String)
    → HasText i s t
    → HasText i (record s { blocks = modify s.blocks j (close_block parse raw) }) t
close-HasText parse s j i raw t (b, at, is_text, same) =
    let kept = close_block-text parse raw b in
    let found = modified s.blocks i j (close_block parse raw) b at in
    elim (Bool-cases (nat_beq j i)) [
      | inl here ↦ (
        close_block parse raw b,
        found ∙ ap (λ c. some (if c then close_block parse raw b else b)) here,
        ap (λ x. x == "text") kept.0 ∙ is_text,
        ap (λ x. get_or x "") kept.1 ∙ same,
      )
      | inr elsewhere ↦ (
        b,
        found ∙ ap (λ c. some (if c then close_block parse raw b else b)) elsewhere,
        is_text,
        same,
      )
    ]

feed-Extends :
    (parse : String → Option String) (e : SseEvent) (s : AnthropicStreamBuilder) (i : ℕ)
    (t : String)
    → IsFine e
    → HasText i s t
    → Extends parse e s i t
unfolding feed
feed-Extends parse (message_start msg) s i t fine h = (_, none, refl, refl, h)
feed-Extends parse (content_block_start none) s i t fine h = (s, none, refl, refl, h)
feed-Extends parse (content_block_start (some c)) s i t fine (b, at, is_text, same) =
    (_, none, refl, refl, (b, get_elem?-snoc s.blocks (c ∷ []) i b at, is_text, same))
feed-Extends parse (text_delta j none) s i t fine h = (s, none, refl, refl, h)
feed-Extends parse (text_delta j (some u)) s i t fine h =
    (_, some u, refl, refl, text-Extends s j i u t h)
feed-Extends parse (input_json_delta j none) s i t fine h = (s, none, refl, refl, h)
feed-Extends parse (input_json_delta j (some part)) s i t fine h = (_, none, refl, refl, h)
feed-Extends parse (content_block_stop j) s i t fine h =
    (_, none, refl, refl, close-HasText parse s j i (buffered j s.tool_input_buf) t h)
feed-Extends parse (message_delta none) s i t fine h = (s, none, refl, refl, h)
feed-Extends parse (message_delta (some d)) s i t fine h = (_, none, refl, refl, h)
feed-Extends parse message_stop s i t fine h = (s, none, refl, refl, h)
feed-Extends parse failure s i t fine h = absurd fine
feed-Extends parse unknown s i t fine h = (s, none, refl, refl, h)

then_returned :
    (rest : AnthropicStreamBuilder → Option (AnthropicStreamBuilder × List String))
    (s s' : AnthropicStreamBuilder) (o : Option String) (ts : List String)
    → rest s ≡ some (s', ts)
    → then_feed rest (some (s, o)) ≡ some (s', returned o ++ ts)
then_returned rest s s' none ts h = rw (then_feed, h) refl
then_returned rest s s' (some t) ts h = rw (then_feed, h) refl

-- A stream without an event of the type `error` is taken to its end. The texts that `feed` returns are
-- the texts of its deltas in their order, and a block that was a block of text before holds its
-- text then followed by the deltas for its index, whatever blocks and deltas come between them.
pub text_is_collected :
    (parse : String → Option String) (es : List SseEvent) (s : AnthropicStreamBuilder) (i : ℕ)
    (t : String)
    → All IsFine es
    → HasText i s t
    → (s' : AnthropicStreamBuilder) × (feed_all parse es s ≡ some (s', collect delta_of es))
      × HasText i s' (extended t (collect (delta_at i) es))
text_is_collected parse [] s i t fine h = (s, refl, h)
text_is_collected parse (e ∷ es) s i t fine h =
    let (s1, o, fed, texts, h1) = feed-Extends parse e s i t fine.0 h in
    let (s2, rest, h2) = text_is_collected parse es s1 i (extended t (delta_at i e)) fine.1 h1 in
    (
      s2,
      ap (then_feed (feed_all parse es)) fed
          ∙ then_returned (feed_all parse es) s1 s2 o (collect delta_of es) rest
          ∙ ap (λ x. some (s2, x ++ collect delta_of es)) texts,
      subst (HasText i s2) (sym (extended-append t (delta_at i e) (collect (delta_at i) es))) h2,
    )
