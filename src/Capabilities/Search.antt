-- ===== src/Capabilities/Search.antt =====
-- The search for products that comes before a comparison of prices.
use runtime_assistant_agent.Base.{
  map, ℕ, suc, Bool, true, false, not, ◌&&◌, ◌||◌, ◌≡◌, refl, ◌∙◌, ap, List, [], ◌∷◌, ◌++◌, any,
  if◌then◌else◌, if_intro, arith,
}
use runtime_assistant_agent.Capabilities.{
  Capability, product_search, price_compare, is_same, has, PlanStep, IntentDecision, steps_from,
  add_new, with_search, searched_from, ensure_search_before_price_compare,
}

-- Each comparison of prices in a list comes behind a search for products; the flag tells that one has
-- been seen.
abbrev pub searches_first : Bool → List Capability → Bool
searches_first seen [] = true
searches_first seen (c ∷ cs) =
    (not (is_same c price_compare) || seen) && searches_first (seen || is_same c product_search) cs

searches_first-append :
    (seen : Bool) (cs : List Capability) (c : Capability)
    → searches_first seen (cs ++ c ∷ [])
      ≡ (searches_first seen cs && (not (is_same c price_compare) || seen || has cs product_search))
searches_first-append seen [] c = ground arith
searches_first-append seen (x ∷ cs) c =
    ground (arith, searches_first-append (seen || is_same x product_search) cs c)

has-append :
    (cs : List Capability) (c x : Capability) → has (cs ++ c ∷ []) x ≡ (has cs x || is_same c x)
has-append [] c x = ground arith
has-append (y ∷ cs) c x = ground (arith, has-append cs c x)

with_search-first :
    (found : List Capability) (c : Capability)
    → searches_first false found ≡ true
    → searches_first false (with_search found c) ≡ true
with_search-first found c h =
    if_intro (λ cs. searches_first false cs ≡ true)
      (is_same c price_compare && not (has found product_search)) {x = found ++ product_search ∷ []}
      {y = found} (searches_first-append false found product_search ∙ ap (λ b. b && true) h) h

searched_after :
    (found : List Capability) (compares searched : Bool)
    → has found product_search ≡ searched
    → (not compares
        || has
            (if compares && not searched then found ++ product_search ∷ [] else found)
            product_search)
      ≡ true
searched_after found false searched e = refl
searched_after found true true e = e
searched_after found true false e =
    has-append found product_search product_search ∙ ap (λ b. b || true) e

with_search-has :
    (found : List Capability) (c : Capability)
    → (not (is_same c price_compare) || has (with_search found c) product_search) ≡ true
with_search-has found c =
    searched_after found (is_same c price_compare) (has found product_search) refl

step_searches_first :
    (found : List Capability) (c : Capability)
    → searches_first false found ≡ true
    → searches_first false (add_new (with_search found c) c) ≡ true
step_searches_first found c h =
    let f = with_search found c in
    let first = with_search-first found c h in
    if_intro (λ cs. searches_first false cs ≡ true) (has f c) {x = f} {y = f ++ c ∷ []} first
      (ground (arith, searches_first-append false f c, first, with_search-has found c))

pub searched_from-first :
    (found cs : List Capability)
    → searches_first false found ≡ true
    → searches_first false (searched_from found cs) ≡ true
searched_from-first found [] h = h
searched_from-first found (c ∷ cs) h =
    searched_from-first (add_new (with_search found c) c) cs (step_searches_first found c h)

pub steps_from-search :
    (i : ℕ) (cs : List Capability)
    → any (λ (s : PlanStep). is_same s.capability product_search) (steps_from i cs)
      ≡ has cs product_search
steps_from-search i [] = refl
steps_from-search i (c ∷ cs) =
    ap (λ b. is_same c product_search || b) (steps_from-search (suc i) cs)

-- A list that compares prices behind a search holds a search.
pub compared-has :
    (seen : Bool) (cs : List Capability)
    → searches_first seen cs ≡ true
    → has cs price_compare ≡ true
    → (seen || has cs product_search) ≡ true
compared-has seen [] h p = ground arith
compared-has seen (c ∷ cs) h p = ground (arith, compared-has (seen || is_same c product_search) cs)

steps_from-capabilities :
    (i : ℕ) (cs : List Capability) → map (λ (s : PlanStep). s.capability) (steps_from i cs) ≡ cs
steps_from-capabilities i [] = refl
steps_from-capabilities i (c ∷ cs) = ap (λ xs. c ∷ xs) (steps_from-capabilities (suc i) cs)

-- The decision that the validator makes where candidates are missing searches for products before each
-- comparison of prices, and its steps are its capabilities, in their order.
pub search_comes_first :
    (d : IntentDecision)
    → let e = ensure_search_before_price_compare d in
      (searches_first false e.capabilities ≡ true)
      × (map (λ (s : PlanStep). s.capability) e.plan_steps ≡ e.capabilities)
unfolding ensure_search_before_price_compare
search_comes_first d = (
  searched_from-first [] d.capabilities refl,
  steps_from-capabilities 0 (searched_from [] d.capabilities),
)
