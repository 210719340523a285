-- ===== src/Capabilities/Tests.antt =====
-- Decisions for a request with a text, and for one without.
use runtime_assistant_agent.Base.{◌≡◌, refl, some, [], ◌∷◌}
use runtime_assistant_agent.Base.Dict.{lookup}
use runtime_assistant_agent.Base.Strings.{is_space}
use runtime_assistant_agent.Capabilities.{
  price_compare, render_3d, product_search, image_understanding, IntentDecision, UserRequest,
  ensure_search_before_price_compare, missing_inputs_for_capability, validate,
}

abbrev request : UserRequest
request = record {
  user_id = "u1";
  session_id = "s1";
  text = some "compare the prices of mugs";
  image_ids = [];
  video_ids = [];
  metadata = [];
}

abbrev compare : IntentDecision
compare = record {
  primary_intent = price_compare;
  capabilities = render_3d ∷ price_compare ∷ product_search ∷ [];
  plan_steps = [];
  missing_inputs = [];
  reason = "";
}

abbrev just_compare : IntentDecision
just_compare = record compare { capabilities = [] }

search_test : (ensure_search_before_price_compare just_compare).capabilities ≡ []
unfolding ensure_search_before_price_compare
search_test = refl

text_test :
    (validate just_compare (record request { text = some "  " })).missing_inputs
    ≡ "product_candidates" ∷ "search_query" ∷ []
unfolding validate missing_inputs_for_capability lookup is_space
text_test = refl

image_test :
    (validate (record compare { capabilities = image_understanding ∷ [] }) request).missing_inputs
    ≡ "image" ∷ []
unfolding validate missing_inputs_for_capability lookup is_space
image_test = refl
