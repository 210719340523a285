-- ===== src/Budget/Totals.antt =====
-- What a call that the budget lets pass may add.
use runtime_assistant_agent.Base.{
  ℕ, suc, ◌+◌, ◌≤◌, String, false, ◌≡◌, subst, Option, none, some, List, [], ◌∷◌, ◌++◌, ◌==◌,
  eq_iff, arith, if◌then◌else◌, leb, Bool-cases, inl, inr,
}
use runtime_assistant_agent.Base.Dict.{lookup}
use runtime_assistant_agent.Budget.{
  ProviderCallRecord, ProviderCallBudget, total, provider_call_count, counted,
  capability_call_count, size, input_bytes_total, at_limit, exceeds, check_before_call, call_record,
  record_call,
}

pub total-append :
    (f : ProviderCallRecord → ℕ) (rs : List ProviderCallRecord) (r : ProviderCallRecord)
    → total f (rs ++ r ∷ []) ≡ total f rs + f r
total-append f [] r = omega arith
total-append f (x ∷ rs) r = omega (arith, total-append f rs r)

abbrev pub Within : Option ℕ → ℕ → Type 0
Within none n = Unit
Within (some limit) n = n ≤ limit

-- No total is above its limit.
pub record IsWithin (b : ProviderCallBudget) : Type 0 where
  pub calls : provider_call_count b ≤ b.max_provider_calls_per_run
  pub capabilities :
      (c : String) → Within (lookup c b.max_calls_per_capability) (capability_call_count c b)
  pub bytes : Within b.max_input_bytes_per_run (input_bytes_total b)

Within-at_limit : (l : Option ℕ) (n : ℕ) → at_limit l n ≡ false → Within l (suc n)
Within-at_limit none n h = tt
Within-at_limit (some l) n h = ground arith

Within-exceeds : (l : Option ℕ) (v n : ℕ) → exceeds l (some v) n ≡ false → Within l (n + v)
Within-exceeds none v n h = tt
Within-exceeds (some l) v n h = ground arith

Within-counted :
    (l : Option ℕ) (capability c : String) (n k : ℕ)
    → Within l n
    → ((capability ≡ c) → Within l (suc n))
    → k ≡ n + (if capability == c then 1 else 0)
    → Within l k
Within-counted none capability c n k h g e = tt
Within-counted (some l) capability c n k h g e = elim (Bool-cases (capability == c)) [
  | inl same ↦ ground (arith, g ((eq_iff capability c).0 same))
  | inr other ↦ ground arith
]

pub record_call-IsWithin :
    (capability status : String) (checked_cost cost : Option ℕ) (bytes : ℕ) (b : ProviderCallBudget)
    → IsWithin b
    → check_before_call capability checked_cost (some bytes) b ≡ none
    → IsWithin (record_call capability cost (some bytes) status b)
unfolding check_before_call record_call
record_call-IsWithin capability status k cost bytes b w h =
    let r = call_record capability cost (some bytes) status in
    let free : leb b.max_provider_calls_per_run (provider_call_count b) ≡ false = ground arith in
    let room : at_limit (lookup capability b.max_calls_per_capability)
          (capability_call_count capability b)
        ≡ false =
      ground arith in
    let small : exceeds b.max_input_bytes_per_run (some bytes) (input_bytes_total b) ≡ false =
      ground arith in
    record {
      calls = ground (arith, total-append (λ r. r.call_count) b.call_records r, free);
      capabilities = λ c.
          Within-counted (lookup c b.max_calls_per_capability) capability c
            (capability_call_count c b)
            (capability_call_count c (record_call capability cost (some bytes) status b))
            (w.capabilities c)
            (λ same.
              subst
                (λ c.
                  Within (lookup c b.max_calls_per_capability) (suc (capability_call_count c b)))
                same
                (Within-at_limit (lookup capability b.max_calls_per_capability)
                  (capability_call_count capability b) room))
            (total-append (counted c) b.call_records r);
      bytes =
          rw (total-append size b.call_records r)
            (Within-exceeds b.max_input_bytes_per_run bytes (input_bytes_total b) small);
    }
