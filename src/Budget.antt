-- ===== src/Budget.antt =====
-- assistant_agent/src/assistant_agent/services/provider_budget.py. Costs are whole numbers of a smallest
-- unit; the fields of a record that no test reads (run, provider, model, unit, latency) are left out, and
-- an error is its code.
pub mod Totals
use runtime_assistant_agent.Base.{
  ℕ, zero, suc, ◌+◌, String, Bool, true, false, ◌&&◌, Option, none, some, List, [], ◌∷◌, ◌++◌, ◌==◌,
  if◌then◌else◌, get_or, is_some, ltb, leb,
}
use runtime_assistant_agent.Base.Dict.{Dict, lookup}

pub record ProviderCallRecord : Type 0 where
  pub capability : String
  pub call_count : ℕ
  pub estimated_cost : Option ℕ
  pub input_size_bytes : Option ℕ
  pub status : String

pub record ProviderCallBudget : Type 0 where
  pub max_provider_calls_per_run : ℕ
  pub max_calls_per_capability : Dict ℕ
  pub max_estimated_cost_per_run : Option ℕ
  pub max_input_bytes_per_run : Option ℕ
  pub call_records : List ProviderCallRecord

-- the sum over the records of a list
abbrev pub total : (ProviderCallRecord → ℕ) → List ProviderCallRecord → ℕ
total f [] = 0
total f (r ∷ rs) = f r + total f rs

abbrev pub provider_call_count : ProviderCallBudget → ℕ
provider_call_count b = total (λ r. r.call_count) b.call_records

abbrev pub counted : String → ProviderCallRecord → ℕ
counted capability r = if r.capability == capability then r.call_count else 0

abbrev pub capability_call_count : String → ProviderCallBudget → ℕ
capability_call_count capability b = total (counted capability) b.call_records

-- the known costs
abbrev pub known_costs : List ProviderCallRecord → List ℕ
known_costs [] = []
known_costs (r ∷ rs) = elim r.estimated_cost [ none ↦ known_costs rs | some c ↦ c ∷ known_costs rs ]

abbrev pub sum : List ℕ → ℕ
sum [] = 0
sum (x ∷ xs) = x + sum xs

abbrev sum_known : List ℕ → Option ℕ
sum_known [] = none
sum_known (x ∷ xs) = some (sum (x ∷ xs))

abbrev pub estimated_cost_total : ProviderCallBudget → Option ℕ
estimated_cost_total b = sum_known (known_costs b.call_records)

abbrev pub size : ProviderCallRecord → ℕ
size r = get_or r.input_size_bytes 0

abbrev pub input_bytes_total : ProviderCallBudget → ℕ
input_bytes_total b = total size b.call_records

abbrev pub at_limit : Option ℕ → ℕ → Bool
at_limit none n = false
at_limit (some limit) n = leb limit n

-- a limit and a value that are both known, with what is used up already
abbrev pub exceeds : Option ℕ → Option ℕ → ℕ → Bool
exceeds (some limit) (some value) current = ltb limit (current + value)
exceeds _ _ current = false

-- `check_before_call`: the code of the error, if there is one
unfoldable pub check_before_call : String → Option ℕ → Option ℕ → ProviderCallBudget → Option String
check_before_call capability estimated_cost input_size_bytes b =
    if leb b.max_provider_calls_per_run (provider_call_count b)
    then some "provider_call_limit_exceeded"
    else if at_limit (lookup capability b.max_calls_per_capability)
        (capability_call_count capability b)
    then some "provider_call_limit_exceeded"
    else if exceeds b.max_estimated_cost_per_run estimated_cost (get_or (estimated_cost_total b) 0)
    then some "provider_budget_exceeded"
    else if exceeds b.max_input_bytes_per_run input_size_bytes (input_bytes_total b)
    then some "provider_input_size_exceeded"
    else none

abbrev pub call_record : String → Option ℕ → Option ℕ → String → ProviderCallRecord
call_record capability estimated_cost input_size_bytes status = record {
  capability = capability;
  call_count = 1;
  estimated_cost = estimated_cost;
  input_size_bytes = input_size_bytes;
  status = status;
}

unfoldable pub record_call :
    String → Option ℕ → Option ℕ → String → ProviderCallBudget → ProviderCallBudget
record_call capability estimated_cost input_size_bytes status b = record b {
  call_records =
      b.call_records ++ call_record capability estimated_cost input_size_bytes status ∷ [];
}
