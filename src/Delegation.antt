-- ===== src/Delegation.antt =====
-- assistant_agent/src/assistant_agent/services/agent_delegation_policy.py with the task of
-- schemas/agent_communication.py. Of an error the code is kept; the audit event is its status and code.
-- `clean` stands for `sanitize_message` of services/provider_errors.py, whose body is a chain of regular
-- expressions; the cut of a list to 20 items around it is written out.
pub mod Safety
pub mod Pairs
mod Tests
use runtime_assistant_agent.Base.{
  ℕ, String, Bool, true, false, not, ◌&&◌, ◌||◌, Option, none, some, List, [], ◌∷◌, ◌++◌, map, ◌==◌,
  if◌then◌else◌, given, is_some, ltb, contains, any, take,
}
use runtime_assistant_agent.Base.Dict.{lookup}
use runtime_assistant_agent.Directory.{AgentInstance, AgentDirectory}

-- An item of `delegation_pairs`: a list, whose items that are no text are `none`, or something else.
pub data RawPair : Type 0 where
  items : List (Option String) → RawPair
  other : RawPair

pub record AgentMessage : Type 0 where
  pub text : Option String
  pub image_ids : List String
  pub video_ids : List String
  pub audio_id : Option String

-- `delegation_pairs` is `none` where the metadata has no list under this key.
pub record AgentTask : Type 0 where
  pub source_agent_id : String
  pub target_agent_id : String
  pub message : AgentMessage
  pub timeout_ms : ℕ
  pub delegation_depth : ℕ
  pub max_delegation_depth : ℕ
  pub delegation_pairs : Option (List RawPair)

abbrev pub Pair : Type 0
Pair = String × String

abbrev depth_error : AgentTask → Option String
depth_error t =
    if ltb t.max_delegation_depth t.delegation_depth
    then some "agent_delegation_depth_exceeded"
    else none

abbrev timeout_error : ℕ → AgentTask → Option String
timeout_error max_timeout_ms t =
    if ltb max_timeout_ms t.timeout_ms then some "agent_delegation_timeout_too_large" else none

abbrev pub is_nonempty {ℓ} : {A : Type ℓ} → List A → Bool
is_nonempty [] = false
is_nonempty (x ∷ xs) = true

abbrev pub has_message_payload : AgentMessage → Bool
has_message_payload m =
    is_some (given m.text)
    || is_nonempty m.image_ids
    || is_nonempty m.video_ids
    || is_some (given m.audio_id)

-- the test on the source, where the directory knows it
abbrev source_error : Option AgentInstance → String → Option String
source_error none target = none
source_error (some source) target =
    if not source.can_delegate
    then some "agent_delegation_not_allowed"
    else if is_nonempty source.allowed_targets && not (contains source.allowed_targets target)
    then some "agent_delegation_target_not_allowed"
    else none

abbrev input_error : AgentDirectory → AgentTask → Option String
input_error d t =
    if t.source_agent_id == t.target_agent_id
    then some "agent_self_delegation_blocked"
    else if not (has_message_payload t.message)
    then some "agent_delegation_input_empty"
    else source_error (lookup t.source_agent_id d) t.target_agent_id

-- one item of `_delegation_pairs`
abbrev pair_of : RawPair → List Pair
pair_of (items (some a ∷ some b ∷ [])) = if a == "" || b == "" then [] else (a, b) ∷ []
pair_of _ = []

abbrev pub pairs_of : List RawPair → List Pair
pairs_of [] = []
pairs_of (r ∷ rs) = pair_of r ++ pairs_of rs

-- `_delegation_pairs`
abbrev pub pairs : Option (List RawPair) → List Pair
pairs none = []
pairs (some raw) = pairs_of raw

abbrev pub same_pair : Pair → Pair → Bool
same_pair p q = p.0 == q.0 && p.1 == q.1

-- `pair in pairs`
abbrev pub has_pair : Pair → List Pair → Bool
has_pair p qs = any (λ q. same_pair q p) qs

unfoldable pub loop_error : AgentTask → Option String
loop_error t =
    let previous = pairs t.delegation_pairs in
    if has_pair (t.source_agent_id, t.target_agent_id) previous
    then some "agent_delegation_loop_detected"
    else if has_pair (t.target_agent_id, t.source_agent_id) previous
    then some "agent_delegation_ping_pong_blocked"
    else none

-- the error of the first check that has one
abbrev first_of : List (Option String) → Option String
first_of [] = none
first_of (none ∷ rest) = first_of rest
first_of (some e ∷ rest) = some e

abbrev raw_pair : Pair → RawPair
raw_pair p = items (some p.0 ∷ some p.1 ∷ [])

abbrev clean_pair : (String → String) → Pair → Pair
clean_pair clean p = (clean p.0, clean p.1)

-- the `delegation_pairs` that `_metadata_for_dispatch` writes
unfoldable pub dispatched_pairs : (String → String) → AgentTask → List RawPair
dispatched_pairs clean t =
    take
      (map (λ p. raw_pair (clean_pair clean p))
        (pairs t.delegation_pairs ++ (t.source_agent_id, t.target_agent_id) ∷ []))
      20

pub record PolicyResult : Type 0 where
  pub error : Option String
  pub delegation_pairs : List RawPair

abbrev pub accepted : PolicyResult → Bool
accepted r = not (is_some r.error)

-- `AgentDelegationPolicy.validate`
unfoldable pub validate : (String → String) → ℕ → AgentDirectory → AgentTask → PolicyResult
validate clean max_timeout_ms d t = record {
  error =
      first_of
        (depth_error t ∷ timeout_error max_timeout_ms t ∷ input_error d t ∷ loop_error t ∷ []);
  delegation_pairs = dispatched_pairs clean t;
}
