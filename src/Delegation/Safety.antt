-- ===== src/Delegation/Safety.antt =====
-- What a delegation that the policy accepts has passed.
use runtime_assistant_agent.Base.{
  ℕ, ◌≤◌, String, true, false, ◌≡◌, ◌≢◌, ◌↔◌, refl, Option, none, some, [], ◌∷◌, arith, eq_iff,
  is_some, Bool-cases, inl, inr, contains,
}
use runtime_assistant_agent.Base.Dict.{lookup}
use runtime_assistant_agent.Directory.{AgentInstance, AgentDirectory}
use runtime_assistant_agent.Delegation.{
  AgentTask, depth_error, timeout_error, input_error, source_error, loop_error, first_of, validate,
  accepted, has_message_payload, is_nonempty, has_pair, pairs,
}

-- an agent that the directory knows may delegate, and to this target
abbrev pub MayReach : Option AgentInstance → String → Type 0
MayReach none target = Unit
MayReach (some source) target =
    (source.can_delegate ≡ true)
    × ((is_nonempty source.allowed_targets ≡ true) → contains source.allowed_targets target ≡ true)

pub record IsSafe (max_timeout_ms : ℕ) (d : AgentDirectory) (t : AgentTask) : Type 0 where
  pub shallow : t.delegation_depth ≤ t.max_delegation_depth
  pub quick : t.timeout_ms ≤ max_timeout_ms
  pub not_self : t.source_agent_id ≢ t.target_agent_id
  pub payload : has_message_payload t.message ≡ true
  pub reachable : MayReach (lookup t.source_agent_id d) t.target_agent_id
  pub new : has_pair (t.source_agent_id, t.target_agent_id) (pairs t.delegation_pairs) ≡ false
  pub no_return : has_pair (t.target_agent_id, t.source_agent_id) (pairs t.delegation_pairs) ≡ false

source_error-none :
    (s : Option AgentInstance) (target : String) → source_error s target ≡ none → MayReach s target
source_error-none none target h = tt
source_error-none (some s) target h = (ground arith, λ n. ground arith)

MayReach-source_error :
    (s : Option AgentInstance) (target : String) → MayReach s target → source_error s target ≡ none
MayReach-source_error none target h = refl
MayReach-source_error (some s) target h = elim (Bool-cases (is_nonempty s.allowed_targets)) [
  | inl n ↦ rw (h.0, n, h.1 n) refl
  | inr n ↦ rw (h.0, n) refl
]

is_some-none : (o : Option String) → is_some o ≡ false → o ≡ none
is_some-none none h = refl
is_some-none (some x) h = cc

first_of-none :
    (a b c e : Option String)
    → first_of (a ∷ b ∷ c ∷ e ∷ []) ≡ none
    → ((a ≡ none) × (b ≡ none)) × (c ≡ none) × (e ≡ none)
first_of-none none none none none h = ((refl, refl), refl, refl)
first_of-none none none none (some x) h = cc
first_of-none none none (some x) e h = cc
first_of-none none (some x) c e h = cc
first_of-none (some x) b c e h = cc

IsSafe-of_none :
    (m : ℕ) (d : AgentDirectory) (t : AgentTask)
    → depth_error t ≡ none
    → timeout_error m t ≡ none
    → input_error d t ≡ none
    → loop_error t ≡ none
    → IsSafe m d t
unfolding loop_error
IsSafe-of_none m d t a b c e = record {
  shallow = ground arith;
  quick = ground arith;
  not_self = λ same. ground (arith, (eq_iff t.source_agent_id t.target_agent_id).1 same);
  payload = ground arith;
  reachable = source_error-none (lookup t.source_agent_id d) t.target_agent_id (ground arith);
  new = ground arith;
  no_return = ground arith;
}

none_of_safe :
    (m : ℕ) (d : AgentDirectory) (t : AgentTask)
    → IsSafe m d t
    → first_of (depth_error t ∷ timeout_error m t ∷ input_error d t ∷ loop_error t ∷ []) ≡ none
unfolding loop_error
none_of_safe m d t s =
    let a : depth_error t ≡ none = ground (arith, s.shallow) in
    let b : timeout_error m t ≡ none = ground (arith, s.quick) in
    let c : input_error d t ≡ none = ground (
      arith,
      s.payload,
      s.not_self,
      eq_iff t.source_agent_id t.target_agent_id,
      MayReach-source_error (lookup t.source_agent_id d) t.target_agent_id s.reachable,
    ) in
    let e : loop_error t ≡ none = ground (arith, s.new, s.no_return) in rw (a, b, c, e) refl

-- A delegation is accepted exactly when its depth and its timeout are within their limits, the target is
-- another agent, the message has a text or an attachment, a source that the directory knows may delegate
-- and names the target if it names any, and the pair of source and target has not been dispatched before,
-- in either order, as far as the metadata tells.
pub accepted_delegation-IsSafe :
    (clean : String → String) (max_timeout_ms : ℕ) (d : AgentDirectory) (t : AgentTask)
    → (accepted (validate clean max_timeout_ms d t) ≡ true) ↔ IsSafe max_timeout_ms d t
unfolding validate
accepted_delegation-IsSafe clean m d t = (
  λ a.
      let n =
        first_of-none (depth_error t) (timeout_error m t) (input_error d t) (loop_error t)
          (is_some-none _ (ground arith)) in
      IsSafe-of_none m d t n.0.0 n.0.1 n.1 n.2,
  λ s. rw (none_of_safe m d t s) refl,
)
