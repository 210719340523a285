-- ===== src/Routing/Choice.antt =====
-- Where a request of the multi-agent gateway goes.
use runtime_assistant_agent.Base.{
  String, true, false, not, ◌&&◌, ◌≡◌, refl, sym, subst, ap, ◌∙◌, Option, none, some, List, arith,
  eq_iff, given, is_some, Option-cases, inl, inr, ◌⊎◌, contains, All,
}
use runtime_assistant_agent.Directory.{
  AgentInstance, RouteResult, routed, failed, AgentDirectory, directory, resolve,
}
use runtime_assistant_agent.Directory.Resolve.{Meets, resolve-IsRouted}
use runtime_assistant_agent.Routing.{
  Mode, single, controller_delegate, Reason, explicit_target_agent_id, capability_match,
  routing_table, controller_delegate_default, default_agent, Request, Policy, Decision,
  effective_collaboration_mode, is_delegate, has_id, decision, by_capability, by_default, by_target,
  by_table, choose, target_for_capability,
}

-- what the reason of a decision says of the request and of the instance that was chosen
abbrev pub Justifies : Policy → Request → Reason → AgentInstance → Type 0
Justifies p r explicit_target_agent_id i = given r.target_agent_id ≡ some i.agent_id
Justifies p r routing_table i =
    (c : String) × (given r.target_agent_id ≡ none)
    × (given r.capability ≡ some c)
    × (given (target_for_capability p c) ≡ some i.agent_id)
Justifies p r capability_match i =
    (c : String) × (given r.target_agent_id ≡ none)
    × (given r.capability ≡ some c)
    × (given (target_for_capability p c) ≡ none)
    × (contains i.capabilities c ≡ true)
Justifies p r controller_delegate_default i =
    (given r.target_agent_id ≡ none)
    × (given r.capability ≡ none)
    × (effective_collaboration_mode r ≡ controller_delegate)
    × Meets (given (some p.controller_agent_id)) none i
Justifies p r default_agent i =
    (given r.target_agent_id ≡ none)
    × (given r.capability ≡ none)
    × (effective_collaboration_mode r ≡ single)
    × Meets (given (some p.default_agent_id)) none i

given-given : (o : Option String) (t : String) → given o ≡ some t → given (some t) ≡ some t
given-given none t h = cc
given-given (some x) t h = ground arith

Mode-delegate : (m : Mode) → is_delegate m ≡ true → m ≡ controller_delegate
Mode-delegate single h = cc
Mode-delegate controller_delegate h = refl

is_some-none : (o : Option String) → is_some o ≡ false → o ≡ none
is_some-none none h = refl
is_some-none (some x) h = cc

pub record IsJustified (is : List AgentInstance) (p : Policy) (r : Request) (c : Decision)
    (i : AgentInstance) : Type 1 where
  pub known : (P : AgentInstance → Type 0) → All P is → P i
  pub enabled : i.enabled ≡ true
  pub justified : Justifies p r c.reason i

Mode-cases : (m : Mode) → (m ≡ single) ⊎ (m ≡ controller_delegate)
Mode-cases single = inl refl
Mode-cases controller_delegate = inr refl

-- the decision for a resolved route
abbrev decided :
    Policy → Request → AgentDirectory → Option String → Option String → Reason → Decision
decided p r d target capability reason = decision p r (resolve d target capability) reason

-- The five ways of a request.
data Way (p : Policy) (r : Request) (d : AgentDirectory) : Type 0 where
  way :
      (target capability : Option String) (reason : Reason)
      → choose p r d ≡ decided p r d target capability reason
      → ((i : AgentInstance) → Meets (given target) (given capability) i → Justifies p r reason i)
      → Way p r d

choose-default :
    (p : Policy) (r : Request) (d : AgentDirectory)
    → given r.target_agent_id ≡ none
    → given r.capability ≡ none
    → choose p r d ≡ by_default p r d (effective_collaboration_mode r)
unfolding choose
choose-default p r d g k = ap (by_target p r d) g ∙ ap (by_capability p r d) k

choose-table :
    (p : Policy) (r : Request) (d : AgentDirectory) (c : String)
    → given r.target_agent_id ≡ none
    → given r.capability ≡ some c
    → choose p r d ≡ by_table p r d c (given (target_for_capability p c))
unfolding choose
choose-table p r d c g k = ap (by_target p r d) g ∙ ap (by_capability p r d) k

choose-Way : (p : Policy) (r : Request) (d : AgentDirectory) → Way p r d
unfolding choose
choose-Way p r d = elim (Option-cases (given r.target_agent_id)) [
  | inr (t, g) ↦
      way (some t) none explicit_target_agent_id (ap (by_target p r d) g)
        (λ i. rw (given-given r.target_agent_id t g) (λ e. rw (e, g) refl))
  | inl g ↦ elim (Option-cases (given r.capability)) [
    | inr (c, k) ↦ elim (Option-cases (given (target_for_capability p c))) [
      | inr (t, l) ↦
          way (some t) none routing_table (choose-table p r d c g k ∙ ap (by_table p r d c) l)
            (λ i. rw (given-given (target_for_capability p c) t l) (λ e. (c, g, k, rw (e, l) refl)))
      | inl l ↦
          way none (some c) capability_match (choose-table p r d c g k ∙ ap (by_table p r d c) l)
            (λ i. rw (given-given r.capability c k) (λ e. (c, g, k, l, e)))
    ]
    | inl k ↦ elim (Mode-cases (effective_collaboration_mode r)) [
      | inl m ↦
          way (some p.default_agent_id) none default_agent
            (choose-default p r d g k ∙ ap (by_default p r d) m) (λ i e. (g, k, m, e))
      | inr m ↦
          way (some p.controller_agent_id) none controller_delegate_default
            (choose-default p r d g k ∙ ap (by_default p r d) m) (λ i e. (g, k, m, e))
    ]
  ]
]

Way-IsJustified :
    (is : List AgentInstance) (d : AgentDirectory) (p : Policy) (r : Request) (i : AgentInstance)
    → directory is ≡ some d
    → (choose p r d).route ≡ routed i
    → Way p r d
    → IsJustified is p r (choose p r d) i
Way-IsJustified is d p r i b h (way target capability reason e j) =
    subst (λ c. c.route ≡ routed i → IsJustified is p r c i) (sym e)
      (λ l.
        let x = resolve-IsRouted is d target capability i b l in
        record { known = x.known; enabled = x.enabled; justified = j i x.meets })
      h

-- With a directory built from a list of instances, a request that is routed goes to an enabled instance
-- of the list, and the reason given is the true one: the target of the request where it names one; else
-- the table's entry for its capability; else an instance with the capability; and without target and
-- capability the controller's id in the mode of delegation and the default id in the other. An empty
-- controller or default id stands for the directory's default.
pub choose-IsJustified :
    (is : List AgentInstance) (d : AgentDirectory) (p : Policy) (r : Request) (i : AgentInstance)
    → directory is ≡ some d
    → (choose p r d).route ≡ routed i
    → IsJustified is p r (choose p r d) i
choose-IsJustified is d p r i b h = Way-IsJustified is d p r i b h (choose-Way p r d)

has_id-routed :
    (route : RouteResult) (agent_id : String)
    → has_id route agent_id ≡ true
    → (i : AgentInstance) × (route ≡ routed i) × (i.agent_id ≡ agent_id)
has_id-routed (routed i) agent_id h = (i, refl, (eq_iff i.agent_id agent_id).0 h)
has_id-routed (failed code) agent_id h = cc

use_controller_runtime-decided :
    (p : Policy) (r : Request) (d : AgentDirectory)
    → Way p r d
    → (choose p r d).use_controller_runtime ≡ (
        is_delegate (effective_collaboration_mode r)
        && (has_id (choose p r d).route p.controller_agent_id
            && (not (is_some (given r.target_agent_id)) && not (is_some (given r.capability)))))
use_controller_runtime-decided p r d (way target capability reason e j) = rw e refl

-- With a directory built from a list of instances, a decision to use the runtime of the controller is
-- made only when a request with no target and no capability, in the mode of delegation, is routed to an
-- enabled instance of the list with the controller's id.
pub controller_runtime_is_enabled :
    (is : List AgentInstance) (d : AgentDirectory) (p : Policy) (r : Request)
    → directory is ≡ some d
    → (choose p r d).use_controller_runtime ≡ true
    → (i : AgentInstance) × ((choose p r d).route ≡ routed i)
      × (i.agent_id ≡ p.controller_agent_id)
      × (effective_collaboration_mode r ≡ controller_delegate)
      × (given r.target_agent_id ≡ none)
      × (given r.capability ≡ none)
      × IsJustified is p r (choose p r d) i
controller_runtime_is_enabled is d p r b h =
    let u = use_controller_runtime-decided p r d (choose-Way p r d) in
    let (i, l, e) = has_id-routed (choose p r d).route p.controller_agent_id (ground arith) in
    (
      i,
      l,
      e,
      Mode-delegate (effective_collaboration_mode r) (ground arith),
      is_some-none (given r.target_agent_id) (ground arith),
      is_some-none (given r.capability) (ground arith),
      choose-IsJustified is d p r i b l,
    )
