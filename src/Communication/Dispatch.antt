-- ===== src/Communication/Dispatch.antt =====
-- When a task reaches a transport, and what is on record of it.
use runtime_assistant_agent.Base.{
  String, true, not, ◌≡◌, refl, ap, sym, subst, Option, none, some, List, [], ◌∷◌, contains, get_or,
  given, is_some, arith, Option-cases, Bool-cases, inl, inr, eq_refl, ◌==◌, ◌||◌, ◌⊎◌,
}
use runtime_assistant_agent.Base.Dict.{Dict, lookup}
use runtime_assistant_agent.Directory.{
  AgentInstance, RouteResult, routed, failed, AgentDirectory, default_agent_id, resolve_agent_id,
  resolve,
}
use runtime_assistant_agent.Delegation.{validate}
use runtime_assistant_agent.Delegation.Safety.{IsSafe, accepted_delegation-IsSafe}
use runtime_assistant_agent.DelegationContext.{safe_message_keys}
use runtime_assistant_agent.DelegationContext.Allowed.{HasKeys, child_task_keys, built_task-HasKeys}
use runtime_assistant_agent.Communication.{
  Task, TaskResult, AgentTransport, Service, Call, policy_event, completion_event, with_policy,
  with_context, select_transport, deliver, to_route, after_policy, send_task,
}

-- the error of the policy
abbrev pub policy_error : Service → Task → Option String
policy_error s t = (validate s.cleaner.clean s.max_timeout_ms s.directory t.delegation).error

-- an instance that a task may be sent to through a transport
pub record IsReachable (s : Service) (t : Task) (c : Call) : Type 0 where
  pub instance : AgentInstance
  pub found :
      lookup (get_or (given (some t.delegation.target_agent_id)) default_agent_id) s.directory
      ≡ some instance
  pub named : c.instance_id ≡ instance.agent_id
  pub enabled : instance.enabled ≡ true
  pub offered : contains instance.transports c.name ≡ true
  pub available : is_some (lookup c.name s.transports) ≡ true

-- what a call of a transport rests on
pub record IsJustified (s : Service) (t : Task) (c : Call) : Type 0 where
  pub safe : IsSafe s.max_timeout_ms s.directory t.delegation
  pub reachable : IsReachable s t c
  pub message_keys : HasKeys safe_message_keys c.task.context.message_metadata
  pub task_keys : HasKeys child_task_keys c.task.context.metadata

resolve_agent_id-routed :
    (d : AgentDirectory) (k : String) (i : AgentInstance)
    → resolve_agent_id d k ≡ routed i
    → (lookup k d ≡ some i) × (i.enabled ≡ true)
resolve_agent_id-routed d k i h = elim (Option-cases (lookup k d)) [
  | inl missing ↦ ground arith
  | inr (j, l) ↦ elim (Bool-cases j.enabled) [
    | inl on ↦
        let e : j ≡ i = ground arith in
        subst (λ x. (lookup k d ≡ some x) × (x.enabled ≡ true)) e (l, on)
    | inr off ↦ ground arith
  ]
]

resolve-routed :
    (d : AgentDirectory) (target : String) (i : AgentInstance)
    → resolve d (some target) none ≡ routed i
    → (lookup (get_or (given (some target)) default_agent_id) d ≡ some i) × (i.enabled ≡ true)
unfolding resolve
resolve-routed d target i h = elim (Bool-cases (target == "")) [
  | inl empty ↦ rw empty (resolve_agent_id-routed d default_agent_id i (ground arith))
  | inr full ↦ rw full (resolve_agent_id-routed d target i (ground arith))
]

select_transport-offered :
    (transports : Dict AgentTransport) (names : List String) (name : String) (f : AgentTransport)
    → select_transport transports names ≡ some (name, f)
    → (contains names name ≡ true) × (is_some (lookup name transports) ≡ true)
select_transport-offered transports [] name f h = ground arith
select_transport-offered transports (n ∷ names) name f h =
    elim (Option-cases (lookup n transports)) [
      | inl missing ↦
          let later = select_transport-offered transports names name f (ground arith) in
          (ground (arith, later.0), later.1)
      | inr (g, l) ↦
          let e : n ≡ name = ground arith in
          subst
            (λ x. ((n == x || contains names x) ≡ true) × (is_some (lookup x transports) ≡ true)) e
            (ground (arith, eq_refl n), rw l refl)
    ]

-- what a result and the call behind it tell of a task
abbrev Accounts : Service → Task → TaskResult → Option Call → Type 0
Accounts s t r none =
    (r.status ≡ "failed") × (r.delegation_audit ≡ policy_event t (policy_error s t) ∷ [])
Accounts s t r (some c) =
    IsJustified s t c
    × (r.delegation_audit ≡ policy_event t none ∷ completion_event t r.status ∷ [])

abbrev IsAccounted : Service → Task → TaskResult × Option Call → Type 0
IsAccounted s t x = Accounts s t x.0 x.1

module _ (s : Service) (t : Task) where
  abbrev policy_task : Task
  policy_task = with_policy s (validate s.cleaner.clean s.max_timeout_ms s.directory t.delegation) t

  abbrev child_task : Task
  child_task = with_context s policy_task

  allowed_event :
      policy_error s t ≡ none → policy_event t none ∷ [] ≡ policy_event t (policy_error s t) ∷ []
  allowed_event e = ap (λ o. policy_event t o ∷ []) (sym e)

  policy_error-IsSafe : policy_error s t ≡ none → IsSafe s.max_timeout_ms s.directory t.delegation
  policy_error-IsSafe e =
      (accepted_delegation-IsSafe s.cleaner.clean s.max_timeout_ms s.directory t.delegation).0
        (ap (λ o. not (is_some o)) e)

  delivered :
      (i : AgentInstance) (o : Option (String × AgentTransport))
      → policy_error s t ≡ none
      → resolve s.directory (some t.delegation.target_agent_id) none ≡ routed i
      → select_transport s.transports i.transports ≡ o
      → IsAccounted s t (deliver child_task (policy_event t none) i o)
  delivered i none e r h = (refl, allowed_event e)
  delivered i (some (name, transport)) e r h =
      let found = resolve-routed s.directory t.delegation.target_agent_id i r in
      let offered = select_transport-offered s.transports i.transports name transport h in
      let keys = built_task-HasKeys s.cleaner s.max_context_refs policy_task.context in
      (
        record {
          safe = policy_error-IsSafe e;
          reachable = record {
            instance = i;
            found = found.0;
            named = refl;
            enabled = found.1;
            offered = offered.0;
            available = offered.1;
          };
          message_keys = keys.0;
          task_keys = keys.1;
        },
        refl,
      )

  routed_task :
      (r : RouteResult)
      → policy_error s t ≡ none
      → resolve s.directory (some t.delegation.target_agent_id) none ≡ r
      → IsAccounted s t (to_route s child_task (policy_event t none) r)
  routed_task (failed code) e h = (refl, allowed_event e)
  routed_task (routed i) e h = delivered i (select_transport s.transports i.transports) e h refl

  validated :
      (o : Option String)
      → policy_error s t ≡ o
      → IsAccounted s t (after_policy s policy_task (policy_event t o) o)
  validated none e = routed_task _ e refl
  validated (some code) e = (refl, ap (λ o. policy_event t o ∷ []) (sym e))

  sent-IsAccounted : IsAccounted s t (send_task s t)
  unfolding send_task
  sent-IsAccounted = validated (policy_error s t) refl

-- A task reaches a transport only if the policy accepts it, the directory has an enabled instance under its
-- target, or the default agent where the target is empty, this instance offers the transport, and the service
-- has it; and the metadata that reaches the transport has only safe keys and those of the context builder.
pub call-IsJustified :
    (s : Service) (t : Task) (c : Call) → (send_task s t).1 ≡ some c → IsJustified s t c
call-IsJustified s t c h = (subst (Accounts s t (send_task s t).0) h (sent-IsAccounted s t)).0

audited :
    (s : Service) (t : Task) (r : TaskResult) (o : Option Call)
    → Accounts s t r o
    → ((o ≡ none)
        × (r.status ≡ "failed")
        × (r.delegation_audit ≡ policy_event t (policy_error s t) ∷ []))
      ⊎ ((c : Call) × (o ≡ some c)
          × (r.delegation_audit ≡ policy_event t none ∷ completion_event t r.status ∷ []))
audited s t r none h = inl (refl, h.0, h.1)
audited s t r (some c) h = inr (c, refl, h.1)

-- Every task is on record. Either no transport is called, the result is a failure, and its audit is the one
-- event of the policy's verdict; or a transport is called and the audit is that the task was dispatched and
-- how it was completed, whatever audit the transport wrote into its result.
pub sent_task_is_audited :
    (s : Service) (t : Task)
    → let (r, o) = send_task s t in
      ((o ≡ none)
        × (r.status ≡ "failed")
        × (r.delegation_audit ≡ policy_event t (policy_error s t) ∷ []))
      ⊎ ((c : Call) × (o ≡ some c)
          × (r.delegation_audit ≡ policy_event t none ∷ completion_event t r.status ∷ []))
sent_task_is_audited s t = audited s t (send_task s t).0 (send_task s t).1 (sent-IsAccounted s t)
