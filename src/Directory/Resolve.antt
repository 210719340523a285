-- ===== src/Directory/Resolve.antt =====
-- What a routed request is routed to.
use runtime_assistant_agent.Base.{
  ℕ, String, Bool, true, false, ◌≡◌, refl, ap, ◌∙◌, Option, none, some, List, [], ◌∷◌, ◌++◌, arith,
  ◌==◌, eq_iff, eq_refl, contains, Option-cases, Bool-cases, inl, inr, length, All, given, if_intro,
  filter_if, count_if, All-map, All-append, All-filter_if, length-filter_if, count_if-filter_if,
  ◌&&◌, append-nil, append_assoc, subst, suc, zero,
}
use runtime_assistant_agent.Base.Dict.{lookup, insert, lookup-insert}
use runtime_assistant_agent.Directory.{
  AgentInstance, RouteResult, routed, failed, AgentDirectory, values, register_all, directory,
  default_agent_id, comes_before, place, sort_by_id, list, resolve_agent_id, resolve_matches,
  resolve_capability, resolve,
}

-- Every instance of the directory stands under its id.
abbrev pub IsKeyed : AgentDirectory → Type 0
IsKeyed d = All (λ i. lookup i.agent_id d ≡ some i) (values d)

values-insert :
    (k : String) (i : AgentInstance) (d : AgentDirectory)
    → lookup k d ≡ none
    → values (insert k i d) ≡ values d ++ i ∷ []
unfolding lookup insert
values-insert k i [] h = refl
values-insert k i ((j, v) ∷ d) h = ground (arith, values-insert k i d)

IsKeyed-insert :
    (i : AgentInstance) (d : AgentDirectory)
    → lookup i.agent_id d ≡ none
    → IsKeyed d
    → IsKeyed (insert i.agent_id i d)
IsKeyed-insert i d fresh k = rw (values-insert i.agent_id i d fresh) (
    All-append _ (values d) (i ∷ [])
      (All-map _ _ (values d) k (λ j l.
        ground (arith, lookup-insert i.agent_id j.agent_id i d, eq_iff i.agent_id j.agent_id)))
      (rw (lookup-insert, eq_refl) refl, tt))

-- What is found under an id has that id.
abbrev pub HasIds : AgentDirectory → Type 0
HasIds d = (k : String) (i : AgentInstance) → lookup k d ≡ some i → i.agent_id ≡ k

HasIds-insert : (i : AgentInstance) (d : AgentDirectory) → HasIds d → HasIds (insert i.agent_id i d)
HasIds-insert i d h k j l =
    ground (arith, h k j, lookup-insert i.agent_id k i d, eq_iff i.agent_id k)

register_all-HasIds :
    (is : List AgentInstance) (d d' : AgentDirectory)
    → HasIds d
    → register_all is d ≡ some d'
    → HasIds d'
register_all-HasIds [] d d' k h = let e : d ≡ d' = ground arith in subst HasIds e k
register_all-HasIds (i ∷ is) d d' k h = elim (Option-cases (lookup i.agent_id d)) [
  | inl l ↦ register_all-HasIds is (insert i.agent_id i d) d' (HasIds-insert i d k) (ground arith)
  | inr (v, l) ↦ ground arith
]

directory-HasIds : (is : List AgentInstance) (d : AgentDirectory) → directory is ≡ some d → HasIds d
unfolding directory lookup
directory-HasIds is d h = register_all-HasIds is [] d (λ k i l. cc) h

register_all-IsKeyed :
    (is : List AgentInstance) (d d' : AgentDirectory)
    → IsKeyed d
    → register_all is d ≡ some d'
    → IsKeyed d' × (values d' ≡ values d ++ is)
register_all-IsKeyed [] d d' k h = (ground arith, ground (arith, append-nil (values d)))
register_all-IsKeyed (i ∷ is) d d' k h = elim (Option-cases (lookup i.agent_id d)) [
  | inl l ↦
      let ih =
        register_all-IsKeyed is (insert i.agent_id i d) d' (IsKeyed-insert i d l k)
          (ground arith) in
      (
        ih.0,
        ih.1 ∙ ground (arith, values-insert i.agent_id i d, append_assoc (values d) (i ∷ []) is),
      )
  | inr (v, l) ↦ ground arith
]

-- A directory holds the instances that it was built from, each under its id.
directory-IsKeyed :
    (is : List AgentInstance) (d : AgentDirectory)
    → directory is ≡ some d
    → IsKeyed d × (values d ≡ is)
unfolding directory
directory-IsKeyed is d h = register_all-IsKeyed is [] d tt h

module _ {κ} (P : AgentInstance → Type κ) where
  All-place : (i : AgentInstance) (js : List AgentInstance) → P i → All P js → All P (place i js)
  All-place i [] p h = (p, tt)
  All-place i (j ∷ js) p h = if_intro (All P) (comes_before i j) (p, h) (h.0, All-place i js p h.1)

  All-sort_by_id : (is : List AgentInstance) → All P is → All P (sort_by_id is)
  All-sort_by_id [] h = tt
  All-sort_by_id (i ∷ is) h = All-place i (sort_by_id is) h.0 (All-sort_by_id is h.1)

module _ (p : AgentInstance → Bool) where
  count_if-place :
      (i : AgentInstance) (js : List AgentInstance) → count_if p (place i js) ≡ count_if p (i ∷ js)
  count_if-place i [] = refl
  count_if-place i (j ∷ js) = ground (arith, count_if-place i js)

  count_if-sort_by_id : (is : List AgentInstance) → count_if p (sort_by_id is) ≡ count_if p is
  count_if-sort_by_id [] = refl
  count_if-sort_by_id (i ∷ is) =
      count_if-place i (sort_by_id is) ∙ omega (arith, count_if-sort_by_id is)

lookup-All :
    (P : AgentInstance → Type 0) (k : String) (d : AgentDirectory) (i : AgentInstance)
    → All P (values d)
    → lookup k d ≡ some i
    → P i
unfolding lookup
lookup-All P k [] i h l = cc
lookup-All P k ((j, v) ∷ d) i h l = elim (Bool-cases (j == k)) [
  | inl same ↦ let e : v ≡ i = ground arith in subst P e h.0
  | inr other ↦ lookup-All P k d i h.1 (ground arith)
]

-- what the request asked of the instance
abbrev pub Meets : Option String → Option String → AgentInstance → Type 0
Meets (some agent_id) capability i = i.agent_id ≡ agent_id
Meets none (some capability) i = contains i.capabilities capability ≡ true
Meets none none i = i.agent_id ≡ default_agent_id

pub record IsRouted (is : List AgentInstance) (target capability : Option String)
    (i : AgentInstance) : Type 1 where
  pub known : (P : AgentInstance → Type 0) → All P is → P i
  pub enabled : i.enabled ≡ true
  pub meets : Meets (given target) (given capability) i

-- the number of instances that are enabled and have a capability
abbrev pub is_able : String → AgentInstance → Bool
is_able capability i = i.enabled && contains i.capabilities capability

length-matches :
    (d : AgentDirectory) (c : String)
    → length (filter_if (λ i. contains i.capabilities c) (list false d))
      ≡ count_if (is_able c) (values d)
length-matches d c =
    length-filter_if _ (list false d)
    ∙ count_if-filter_if _ _ (sort_by_id (values d))
    ∙ count_if-sort_by_id (is_able c) (values d)

-- an instance of the directory that is enabled and has the capability
abbrev IsMatch : AgentDirectory → String → AgentInstance → Type 0
IsMatch d c i =
    ((lookup i.agent_id d ≡ some i) × (i.enabled ≡ true)) × (contains i.capabilities c ≡ true)

matches-All :
    (d : AgentDirectory) (c : String)
    → IsKeyed d
    → All (IsMatch d c) (filter_if (λ i. contains i.capabilities c) (list false d))
matches-All d c k =
    All-filter_if _ _ (list false d)
      (All-filter_if _ _ (sort_by_id (values d)) (All-sort_by_id _ (values d) k))

resolve_agent_id-IsRouted :
    (is : List AgentInstance) (d : AgentDirectory) (k : String) (i : AgentInstance)
    → directory is ≡ some d
    → resolve_agent_id d k ≡ routed i
    → ((P : AgentInstance → Type 0) → All P is → P i) × (i.enabled ≡ true) × (i.agent_id ≡ k)
resolve_agent_id-IsRouted is d k i b r =
    let l : lookup k d ≡ some i = ground arith in
    (
      λ P h. lookup-All P k d i (rw (directory-IsKeyed is d b).1 h) l,
      ground arith,
      directory-HasIds is d b k i l,
    )

-- what a route by capability gives for a number of matches
abbrev pub Verdict : (AgentInstance → Type 0) → ℕ → RouteResult → Type 0
Verdict P zero r = r ≡ failed "agent_capability_not_found"
Verdict P (suc zero) r = (i : AgentInstance) × P i × (r ≡ routed i)
Verdict P (suc (suc n)) r = r ≡ failed "agent_route_ambiguous"

-- Matches decide a capability route by their number alone.
resolve_matches-Verdict :
    (P : AgentInstance → Type 0) (is : List AgentInstance)
    → All P is
    → Verdict P (length is) (resolve_matches is)
resolve_matches-Verdict P [] h = refl
resolve_matches-Verdict P (i ∷ []) h = (i, h.0, refl)
resolve_matches-Verdict P (i ∷ j ∷ is) h = refl

resolve_matches-routed :
    (P : AgentInstance → Type 0) (i : AgentInstance) (is : List AgentInstance)
    → All P is
    → resolve_matches is ≡ routed i
    → P i
resolve_matches-routed P i [] h r = cc
resolve_matches-routed P i (j ∷ []) h r = let e : j ≡ i = ground arith in subst P e h.0
resolve_matches-routed P i (j ∷ k ∷ is) h r = cc

resolve-capability :
    (d : AgentDirectory) (target : Option String) (c : String)
    → given target ≡ none
    → (c == "") ≡ false
    → resolve d target (some c) ≡ resolve_capability d c
unfolding resolve
resolve-capability d target c t ne = rw (t, ne, given, resolve) refl

-- In a directory built from a list of instances, a request that names no target and asks for a
-- capability is decided by how many instances of the list are enabled and have it: none gives the
-- error that it was not found, one is routed to, and two or more give the error of an ambiguous route.
pub capability_route_is_counted :
    (is : List AgentInstance) (d : AgentDirectory) (target : Option String) (c : String)
    → directory is ≡ some d
    → given target ≡ none
    → (c == "") ≡ false
    → Verdict
        (λ i. (lookup i.agent_id d ≡ some i) × (is_able c i ≡ true))
        (count_if (is_able c) is)
        (resolve d target (some c))
capability_route_is_counted is d target c b t ne =
    let k = directory-IsKeyed is d b in
    let e = length-matches d c ∙ ap (count_if (is_able c)) k.1 in
    rw (resolve-capability d target c t ne, ← e)
      (resolve_matches-Verdict _ _ (
        All-map _ (λ i. (lookup i.agent_id d ≡ some i) × (is_able c i ≡ true)) _
          (matches-All d c k.0) (λ i m. (m.0.0, ground arith))))

-- A directory built from a list of instances routes a request only to an instance of the list that is
-- enabled. It has the id of the target where the request names one; without a target it has the
-- capability where the request asks for one; without both it is the default agent.
pub resolve-IsRouted :
    (is : List AgentInstance) (d : AgentDirectory) (target capability : Option String)
    (i : AgentInstance)
    → directory is ≡ some d
    → resolve d target capability ≡ routed i
    → IsRouted is target capability i
unfolding resolve
resolve-IsRouted is d target capability i b r = elim (Option-cases (given target)) [
  | inr (k, g) ↦
      let x = resolve_agent_id-IsRouted is d k i b (ground arith) in
      record { known = x.0; enabled = x.1; meets = rw g x.2 }
  | inl g ↦ elim (Option-cases (given capability)) [
    | inr (c, h) ↦
        let k = directory-IsKeyed is d b in
        let x = resolve_matches-routed _ i _ (matches-All d c k.0) (ground arith) in
        record {
          known = λ P all. lookup-All P i.agent_id d i (rw k.1 all) x.0.0;
          enabled = x.0.1;
          meets = rw (g, h) x.1;
        }
    | inl h ↦
        let x = resolve_agent_id-IsRouted is d default_agent_id i b (ground arith) in
        record { known = x.0; enabled = x.1; meets = rw (g, h) x.2 }
  ]
]
