-- ===== src/Delegation/Pairs.antt =====
-- What the metadata remembers of the pairs that were dispatched.
use runtime_assistant_agent.Base.{
  ℕ, zero, suc, ◌≤◌, ◌<◌, String, true, false, ◌||◌, ◌≡◌, refl, sym, subst, Bool-cases, ap, some,
  List, [], ◌∷◌, ◌++◌, map, append_assoc, arith, ◌==◌, eq_refl, inl, inr, All, ◌⊎◌, length,
  length-append, take, take-all, take-append,
}
use runtime_assistant_agent.Delegation.Safety.{accepted_delegation-IsSafe}
use runtime_assistant_agent.Directory.{AgentDirectory}
use runtime_assistant_agent.Delegation.{
  RawPair, AgentTask, Pair, validate, accepted, has_pair, pairs, pairs_of, pair_of, raw_pair,
  clean_pair, dispatched_pairs,
}

abbrev pub pair : AgentTask → Pair
pair t = (t.source_agent_id, t.target_agent_id)

abbrev pub reversed : Pair → Pair
reversed p = (p.1, p.0)

has_pair-append :
    (p : Pair) (xs ys : List Pair) → has_pair p (xs ++ ys) ≡ (has_pair p xs || has_pair p ys)
has_pair-append p [] ys = refl
has_pair-append p (x ∷ xs) ys = ground (arith, has_pair-append p xs ys)

pairs_of-append : (xs ys : List RawPair) → pairs_of (xs ++ ys) ≡ pairs_of xs ++ pairs_of ys
pairs_of-append [] ys = refl
pairs_of-append (x ∷ xs) ys =
    rw (pairs_of-append xs ys) (sym (append_assoc (pair_of x) (pairs_of xs) (pairs_of ys)))

module _ (clean : String → String) where
  -- the items that are written for a list of pairs
  abbrev written : List Pair → List RawPair
  written ps = map (λ p. raw_pair (clean_pair clean p)) ps

  length-written : (ps : List Pair) → length (written ps) ≡ length ps
  length-written [] = refl
  length-written (p ∷ ps) = omega (arith, length-written ps)

  written-append : (ps qs : List Pair) → written (ps ++ qs) ≡ written ps ++ written qs
  written-append [] qs = refl
  written-append (p ∷ ps) qs = rw (written-append ps qs) refl

  has_pair-kept :
      (p : Pair) (ps : List Pair) (n : ℕ)
      → All (λ q. (clean q.0 ≡ q.0) × (clean q.1 ≡ q.1)) ps
      → has_pair p ps ≡ false
      → has_pair p (pairs_of (take (written ps) n)) ≡ false
  has_pair-kept p [] zero c h = refl
  has_pair-kept p [] (suc n) c h = refl
  has_pair-kept p (q ∷ ps) zero c h = refl
  has_pair-kept p (q ∷ ps) (suc n) c h =
      rw (c.0.0, c.0.1) (ground (arith, has_pair-kept p ps n c.1))

  dispatched_pairs-new :
      (t : AgentTask)
      → clean t.source_agent_id ≡ t.source_agent_id
      → clean t.target_agent_id ≡ t.target_agent_id
      → (t.source_agent_id == "") ≡ false
      → (t.target_agent_id == "") ≡ false
      → length (pairs t.delegation_pairs) < 20
      → has_pair (pair t) (pairs_of (dispatched_pairs clean t)) ≡ true
  unfolding dispatched_pairs
  dispatched_pairs-new t a b e f h =
      let ps = pairs t.delegation_pairs in
      let small : length (written (ps ++ pair t ∷ [])) ≤ 20 =
        omega (arith, length-written (ps ++ pair t ∷ []), length-append ps (pair t ∷ [])) in
      rw
        (
          take-all (written (ps ++ pair t ∷ [])) 20 small,
          written-append ps (pair t ∷ []),
          pairs_of-append (written ps) (written (pair t ∷ [])),
          has_pair-append (pair t) (pairs_of (written ps)) (pairs_of (written (pair t ∷ []))),
          a,
          b,
          e,
          f,
        )
        (ground (arith, eq_refl t.source_agent_id, eq_refl t.target_agent_id))

-- A pair on record blocks itself and its reverse.
blocked :
    (p q : Pair) (ps : List Pair)
    → has_pair p ps ≡ true
    → has_pair q ps ≡ false
    → has_pair (reversed q) ps ≡ false
    → (q ≡ p) ⊎ (q ≡ reversed p)
    → ⊥
blocked p q ps h a b (inl e) = cc
blocked p q ps h a b (inr e) = let r : reversed q ≡ p = ap reversed e in cc

module _ (clean : String → String) (max_timeout_ms : ℕ) (d : AgentDirectory) where
  -- While fewer than 20 pairs are on record, a task whose metadata is that of a dispatched task is not
  -- accepted if it has the same source and target as that task, or has them the other way round. The
  -- ids are not empty and the sanitizer leaves them alone.
  pub repeated_pair_is_blocked :
      (t u : AgentTask)
      → clean t.source_agent_id ≡ t.source_agent_id
      → clean t.target_agent_id ≡ t.target_agent_id
      → (t.source_agent_id == "") ≡ false
      → (t.target_agent_id == "") ≡ false
      → length (pairs t.delegation_pairs) < 20
      → u.delegation_pairs ≡ some (validate clean max_timeout_ms d t).delegation_pairs
      → (pair u ≡ pair t) ⊎ (pair u ≡ reversed (pair t))
      → accepted (validate clean max_timeout_ms d u) ≡ false
  unfolding validate
  repeated_pair_is_blocked t u a b e f h m same =
      elim (Bool-cases (accepted (validate clean max_timeout_ms d u))) [
        | inr refused ↦ refused
        | inl ok ↦
            let s = (accepted_delegation-IsSafe clean max_timeout_ms d u).0 ok in
            let kept = dispatched_pairs-new clean t a b e f h in
            absurd (
              blocked (pair t) (pair u) (pairs_of (dispatched_pairs clean t)) kept
                (subst (λ r. has_pair (pair u) (pairs r) ≡ false) m s.new)
                (subst (λ r. has_pair (reversed (pair u)) (pairs r) ≡ false) m s.no_return) same)
      ]

  -- With 20 or more pairs on record, the pair of a task that is dispatched is not written to its
  -- metadata: the loop detector accepts the very same delegation again, if it accepted it once and the
  -- sanitizer leaves the ids of the record alone.
  pub long_record_forgets :
      (t : AgentTask)
      → All (λ q. (clean q.0 ≡ q.0) × (clean q.1 ≡ q.1)) (pairs t.delegation_pairs)
      → 20 ≤ length (pairs t.delegation_pairs)
      → accepted (validate clean max_timeout_ms d t) ≡ true
      → accepted (
          validate clean max_timeout_ms d (record t {
            delegation_pairs = some (validate clean max_timeout_ms d t).delegation_pairs;
          }))
        ≡ true
  unfolding validate dispatched_pairs
  long_record_forgets t c h ok =
      let s = (accepted_delegation-IsSafe clean max_timeout_ms d t).0 ok in
      let ps = pairs t.delegation_pairs in
      let e : dispatched_pairs clean t ≡ take (written clean ps) 20 =
        rw (written-append clean ps (pair t ∷ [])) (
          take-append (written clean ps) (written clean (pair t ∷ [])) 20
            (omega (arith, length-written clean ps))) in
      (accepted_delegation-IsSafe clean max_timeout_ms d
          (record t { delegation_pairs = some (dispatched_pairs clean t) })).1
        (record {
          shallow = s.shallow;
          quick = s.quick;
          not_self = s.not_self;
          payload = s.payload;
          reachable = s.reachable;
          new = rw e (has_pair-kept clean (pair t) ps 20 c s.new);
          no_return = rw e (has_pair-kept clean (reversed (pair t)) ps 20 c s.no_return);
        })
