-- ===== src/DelegationContext/Refs.antt =====
-- The references to a parent's context.
use runtime_assistant_agent.Base.{
  ℕ, String, true, false, ◌||◌, ◌≡◌, ◌≤◌, ◌<◌, refl, ◌∙◌, sym, subst, List, [], ◌∷◌, ◌++◌, if_cases,
  append_assoc, contains, leb, length, length-append, arith, Bool-cases, inl, inr, ◌==◌, eq_iff,
}
use runtime_assistant_agent.DelegationContext.{dedupe, dedupe_strings}

-- No text stands twice.
abbrev pub IsDistinct : List String → Type 0
IsDistinct [] = Unit
IsDistinct (x ∷ xs) = (contains xs x ≡ false) × IsDistinct xs

contains-append :
    (xs ys : List String) (y : String) → contains (xs ++ ys) y ≡ (contains xs y || contains ys y)
contains-append [] ys y = refl
contains-append (x ∷ xs) ys y = ground (arith, contains-append xs ys y)

test_sym : (x y : String) → (x == y) ≡ false → (y == x) ≡ false
test_sym x y h = ground (arith, eq_iff x y, eq_iff y x)

append-IsDistinct :
    (xs : List String) (v : String)
    → contains xs v ≡ false
    → IsDistinct xs
    → IsDistinct (xs ++ v ∷ [])
append-IsDistinct [] v h d = (refl, tt)
append-IsDistinct (x ∷ xs) v h d = (
  ground (arith, contains-append xs (v ∷ []) x, d.0, test_sym x v),
  append-IsDistinct xs v (ground arith) d.1,
)

-- The result of the loop: distinct texts within the limit, each found before or of the values, and
-- each of them unless the limit has been reached.
pub record IsCut (limit : ℕ) (source r : List String) : Type 0 where
  pub distinct : IsDistinct r
  pub short : length r ≤ limit
  pub sound : (x : String) → contains r x ≡ true → contains source x ≡ true
  pub complete : length r < limit → (x : String) → contains source x ≡ true → contains r x ≡ true

recut :
    (limit : ℕ) (xs ys r : List String)
    → ((x : String) → contains xs x ≡ contains ys x)
    → IsCut limit xs r
    → IsCut limit ys r
recut limit xs ys r same c = record {
  distinct = c.distinct;
  short = c.short;
  sound = λ x h. sym (same x) ∙ c.sound x h;
  complete = λ l x h. c.complete l x (same x ∙ h);
}

known :
    (found vs : List String) (v x : String)
    → contains found v ≡ true
    → contains (found ++ vs) x ≡ contains (found ++ v ∷ vs) x
known found vs v x h = elim (Bool-cases (v == x)) [
  | inl same ↦
      let e : v ≡ x = (eq_iff v x).0 same in
      let there : contains found x ≡ true = subst (λ y. contains found y ≡ true) e h in
      ground (arith, contains-append found vs x, contains-append found (v ∷ vs) x)
  | inr differs ↦ ground (arith, contains-append found vs x, contains-append found (v ∷ vs) x)
]

part :
    (found vs : List String) (v x : String)
    → contains (found ++ v ∷ []) x ≡ true
    → contains (found ++ v ∷ vs) x ≡ true
part found vs v x h =
    ground (arith, contains-append found (v ∷ []) x, contains-append found (v ∷ vs) x)

dedupe-IsCut :
    (limit : ℕ) (found vs : List String)
    → IsDistinct found
    → length found < limit
    → IsCut limit (found ++ vs) (dedupe limit found vs)
dedupe-IsCut limit found [] d l =
    recut limit found (found ++ []) found (λ x. ground (arith, contains-append found [] x))
      (record { distinct = d; short = omega arith; sound = λ x h. h; complete = λ k x h. h })
dedupe-IsCut limit found (v ∷ vs) d l = elim (Bool-cases (contains found v)) [
  | inl old ↦ rw old (
      recut limit (found ++ vs) (found ++ v ∷ vs) _ (λ x. known found vs v x old)
        (dedupe-IsCut limit found vs d l))
  | inr new ↦
      let next = found ++ v ∷ [] in
      let longer = length-append found (v ∷ []) in
      let distinct = append-IsDistinct found v new d in
      rw new (
        if_cases (λ r. IsCut limit (found ++ v ∷ vs) r) (leb limit (length next)) {x = next}
          {y = dedupe limit next vs}
          (λ reached. record {
            distinct = distinct;
            short = ground arith;
            sound = λ x h. part found vs v x h;
            complete = λ k x h. ground arith;
          })
          (λ more.
            subst (λ xs. IsCut limit xs (dedupe limit next vs)) (append_assoc found (v ∷ []) vs)
              (dedupe-IsCut limit next vs distinct (ground arith))))
]

-- With a limit of at least one, the references are distinct, no more than the limit, each of
-- them is one of the values, and below the limit every value is among them.
pub dedupe_strings-IsCut :
    (values : List String) (limit : ℕ)
    → 0 < limit
    → IsCut limit values (dedupe_strings values limit)
unfolding dedupe_strings
dedupe_strings-IsCut values limit positive = dedupe-IsCut limit [] values tt positive
