-- ===== src/Base/Lists.antt =====
-- Positions in a list, over the native numbers.
use Prim.Native.Nat.{ℕ, zero, suc, ◌+◌, ◌≤◌}
use Prim.Native.String.{String}
use mathlib.Core.Path.{◌≡◌, refl}
use mathlib.Core.Bool.{Bool, true, false, ◌||◌, ◌&&◌}
use mathlib.Core.Logic.{inl, inr}
use mathlib.Core.Option.{Option, none, some}
use mathlib.Core.List.{List, [], ◌∷◌, ◌++◌}
use native.Mathlib.Omega.{arith}
use text.Mathlib.Text.{◌==◌}
use runtime_assistant_agent.Base.Tests.{nat_beq, if◌then◌else◌, Bool-cases}

module _ {ℓ} {A : Type ℓ} where
  abbrev pub length : List A → ℕ
  length [] = 0
  length (x ∷ xs) = suc (length xs)

  abbrev pub get_elem? : List A → ℕ → Option A
  get_elem? [] i = none
  get_elem? (x ∷ xs) zero = some x
  get_elem? (x ∷ xs) (suc i) = get_elem? xs i

  -- Replaces the item at a position by its image; out of range nothing changes.
  abbrev pub modify : List A → ℕ → (A → A) → List A
  modify [] i f = []
  modify (x ∷ xs) zero f = f x ∷ xs
  modify (x ∷ xs) (suc i) f = x ∷ modify xs i f

  abbrev pub count_if : (A → Bool) → List A → ℕ
  count_if p [] = 0
  count_if p (x ∷ xs) = (if p x then 1 else 0) + count_if p xs

  abbrev pub filter_if : (A → Bool) → List A → List A
  filter_if p [] = []
  filter_if p (x ∷ xs) = let rest = filter_if p xs in if p x then x ∷ rest else rest

  abbrev pub any : (A → Bool) → List A → Bool
  any p [] = false
  any p (x ∷ xs) = p x || any p xs

  abbrev pub All {κ} : (A → Type κ) → List A → Type κ
  All P [] = Unit
  All P (x ∷ xs) = P x × All P xs

  pub length-append : (xs ys : List A) → length (xs ++ ys) ≡ length xs + length ys
  length-append [] ys = omega arith
  length-append (x ∷ xs) ys = omega (arith, length-append xs ys)

  pub length-modify : (xs : List A) (i : ℕ) (f : A → A) → length (modify xs i f) ≡ length xs
  length-modify [] i f = refl
  length-modify (x ∷ xs) zero f = refl
  length-modify (x ∷ xs) (suc i) f = omega (arith, length-modify xs i f)

  abbrev pub apply_some : (A → A) → Option A → Option A
  apply_some f none = none
  apply_some f (some x) = some (f x)

  pub get_elem?-modify :
      (xs : List A) (i j : ℕ) (f : A → A)
      → get_elem? (modify xs i f) j
        ≡ (if nat_beq i j then apply_some f (get_elem? xs j) else get_elem? xs j)
  get_elem?-modify [] i j f = ground arith
  get_elem?-modify (x ∷ xs) zero zero f = refl
  get_elem?-modify (x ∷ xs) zero (suc j) f = ground arith
  get_elem?-modify (x ∷ xs) (suc i) zero f = ground arith
  get_elem?-modify (x ∷ xs) (suc i) (suc j) f = ground (arith, get_elem?-modify xs i j f)

  pub get_elem?-append :
      (xs : List A) (y : A) (j : ℕ)
      → get_elem? (xs ++ y ∷ []) j ≡ (if nat_beq j (length xs) then some y else get_elem? xs j)
  get_elem?-append [] y zero = refl
  get_elem?-append [] y (suc j) = ground arith
  get_elem?-append (x ∷ xs) y zero = ground arith
  get_elem?-append (x ∷ xs) y (suc j) = ground (arith, get_elem?-append xs y j)

  pub modify-append :
      (xs : List A) (y : A) (f : A → A) → modify (xs ++ y ∷ []) (length xs) f ≡ xs ++ f y ∷ []
  modify-append [] y f = refl
  modify-append (x ∷ xs) y f = rw (modify-append xs y f) refl

  pub count_if-append :
      (p : A → Bool) (xs ys : List A) → count_if p (xs ++ ys) ≡ count_if p xs + count_if p ys
  count_if-append p [] ys = omega arith
  count_if-append p (x ∷ xs) ys = omega (arith, count_if-append p xs ys)

  pub get_elem?-append_old :
      (xs : List A) (y : A) (j : ℕ) {t : A}
      → get_elem? xs j ≡ some t
      → get_elem? (xs ++ y ∷ []) j ≡ some t
  get_elem?-append_old [] y j h = cc
  get_elem?-append_old (x ∷ xs) y zero h = h
  get_elem?-append_old (x ∷ xs) y (suc j) h = get_elem?-append_old xs y j h

  -- Changing one item moves a count by what the test says of the old and of the new item.
  pub count_if-modify :
      (p : A → Bool) (xs : List A) (k : ℕ) (f : A → A) {t : A}
      → get_elem? xs k ≡ some t
      → count_if p (modify xs k f) + (if p t then 1 else 0)
        ≡ count_if p xs + (if p (f t) then 1 else 0)
  count_if-modify p [] k f h = cc
  count_if-modify p (x ∷ xs) zero f h = ground arith
  count_if-modify p (x ∷ xs) (suc k) f {t} h = omega (arith, count_if-modify p xs k f h)

  pub count_if-modify_same :
      (p : A → Bool) (xs : List A) (k : ℕ) (f : A → A)
      → ((x : A) → p (f x) ≡ p x)
      → count_if p (modify xs k f) ≡ count_if p xs
  count_if-modify_same p [] k f h = refl
  count_if-modify_same p (x ∷ xs) zero f h = rw (h x)
  count_if-modify_same p (x ∷ xs) (suc k) f h = rw (count_if-modify_same p xs k f h)

  pub All-map {κ κ'} :
      (P : A → Type κ) (Q : A → Type κ') (xs : List A) → All P xs → ((x : A) → P x → Q x) → All Q xs
  All-map P Q [] h f = tt
  All-map P Q (x ∷ xs) h f = (f x h.0, All-map P Q xs h.1 f)

  pub All-append {κ} : (P : A → Type κ) (xs ys : List A) → All P xs → All P ys → All P (xs ++ ys)
  All-append P [] ys h k = k
  All-append P (x ∷ xs) ys h k = (h.0, All-append P xs ys h.1 k)

  -- What is kept has passed the test, and keeps what held of the whole list.
  pub All-filter_if {κ} :
      (P : A → Type κ) (p : A → Bool) (xs : List A)
      → All P xs
      → All (λ x. P x × (p x ≡ true)) (filter_if p xs)
  All-filter_if P p [] h = tt
  All-filter_if P p (x ∷ xs) h = elim (Bool-cases (p x)) [
    | inl kept ↦ rw kept ((h.0, kept), All-filter_if P p xs h.1)
    | inr dropped ↦ rw dropped (All-filter_if P p xs h.1)
  ]

  pub length-filter_if : (p : A → Bool) (xs : List A) → length (filter_if p xs) ≡ count_if p xs
  length-filter_if p [] = refl
  length-filter_if p (x ∷ xs) = ground (arith, length-filter_if p xs)

  pub count_if-filter_if :
      (p q : A → Bool) (xs : List A) → count_if p (filter_if q xs) ≡ count_if (λ x. q x && p x) xs
  count_if-filter_if p q [] = refl
  count_if-filter_if p q (x ∷ xs) = ground (arith, count_if-filter_if p q xs)

  pub length-count_if : (xs : List A) → length xs ≡ count_if (λ x. true) xs
  length-count_if [] = refl
  length-count_if (x ∷ xs) = omega (arith, length-count_if xs)

  abbrev pub take : List A → ℕ → List A
  take xs zero = []
  take [] (suc n) = []
  take (x ∷ xs) (suc n) = x ∷ take xs n

  pub take-all : (xs : List A) (n : ℕ) → length xs ≤ n → take xs n ≡ xs
  take-all [] zero h = refl
  take-all [] (suc n) h = refl
  take-all (x ∷ xs) zero h = ground arith
  take-all (x ∷ xs) (suc n) h = rw (take-all xs n (omega arith)) refl

  pub take-append : (xs ys : List A) (n : ℕ) → n ≤ length xs → take (xs ++ ys) n ≡ take xs n
  take-append xs ys zero h = refl
  take-append [] ys (suc n) h = ground arith
  take-append (x ∷ xs) ys (suc n) h = rw (take-append xs ys n (omega arith)) refl

-- `x in xs`
abbrev pub contains : List String → String → Bool
contains [] a = false
contains (x ∷ xs) a = x == a || contains xs a
