-- ===== src/Base/Maps.antt =====
-- Association lists with numbers as keys, and lists indexed by number.
use Prim.Native.Nat.{ℕ, zero, suc}
use mathlib.Core.Path.{◌≡◌, refl, ap}
use mathlib.Core.Logic.{◌≢◌, ◌⊎◌, inl, inr}
use mathlib.Core.List.{List, [], ◌∷◌, ◌++◌}
use mathlib.Core.Option.{Option, none, some}
use native.Mathlib.Omega.{arith}
use epoxy_tls.Base.Tests.{◌==◌, if◌then◌else◌}
use epoxy_tls.Base.Lists.{length}

module _ {ℓ} {A : Type ℓ} where
  unfoldable pub lookup : ℕ → List (ℕ × A) → Option A
  lookup k [] = none
  lookup k ((j, v) ∷ m) = if j == k then some v else lookup k m

  unfoldable pub remove : ℕ → List (ℕ × A) → List (ℕ × A)
  remove k [] = []
  remove k ((j, v) ∷ m) = if j == k then remove k m else (j, v) ∷ remove k m

  unfoldable pub insert : ℕ → A → List (ℕ × A) → List (ℕ × A)
  unfolding remove
  insert k v m = (k, v) ∷ remove k m

  pub lookup-remove :
      (j k : ℕ) (m : List (ℕ × A)) → lookup j (remove k m) ≡ (if k == j then none else lookup j m)
  unfolding lookup remove
  lookup-remove j k [] = ground arith
  lookup-remove j k ((i, v) ∷ m) = ground (arith, lookup-remove j k m)

  pub lookup-insert :
      (j k : ℕ) (v : A) (m : List (ℕ × A))
      → lookup j (insert k v m) ≡ (if k == j then some v else lookup j m)
  unfolding lookup insert
  lookup-insert j k v m = ground (arith, lookup-remove j k m)

  abbrev pub get_elem? : List A → ℕ → Option A
  get_elem? [] i = none
  get_elem? (x ∷ xs) zero = some x
  get_elem? (x ∷ xs) (suc i) = get_elem? xs i

  abbrev pub modify : List A → ℕ → (A → A) → List A
  modify [] i f = []
  modify (x ∷ xs) zero f = f x ∷ xs
  modify (x ∷ xs) (suc i) f = x ∷ modify xs i f

  pub length-modify : (xs : List A) (i : ℕ) (f : A → A) → length (modify xs i f) ≡ length xs
  length-modify [] i f = refl
  length-modify (x ∷ xs) zero f = refl
  length-modify (x ∷ xs) (suc i) f = ap suc (length-modify xs i f)

  pub get_elem?-modify_ne :
      (xs : List A) (i j : ℕ) (f : A → A) → i ≢ j → get_elem? (modify xs i f) j ≡ get_elem? xs j
  get_elem?-modify_ne [] i j f h = refl
  get_elem?-modify_ne (x ∷ xs) zero zero f h = absurd (h refl)
  get_elem?-modify_ne (x ∷ xs) zero (suc j) f h = refl
  get_elem?-modify_ne (x ∷ xs) (suc i) zero f h = refl
  get_elem?-modify_ne (x ∷ xs) (suc i) (suc j) f h =
      get_elem?-modify_ne xs i j f (λ e. h (ap suc e))

  pub get_elem?-modify_self :
      (xs : List A) (i : ℕ) (f : A → A) {x : A}
      → get_elem? xs i ≡ some x
      → get_elem? (modify xs i f) i ≡ some (f x)
  get_elem?-modify_self [] i f h = cc
  get_elem?-modify_self (y ∷ xs) zero f h = ground arith
  get_elem?-modify_self (y ∷ xs) (suc i) f h = get_elem?-modify_self xs i f h

  pub get_elem?-push_old :
      (xs : List A) (i : ℕ) (x : A) → i ≢ length xs → get_elem? (xs ++ (x ∷ [])) i ≡ get_elem? xs i
  get_elem?-push_old [] zero x h = absurd (h refl)
  get_elem?-push_old [] (suc i) x h = refl
  get_elem?-push_old (y ∷ xs) zero x h = refl
  get_elem?-push_old (y ∷ xs) (suc i) x h = get_elem?-push_old xs i x (λ e. h (ap suc e))

  pub get_elem?-push_new : (xs : List A) (x : A) → get_elem? (xs ++ (x ∷ [])) (length xs) ≡ some x
  get_elem?-push_new [] x = refl
  get_elem?-push_new (y ∷ xs) x = get_elem?-push_new xs x

  -- What stood in a modified list at an index.
  pub get_elem?-modify_inv :
      (xs : List A) (i j : ℕ) (f : A → A) {y : A}
      → get_elem? (modify xs i f) j ≡ some y
      → ((j ≢ i) × (get_elem? xs j ≡ some y))
        ⊎ ((j ≡ i) × ((x : A) × (get_elem? xs j ≡ some x) × (y ≡ f x)))
  get_elem?-modify_inv [] i j f h = cc
  get_elem?-modify_inv (x ∷ xs) zero zero f h = inr (refl, (x, refl, ground arith))
  get_elem?-modify_inv (x ∷ xs) zero (suc j) f h = inl ((λ e. omega arith), h)
  get_elem?-modify_inv (x ∷ xs) (suc i) zero f h = inl ((λ e. omega arith), h)
  get_elem?-modify_inv (x ∷ xs) (suc i) (suc j) f h = elim (get_elem?-modify_inv xs i j f h) [
    | inl (n, e) ↦ inl ((λ k. n (omega arith)), e)
    | inr (e, w) ↦ inr (ap suc e, w)
  ]

  pub get_elem?-push_inv :
      (xs : List A) (x : A) (j : ℕ) {y : A}
      → get_elem? (xs ++ (x ∷ [])) j ≡ some y
      → (get_elem? xs j ≡ some y) ⊎ ((j ≡ length xs) × (y ≡ x))
  get_elem?-push_inv [] x zero h = inr (refl, ground arith)
  get_elem?-push_inv [] x (suc j) h = cc
  get_elem?-push_inv (z ∷ xs) x zero h = inl h
  get_elem?-push_inv (z ∷ xs) x (suc j) h = elim (get_elem?-push_inv xs x j h) [
    | inl e ↦ inl e
    | inr (e, w) ↦ inr (ap suc e, w)
  ]
