-- ===== src/Prelude/Places.antt =====
-- What stands at a place of a list after a write or an addition at the end.
use Prim.Native.Nat.{ℕ, zero, suc}
use mathlib.Core.Path.{◌≡◌, refl}
use mathlib.Core.Logic.{◌≢◌, ◌⊎◌, inl, inr}
use mathlib.Core.List.{List, [], ◌∷◌, ◌++◌}
use mathlib.Core.Option.{some}
use native.Mathlib.Omega.{arith}
use atomic_queue.Prelude.Lists.{length, get_elem?, set}

module _ {ℓ} {A : Type ℓ} where
  -- What stands at a place after a write: the new value at its own place, or what stood there.
  pub get_elem?-set :
      (xs : List A) (i : ℕ) (v : A) (j : ℕ) (x : A)
      → get_elem? (set xs i v) j ≡ some x
      → ((i ≡ j) × (x ≡ v)) ⊎ ((i ≢ j) × (get_elem? xs j ≡ some x))
  get_elem?-set [] i v j x h = cc
  get_elem?-set (y ∷ xs) zero v zero x h = inl (refl, cc)
  get_elem?-set (y ∷ xs) zero v (suc j) x h = inr (λ e. omega arith, h)
  get_elem?-set (y ∷ xs) (suc i) v zero x h = inr (λ e. omega arith, h)
  get_elem?-set (y ∷ xs) (suc i) v (suc j) x h = elim (get_elem?-set xs i v j x h) [
    | inl (e, same) ↦ inl (omega arith, same)
    | inr (ne, at) ↦ inr (λ e. ne (omega arith), at)
  ]

  pub get_elem?-snoc :
      (xs : List A) (v : A) (j : ℕ) (x : A)
      → get_elem? (xs ++ v ∷ []) j ≡ some x
      → ((j ≡ length xs) × (x ≡ v)) ⊎ (get_elem? xs j ≡ some x)
  get_elem?-snoc [] v zero x h = inl (refl, cc)
  get_elem?-snoc [] v (suc j) x h = cc
  get_elem?-snoc (y ∷ xs) v zero x h = inr h
  get_elem?-snoc (y ∷ xs) v (suc j) x h = elim (get_elem?-snoc xs v j x h) [
    | inl (e, same) ↦ inl (omega arith, same)
    | inr at ↦ inr at
  ]

  pub kept_by_snoc :
      (xs : List A) (v : A) (j : ℕ) (x : A)
      → get_elem? xs j ≡ some x
      → get_elem? (xs ++ v ∷ []) j ≡ some x
  kept_by_snoc [] v j x h = cc
  kept_by_snoc (y ∷ xs) v zero x h = h
  kept_by_snoc (y ∷ xs) v (suc j) x h = kept_by_snoc xs v j x h

  pub kept_by_set :
      (xs : List A) (i : ℕ) (v : A) (j : ℕ) (x : A)
      → i ≢ j
      → get_elem? xs j ≡ some x
      → get_elem? (set xs i v) j ≡ some x
  kept_by_set [] i v j x ne h = cc
  kept_by_set (y ∷ xs) zero v zero x ne h = absurd (ne refl)
  kept_by_set (y ∷ xs) zero v (suc j) x ne h = h
  kept_by_set (y ∷ xs) (suc i) v zero x ne h = h
  kept_by_set (y ∷ xs) (suc i) v (suc j) x ne h = kept_by_set xs i v j x (λ e. ne (omega arith)) h

  pub written :
      (xs : List A) (i : ℕ) (v x : A) → get_elem? xs i ≡ some x → get_elem? (set xs i v) i ≡ some v
  written [] i v x h = cc
  written (y ∷ xs) zero v x h = refl
  written (y ∷ xs) (suc i) v x h = written xs i v x h

  pub at_end : (xs : List A) (v : A) → get_elem? (xs ++ v ∷ []) (length xs) ≡ some v
  at_end [] v = refl
  at_end (y ∷ xs) v = at_end xs v
