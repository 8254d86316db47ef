-- ===== src/Base/Loops.antt =====
-- Statements that may panic, and `for ... range` loops over them.
use mathlib.Core.Path.{◌≡◌, refl, subst}
use mathlib.Core.Logic.{◌⊎◌, inl, inr}
use mathlib.Core.List.{List, [], ◌∷◌, ◌++◌, flat_map}

-- The outcome of a statement: the state after it, or a run-time panic.
pub data Outcome {ℓ} (A : Type ℓ) : Type ℓ where
  done : A → Outcome A
  panic : Outcome A

infixl 5 ◌>>=◌
abbrev pub ◌>>=◌ {ℓ κ} : {A : Type ℓ} {B : Type κ} → Outcome A → (A → Outcome B) → Outcome B
done a >>= f = f a
panic >>= f = panic

pub Outcome-cases {ℓ} : {A : Type ℓ} (o : Outcome A) → (o ≡ panic) ⊎ ((a : A) × (o ≡ done a))
Outcome-cases panic = inl refl
Outcome-cases (done a) = inr (a, refl)

-- A property of the result, if there is one.
unfoldable pub Holds {ℓ} : {A : Type ℓ} → (A → Type 0) → Outcome A → Type 0
Holds P (done a) = P a
Holds P panic = Unit {0}

pub Holds-done {ℓ} : {A : Type ℓ} (P : A → Type 0) (a : A) → P a → Holds P (done a)
unfolding Holds
Holds-done P a h = h

pub Holds-bind {ℓ κ} :
    {A : Type ℓ} {B : Type κ} (P : B → Type 0) (o : Outcome A) (f : A → Outcome B)
    → ((a : A) → Holds P (f a))
    → Holds P (o >>= f)
unfolding Holds
Holds-bind P (done a) f h = h a
Holds-bind P panic f h = tt

pub Holds-result {ℓ} :
    {A : Type ℓ} (P : A → Type 0) (o : Outcome A) (a : A) → o ≡ done a → Holds P o → P a
unfolding Holds
Holds-result P o a e h = subst (Holds P) e h

pub done-injective {ℓ} : {A : Type ℓ} {a b : A} → done a ≡ done b → a ≡ b
done-injective h = cc

module _ {ℓ κ} {A : Type ℓ} {S : Type κ} where
  -- `for _, x := range xs { body }`
  unfoldable pub for_each : (A → S → Outcome S) → List A → S → Outcome S
  for_each body [] s = done s
  for_each body (x ∷ xs) s = body x s >>= for_each body xs

  for_each-append :
      (body : A → S → Outcome S) (xs ys : List A) (s : S)
      → for_each body (xs ++ ys) s ≡ (for_each body xs s >>= for_each body ys)
  unfolding for_each
  for_each-append body [] ys s = refl
  for_each-append body (x ∷ xs) ys s = elim (Outcome-cases (body x s)) [
    | inl e ↦ rw e
    | inr (s', e) ↦ rw e (for_each-append body xs ys s')
  ]

-- A loop inside a loop visits the concatenation.
pub for_each-flat_map {ℓ κ μ} :
    {A : Type ℓ} {B : Type μ} {S : Type κ} (body : A → S → Outcome S) (items : B → List A)
    (bs : List B) (s : S)
    → for_each (λ b. for_each body (items b)) bs s ≡ for_each body (flat_map items bs) s
unfolding for_each flat_map
for_each-flat_map body items [] s = refl
for_each-flat_map body items (b ∷ bs) s =
    rw (for_each-append body (items b) (flat_map items bs) s)
      (elim (Outcome-cases (for_each body (items b) s)) [
        | inl e ↦ rw e
        | inr (s', e) ↦ rw e (for_each-flat_map body items bs s')
      ])
