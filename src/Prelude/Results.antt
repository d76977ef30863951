-- ===== src/Prelude/Results.antt =====
-- A call that may throw returns an `Outcome`; what it changed before the throw is kept beside it.
use mathlib.Core.Path.{◌≡◌, refl}
use mathlib.Core.Logic.{◌⊎◌, inl, inr}
use mathlib.Core.Bool.{Bool, true, false}
use mathlib.Core.List.{List, [], ◌∷◌}

-- `io_failure`: the runtime or a remote service refused; `refused`: the code itself threw.
pub data Failure : Type 0 where
  io_failure refused : Failure

pub data Outcome {ℓ} (A : Type ℓ) : Type ℓ where
  ok : A → Outcome A
  threw : Failure → Outcome A

-- The next of the outcomes that the environment has planned; an empty plan means `usual` from
-- here on.
abbrev pub next_outcome {ℓ} : {A : Type ℓ} → A → List A → A × List A
next_outcome usual [] = (usual, [])
next_outcome usual (o ∷ os) = (o, os)

-- What a call returns that is made for its effect.
abbrev pub Done : Type 0
Done = Outcome (Unit {0})

abbrev pub succeeded {ℓ} : {A : Type ℓ} → Outcome A → Bool
succeeded (ok _) = true
succeeded (threw _) = false

pub Outcome-cases {ℓ} :
    {A : Type ℓ} (r : Outcome A) → ((a : A) × (r ≡ ok a)) ⊎ ((e : Failure) × (r ≡ threw e))
Outcome-cases (ok a) = inl (a, refl)
Outcome-cases (threw e) = inr (e, refl)
