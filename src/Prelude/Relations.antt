-- ===== src/Prelude/Relations.antt =====
-- The states that a step relation reaches.
use Prim.Native.Nat.{ℕ, suc}

module _ {ℓ κ} {A : Type ℓ} where
  pub data Reach (step : A → A → Type κ) (a : A) : A → Type (ℓ ⊔ κ) where
    here : Reach step a a
    next : {b c : A} → Reach step a b → step b c → Reach step a c

  -- What every step keeps holds wherever the relation leads.
  pub Reach-invariant {μ} :
      (step : A → A → Type κ) (P : A → Type μ)
      → ((b c : A) → step b c → P b → P c)
      → {a b : A} → Reach step a b
      → P a
      → P b
  Reach-invariant step P keeps here h = h
  Reach-invariant step P keeps (next {b} {c} reached s) h =
      keeps b c s (Reach-invariant step P keeps reached h)

  -- The number of steps.
  abbrev pub steps : {step : A → A → Type κ} {a b : A} → Reach step a b → ℕ
  steps here = 0
  steps (next reached s) = suc (steps reached)

  pub Reach-trans :
      {step : A → A → Type κ} {a b c : A} → Reach step a b → Reach step b c → Reach step a c
  Reach-trans r here = r
  Reach-trans r (next reached s) = next (Reach-trans r reached) s
