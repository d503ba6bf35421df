-- ===== src/Exec.antt =====
-- Methods that change an object or the outside world and may raise. What was done before a raise
-- stays done, so the state comes back beside the exception too.
use ai_developer_copilot_pla.Exn.{Exn, Result, ok, raised}

abbrev pub Exec {ℓ κ} : Type ℓ → Type κ → Type (ℓ ⊔ κ)
Exec S A = S → Result A × S

module _ {ℓ κ} {S : Type ℓ} {A : Type κ} where
  abbrev pub pure : A → Exec S A
  pure a s = (ok a, s)

  abbrev pub raise : Exn → Exec S A
  raise e s = (raised e, s)

  abbrev pub lift : Result A → Exec S A
  lift r s = (r, s)

  abbrev pub gets : (S → A) → Exec S A
  gets f s = (ok (f s), s)

abbrev pub modify {ℓ} : {S : Type ℓ} → (S → S) → Exec S (Unit {0})
modify f s = (ok tt, f s)

module _ {ℓ κ μ} {S : Type ℓ} {A : Type κ} {B : Type μ} where
  abbrev pub resume : Result A → S → (A → Exec S B) → Result B × S
  resume (ok a) s f = f a s
  resume (raised e) s f = (raised e, s)

  infixl 10 ◌>>=◌ ◌>>◌
  abbrev pub ◌>>=◌ : Exec S A → (A → Exec S B) → Exec S B
  ◌>>=◌ m f s = let (r, t) = m s in resume r t f

  abbrev pub ◌>>◌ : Exec S A → Exec S B → Exec S B
  m >> n = m >>= λ _. n

module _ {ℓ κ} {S : Type ℓ} {A : Type κ} where
  abbrev pub handle : Result A → S → (Exn → Exec S A) → Result A × S
  handle (ok a) s h = (ok a, s)
  handle (raised e) s h = h e s

  -- `try: m` with a handler for every exception; the handler raises again what it does not catch.
  abbrev pub try_except : Exec S A → (Exn → Exec S A) → Exec S A
  try_except m h s = let (r, t) = m s in handle r t h
