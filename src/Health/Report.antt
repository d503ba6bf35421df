-- ===== src/Health/Report.antt =====
-- What the health endpoint reports.
use ai_developer_copilot_pla.Prelude.{
  ℕ, ◌<◌, ◌≡◌, refl, Bool, true, false, Option, none, some, ◌↔◌, arith, ◌⊎◌, inl, inr, lt→ltb,
  ltb→lt, ltb, Bool-cases,
}
use ai_developer_copilot_pla.Exn.{Exn, Result, ok, raised, is_exception}
use ai_developer_copilot_pla.Health.Endpoint.{
  ServiceStatus, healthy, ServiceHealth, HealthResponse, Coroutine, probe_timeout, probe, overall,
  before_timeout, health_check,
}

-- The check ends before the timeout and answers `True`.
abbrev pub Succeeds : Coroutine → Type 0
Succeeds c = (n : ℕ) × (c.elapsed ≡ some n) × (n < probe_timeout) × (c.outcome ≡ ok true)

-- The check does not let a cancellation or another such exception out.
abbrev pub Behaves : Coroutine → Type 0
Behaves c = (e : Exn) → c.outcome ≡ raised e → is_exception e ≡ true

abbrev pub Reports : ServiceStatus → Coroutine → Type 0
Reports s c = (s ≡ ServiceStatus.ok) ↔ Succeeds c

-- How a probe ends: with `ok` and a check that succeeds, or with `error` and one that does not.
abbrev Ends : Coroutine → Type 0
Ends c =
    ((probe c ≡ ok ServiceStatus.ok) × Succeeds c)
    ⊎ ((probe c ≡ ok ServiceStatus.error) × (¬ (Succeeds c)))

probe_in_time :
    (n : ℕ) (outcome : Result Bool)
    → n < probe_timeout
    → Behaves (record { elapsed = some n; outcome = outcome })
    → Ends (record { elapsed = some n; outcome = outcome })
unfolding probe
probe_in_time n (ok true) lt b = inl (rw (lt→ltb _ _ lt), (n, refl, lt, refl))
probe_in_time n (ok false) lt b = inr (rw (lt→ltb _ _ lt), λ (m, e, l, o). ground arith)
probe_in_time n (raised x) lt b = inr (rw (lt→ltb _ _ lt, b x refl), λ (m, e, l, o). ground arith)

probe_too_late : (c : Coroutine) → before_timeout c.elapsed ≡ false → Ends c
unfolding probe
probe_too_late c late = inr (rw late, λ (m, e, l, o). ground arith)

ends :
    (elapsed : Option ℕ) (outcome : Result Bool)
    → Behaves (record { elapsed = elapsed; outcome = outcome })
    → Ends (record { elapsed = elapsed; outcome = outcome })
ends none outcome b = probe_too_late _ refl
ends (some n) outcome b = elim (Bool-cases (ltb n probe_timeout)) [
  | inl early ↦ probe_in_time n outcome (ltb→lt n probe_timeout early) b
  | inr late ↦ probe_too_late _ late
]

probe-Reports : (c : Coroutine) → Behaves c → (s : ServiceStatus) × (probe c ≡ ok s) × Reports s c
probe-Reports c b = elim (ends c.elapsed c.outcome b) [
  | inl (answer, success) ↦ (ServiceStatus.ok, answer, (λ _. success, λ _. refl))
  | inr (answer, failure) ↦
      (ServiceStatus.error, answer, (λ e. cc, λ success. absurd (failure success)))
]

-- The check lets an exception out in time that `except Exception` does not catch.
abbrev pub LetsOut : Coroutine → Exn → Type 0
LetsOut c e =
    (n : ℕ) × (c.elapsed ≡ some n)
    × (n < probe_timeout)
    × (c.outcome ≡ raised e)
    × (is_exception e ≡ false)

-- What the end of a probe tells of its check.
abbrev pub Tells : Coroutine → Result ServiceStatus → Type 0
Tells c (ok s) = Reports s c
Tells c (raised e) = LetsOut c e

probe_in_time-Tells :
    (n : ℕ) (outcome : Result Bool)
    → n < probe_timeout
    → let c : Coroutine = record { elapsed = some n; outcome = outcome } in Tells c (probe c)
unfolding probe
probe_in_time-Tells n (ok true) lt = rw (lt→ltb _ _ lt) (λ _. (n, refl, lt, refl), λ _. refl)
probe_in_time-Tells n (ok false) lt = rw (lt→ltb _ _ lt) (λ e. cc, λ (m, e, l, o). ground arith)
probe_in_time-Tells n (raised x) lt = elim (Bool-cases (is_exception x)) [
  | inl caught ↦ rw (lt→ltb _ _ lt, caught) (λ e. cc, λ (m, e, l, o). ground arith)
  | inr not_caught ↦ rw (lt→ltb _ _ lt, not_caught) (n, refl, lt, refl, not_caught)
]

probe_too_late-Tells : (c : Coroutine) → before_timeout c.elapsed ≡ false → Tells c (probe c)
unfolding probe
probe_too_late-Tells c late = rw late (λ e. cc, λ (m, e, l, o). ground arith)

tells :
    (elapsed : Option ℕ) (outcome : Result Bool)
    → let c : Coroutine = record { elapsed = elapsed; outcome = outcome } in Tells c (probe c)
tells none outcome = probe_too_late-Tells _ refl
tells (some n) outcome = elim (Bool-cases (ltb n probe_timeout)) [
  | inl early ↦ probe_in_time-Tells n outcome (ltb→lt n probe_timeout early)
  | inr late ↦ probe_too_late-Tells _ late
]

pub probe-Tells : (c : Coroutine) → Tells c (probe c)
probe-Tells c = tells c.elapsed c.outcome

overall-healthy :
    (s : ServiceHealth)
    → (overall s ≡ healthy) ↔ (
        (s.database ≡ ServiceStatus.ok)
        × (s.redis ≡ ServiceStatus.ok)
        × (s.qdrant ≡ ServiceStatus.ok))
overall-healthy s = ground arith

-- If no check lets anything but subclasses of `Exception` out, the endpoint answers: a service is
-- `ok` exactly if its check ends before the timeout with `True`, and the status is `healthy` exactly
-- if all three services are.
pub health_check-Reports :
    (database redis qdrant : Coroutine)
    → Behaves database
    → Behaves redis
    → Behaves qdrant
    → (response : HealthResponse) × (health_check database redis qdrant ≡ ok response)
      × Reports response.services.database database
      × Reports response.services.redis redis
      × Reports response.services.qdrant qdrant
      × ((response.status ≡ healthy) ↔ (Succeeds database × Succeeds redis × Succeeds qdrant))
unfolding health_check
health_check-Reports database redis qdrant hd hr hq =
    let (a, pa, ra) = probe-Reports database hd in
    let (b, pb, rb) = probe-Reports redis hr in
    let (c, pc, rc) = probe-Reports qdrant hq in
    let services : ServiceHealth = record { database = a; redis = b; qdrant = c } in
    let all = overall-healthy services in
    (
      record { status = overall services; services = services },
      rw (pa, pb, pc),
      ra,
      rb,
      rc,
      (
        λ h. (ra.0 (all.0 h).0, rb.0 (all.0 h).1, rc.0 (all.0 h).2),
        λ (x, y, z). all.1 (ra.1 x, rb.1 y, rc.1 z),
      ),
    )
