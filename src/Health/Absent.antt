-- ===== src/Health/Absent.antt =====
-- The health endpoint on a process that lacks a client.
use ai_developer_copilot_pla.Prelude.{◌≡◌, refl, ◌∙◌, ◌⊎◌, false, Bool-cases, inl, inr, none, arith}
use ai_developer_copilot_pla.Exn.{ok, bind_ok}
use ai_developer_copilot_pla.Process.{Process}
use ai_developer_copilot_pla.Health.Checks.{
  check_db_health, check_redis_health, check_qdrant_health,
}
use ai_developer_copilot_pla.Health.Endpoint.{
  Coroutine, ServiceHealth, probe, overall, before_timeout, ServiceStatus, degraded, HealthResponse,
  health_check,
}
use ai_developer_copilot_pla.Health.Report.{Behaves, health_check-Reports}
use ai_developer_copilot_pla.Health.Availability.{
  Services, database_check, redis_check, qdrant_check, health_of,
}

-- The services that the endpoint asks about.
pub data Checked : Type 0 where
  database redis qdrant : Checked

abbrev pub status_in : Checked → HealthResponse → ServiceStatus
status_in Checked.database r = r.services.database
status_in Checked.redis r = r.services.redis
status_in Checked.qdrant r = r.services.qdrant

-- The service has no client.
abbrev pub IsAbsent : Checked → Process → Type 0
IsAbsent Checked.database p = p.session_read ≡ none
IsAbsent Checked.redis p = p.redis_pool ≡ none
IsAbsent Checked.qdrant p = p.qdrant_client ≡ none

probe-false : (c : Coroutine) → c.outcome ≡ ok false → probe c ≡ ok ServiceStatus.error
unfolding probe
probe-false c h = elim (Bool-cases (before_timeout c.elapsed)) [
  | inl early ↦ rw (early, h)
  | inr late ↦ rw late
]

-- What an answer of the endpoint tells of the probes.
health_check_inv :
    (x y z : Coroutine) (response : HealthResponse)
    → health_check x y z ≡ ok response
    → (probe x ≡ ok response.services.database)
      × (probe y ≡ ok response.services.redis)
      × (probe z ≡ ok response.services.qdrant)
      × (response.status ≡ overall response.services)
unfolding health_check
health_check_inv x y z response h =
    let (a, pa, h₁) = bind_ok (probe x) _ response h in
    let (b, pb, h₂) = bind_ok (probe y) _ response h₁ in
    let (c, pc, h₃) = bind_ok (probe z) _ response h₂ in
    let services : ServiceHealth = record { database = a; redis = b; qdrant = c } in
    let answer : HealthResponse = record { status = overall services; services = services } in
    let same : answer ≡ response = cc h₃ in rw (← same) (pa, pb, pc, refl)

one_error :
    (s t u : ServiceStatus)
    → (s ≡ ServiceStatus.error) ⊎ (t ≡ ServiceStatus.error) ⊎ (u ≡ ServiceStatus.error)
    → overall (record { database = s; redis = t; qdrant = u }) ≡ degraded
one_error s t u h = ground arith

module _ {S : Type 0} (v : Services S) where
  answer-absent :
      (k : Checked) (p : Process) (response : HealthResponse)
      → IsAbsent k p
      → health_of v p ≡ ok response
      → (status_in k response ≡ ServiceStatus.error) × (response.status ≡ degraded)
  unfolding check_db_health check_redis_health check_qdrant_health
  answer-absent Checked.database p response h e =
      let (x, y, z, o) = health_check_inv _ _ _ response e in
      let failed : response.services.database ≡ ServiceStatus.error =
        cc (x, probe-false (database_check v p) (rw h)) in
      (failed, o ∙ one_error _ _ _ (inl failed))
  answer-absent Checked.redis p response h e =
      let (x, y, z, o) = health_check_inv _ _ _ response e in
      let failed : response.services.redis ≡ ServiceStatus.error =
        cc (y, probe-false (redis_check v p) (rw h)) in
      (failed, o ∙ one_error _ _ _ (inr (inl failed)))
  answer-absent Checked.qdrant p response h e =
      let (x, y, z, o) = health_check_inv _ _ _ response e in
      let failed : response.services.qdrant ≡ ServiceStatus.error =
        cc (z, probe-false (qdrant_check v p) (rw h)) in
      (failed, o ∙ one_error _ _ _ (inr (inr failed)))

  -- On every process, however much of its startup was done, and whatever the services do, if no check
  -- is cancelled or lets another exception out that is no `Exception`: the endpoint answers, and where
  -- a service has no client, the answer is `degraded` with an error for that service.
  pub health_of-absent :
      (k : Checked) (p : Process)
      → IsAbsent k p
      → Behaves (database_check v p)
      → Behaves (redis_check v p)
      → Behaves (qdrant_check v p)
      → (response : HealthResponse) × (health_of v p ≡ ok response)
        × (status_in k response ≡ ServiceStatus.error)
        × (response.status ≡ degraded)
  health_of-absent k p absent hd hr hq =
      let (response, answers, _, _, _, _) =
        health_check-Reports (database_check v p) (redis_check v p) (qdrant_check v p) hd hr hq in
      let (failed, degraded_then) = answer-absent k p response absent answers in
      (response, answers, failed, degraded_then)
