-- ===== src/App/Release.antt =====
-- What a shutdown releases, from whatever the process holds.
use ai_developer_copilot_pla.Prelude.{ℕ, ◌+◌, ◌≡◌, ◌∙◌, sym, ap, none, arith}
use ai_developer_copilot_pla.Exn.{Result, ok}
use ai_developer_copilot_pla.Process.{Process, Drivers}
use ai_developer_copilot_pla.App.Slots.{
  Service, Disposable, Slots, dispose, service_of, slots, client_at, replace, absent, released,
  refused,
}
use ai_developer_copilot_pla.App.Changes.{IsWired, dispose-Disposes}
use ai_developer_copilot_pla.App.Counts.{in_slot, holds, closes}
use ai_developer_copilot_pla.App.Ledger.{counts_closed}
use ai_developer_copilot_pla.App.Leaks.{Closes}
use ai_developer_copilot_pla.App.Lifespan.{shutdown}

replace_absent : (s : Service) (v : Slots) → client_at s v ≡ none → replace s none v ≡ v
replace_absent Service.database v h = ground arith
replace_absent Service.redis v h = ground arith
replace_absent Service.qdrant v h = ground arith
replace_absent Service.storage v h = ground arith
replace_absent Service.llm v h = ground arith
replace_absent Service.embedding v h = ground arith

-- Only the client of the object storage.
abbrev pub only_storage : Slots → Slots
only_storage v = record {
  database = none;
  redis = none;
  qdrant = none;
  storage = v.storage;
  llm = none;
  embedding = none;
}

-- What a disposal does where closing works.
record Frees (s : Service) (p : Process) (end : Result (Unit {0}) × Process) : Type 0 where
  returns : end.0 ≡ ok tt
  wired : IsWired end.1
  freed : slots end.1 ≡ replace s none (slots p)
  counts : (id : ℕ) → closes id end.1.trace ≡ closes id p.trace + in_slot id (client_at s (slots p))

module _ (d : Drivers) (c : Closes d) where
  dispose-Frees :
      (s : Disposable) (p : Process) → IsWired p → Frees (service_of s) p (dispose d s p)
  dispose-Frees s p w =
      let (change, wired) = dispose-Disposes d s p w in
      elim change [
        | absent n r e t ↦ record {
          returns = r;
          wired = wired w;
          freed = e ∙ sym (replace_absent (service_of s) (slots p) n);
          counts = λ id. rw (t, n) (omega arith);
        }
        | released k x r e t ↦ record {
          returns = r;
          wired = wired w;
          freed = e;
          counts = λ id. rw x (counts_closed id p (dispose d s p).1 (service_of s) k t).2;
        }
        | refused k y x z r e t ↦ absurd (cc (z, c p.trace k))
      ]

  -- If closing never raises: from every state in which the four fields of `_DbState` agree, however
  -- much of the startup was done, the shutdown returns. No service but the object storage has a
  -- client then, every client of the others was closed once for each service that held it, and
  -- nothing else was closed.
  pub shutdown_releases :
      (p : Process)
      → IsWired p
      → (q : Process) × (shutdown d p ≡ (ok tt, q))
        × (slots q ≡ only_storage (slots p))
        × ((id : ℕ)
            → closes id q.trace + in_slot id (slots p).storage
              ≡ closes id p.trace + holds id (slots p))
  unfolding shutdown holds
  shutdown_releases p w =
      let p₁ = (dispose d Disposable.embedding p).1 in
      let p₂ = (dispose d Disposable.llm p₁).1 in
      let p₃ = (dispose d Disposable.qdrant p₂).1 in
      let p₄ = (dispose d Disposable.redis p₃).1 in
      let p₅ = (dispose d Disposable.database p₄).1 in
      let f₁ = dispose-Frees Disposable.embedding p w in
      let f₂ = dispose-Frees Disposable.llm p₁ f₁.wired in
      let f₃ = dispose-Frees Disposable.qdrant p₂ f₂.wired in
      let f₄ = dispose-Frees Disposable.redis p₃ f₃.wired in
      let f₅ = dispose-Frees Disposable.database p₄ f₄.wired in
      let s₁ : slots p₁ ≡ replace Service.embedding none (slots p) = f₁.freed in
      let s₂ : slots p₂ ≡ replace Service.llm none (replace Service.embedding none (slots p)) =
        f₂.freed ∙ ap (replace Service.llm none) s₁ in
      let s₃ = f₃.freed ∙ ap (replace Service.qdrant none) s₂ in
      let s₄ = f₄.freed ∙ ap (replace Service.redis none) s₃ in
      (
        p₅,
        rw (f₁.returns, f₂.returns, f₃.returns, f₄.returns, f₅.returns),
        f₅.freed ∙ ap (replace Service.database none) s₄,
        λ id. omega (
          arith,
          f₁.counts id,
          f₂.counts id,
          f₃.counts id,
          f₄.counts id,
          f₅.counts id,
          ap (λ (v : Slots). in_slot id v.llm) s₁,
          ap (λ (v : Slots). in_slot id v.qdrant) s₂,
          ap (λ (v : Slots). in_slot id v.redis) s₃,
          ap (λ (v : Slots). in_slot id v.database) s₄,
        ),
      )
