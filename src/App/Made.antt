-- ===== src/App/Made.antt =====
-- What a service holds, and that it is made of the settings.
use ai_developer_copilot_pla.Prelude.{ℕ, ◌≡◌, List, [], ◌∷◌, ◌++◌, Option, none, some}
use mathlib.Core.List.{Mem, mem-append_left, mem-append_right, mem-cons_self}
use ai_developer_copilot_pla.Config.{Settings}
use ai_developer_copilot_pla.Process.{Event, opened}
use ai_developer_copilot_pla.App.Slots.{Service}
use ai_developer_copilot_pla.App.Effects.{spec_of}

-- What the `_state` of a service holds: nothing, or what is made of the cached settings and a client
-- that was constructed with the arguments that the service takes from them.
pub data IsMade {A : Type 0} (k : Service) (make : Settings → ℕ → A) (client : A → ℕ)
    : Option Settings → Option A → List Event → Type 0 where
  nothing_held : (o : Option Settings) (trace : List Event) → IsMade k make client o none trace
  made :
      (s : Settings) (a : A) (trace : List Event)
      → a ≡ make s (client a)
      → Mem (opened (client a) (spec_of s k)) trace
      → IsMade k make client (some s) (some a) trace

module _ {A : Type 0} {k : Service} {make : Settings → ℕ → A} {client : A → ℕ} where
  pub later-IsMade :
      (e : Event) {o : Option Settings} {held : Option A} {trace : List Event}
      → IsMade k make client o held trace
      → IsMade k make client o held (trace ++ e ∷ [])
  later-IsMade e (nothing_held o trace) = nothing_held o (trace ++ e ∷ [])
  later-IsMade e (made s a trace same there) =
      made s a (trace ++ e ∷ []) same (mem-append_left (e ∷ []) there)

  pub cached-IsMade :
      (s : Settings) {o : Option Settings} {held : Option A} {trace : List Event}
      → o ≡ none
      → IsMade k make client o held trace
      → IsMade k make client (some s) held trace
  cached-IsMade s none_read (nothing_held o trace) = nothing_held (some s) trace
  cached-IsMade s none_read (made t a trace same there) = absurd (cc none_read)

  pub now-IsMade :
      (s : Settings) (id : ℕ) {o : Option Settings} (trace : List Event)
      → o ≡ some s
      → client (make s id) ≡ id
      → IsMade k make client o (some (make s id)) (trace ++ opened id (spec_of s k) ∷ [])
  now-IsMade s id trace cached e = rw cached (
      made s (make s id) _ (rw e)
        (mem-append_right trace (rw e (mem-cons_self {a = opened id (spec_of s k)} {l = []}))))
