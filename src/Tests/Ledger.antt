-- ===== src/Tests/Ledger.antt =====
-- Initializers and disposals in orders other than those of the lifespan.
use ai_developer_copilot_pla.Prelude.{
  ℕ, ◌+◌, ◌≤◌, ◌≡◌, refl, some, List, [], ◌∷◌, Reach, here, next,
}
use ai_developer_copilot_pla.Exn.{ok}
use ai_developer_copilot_pla.Process.{Process, fresh, opened, close_called}
use ai_developer_copilot_pla.App.Slots.{Service, Disposable, initialize, dispose, slots, client_at}
use ai_developer_copilot_pla.App.Counts.{holds, closes, in_slot}
use ai_developer_copilot_pla.App.Ledger.{initializes, disposes, Reached, IsSound, Reached-IsSound}
use ai_developer_copilot_pla.App.Leaks.{
  Turn, first, gives_up, IsLost, IsAccounted, Reached-closed_once, Reached_balanced,
  replaced_never_closed,
}
use ai_developer_copilot_pla.Cache.Client.{initialize_redis, dispose_redis}
use ai_developer_copilot_pla.Storage.Client.{initialize_storage}
use ai_developer_copilot_pla.App.Lifespan.{shutdown}
use ai_developer_copilot_pla.App.Release.{only_storage, shutdown_releases}
use ai_developer_copilot_pla.App.Refinement.{
  view, Operation, initializing, disposing, perform_all, abstract_perform_all, perform_all_refines,
}
use ai_developer_copilot_pla.App.Effects.{spec_of}
use ai_developer_copilot_pla.App.Sources.{IsConfigured, Reached-IsConfigured}
use ai_developer_copilot_pla.Tests.App.{defaults, drivers, drivers-Works}

abbrev connected : Process
connected = (initialize drivers Service.redis fresh).1

abbrev disconnected : Process
disconnected = (dispose drivers Disposable.redis connected).1

connected-Reached : Reached drivers connected
connected-Reached = next here (initializes Service.redis refl)

disconnected-Reached : Reached drivers disconnected
disconnected-Reached = next connected-Reached (disposes Disposable.redis refl)

disconnected-Turns : Reach (Turn drivers) fresh disconnected
disconnected-Turns =
    next (next here (first Service.redis refl refl)) (gives_up Disposable.redis refl)

connected_holds : client_at Service.redis (slots connected) ≡ some 0
unfolding initialize_redis
connected_holds = refl

connected_again : (initialize drivers Service.redis connected).0 ≡ ok tt
unfolding initialize_redis
connected_again = refl

abbrev operations : List Operation
operations =
    initializing Service.redis
    ∷ initializing Service.redis
    ∷ disposing Disposable.redis
    ∷ disposing Disposable.database
    ∷ []

perform_all_refines_example :
    ((perform_all drivers operations fresh).0, view (perform_all drivers operations fresh).1)
    ≡ abstract_perform_all drivers operations (view fresh)
perform_all_refines_example = perform_all_refines drivers operations fresh (refl, refl, refl)

-- The first of two pools is lost.
abstract_perform_all_test :
    (abstract_perform_all drivers operations (view fresh)).1.trace
    ≡ opened 0 (spec_of defaults Service.redis)
      ∷ opened 1 (spec_of defaults Service.redis)
      ∷ close_called 1
      ∷ []
unfolding abstract_perform_all
abstract_perform_all_test = refl

Reached-IsSound_example : IsSound disconnected
Reached-IsSound_example = Reached-IsSound drivers disconnected disconnected-Reached

Reached-closed_once_example : holds 0 (slots disconnected) + closes 0 disconnected.trace ≤ 1
Reached-closed_once_example =
    Reached-closed_once drivers drivers-Works.closes disconnected disconnected-Reached 0

Reached_balanced_example : IsAccounted 0 disconnected
Reached_balanced_example =
    Reached_balanced drivers drivers-Works.closes disconnected disconnected-Turns 0

replaced_never_closed_example :
    IsLost 0 (dispose drivers Disposable.redis (initialize drivers Service.redis connected).1).1
replaced_never_closed_example =
    replaced_never_closed drivers drivers-Works.closes connected connected-Reached Service.redis 0
      connected_holds connected_again
      (dispose drivers Disposable.redis (initialize drivers Service.redis connected).1).1
      (next here (disposes Disposable.redis refl))

-- A process with Redis and the object storage, after the startup was given up.
abbrev half_started : Process
half_started = (initialize drivers Service.storage connected).1

shutdown_releases_example :
    (q : Process) × (shutdown drivers half_started ≡ (ok tt, q))
    × (slots q ≡ only_storage (slots half_started))
    × ((id : ℕ)
        → closes id q.trace + in_slot id (slots half_started).storage
          ≡ closes id half_started.trace + holds id (slots half_started))
unfolding initialize_redis initialize_storage
shutdown_releases_example =
    shutdown_releases drivers drivers-Works.closes half_started (refl, refl, refl)

Reached-IsConfigured_example : IsConfigured disconnected
Reached-IsConfigured_example = Reached-IsConfigured drivers disconnected disconnected-Reached

-- The one client of that process, with the arguments from the settings.
disconnected_test :
    disconnected.trace ≡ opened 0 (spec_of defaults Service.redis) ∷ close_called 0 ∷ []
unfolding initialize_redis dispose_redis
disconnected_test = refl
