-- ===== src/App/Leaks.antt =====
-- Which clients are closed, and which are lost.
use ai_developer_copilot_pla.Prelude.{
  ℕ, ◌+◌, ◌≤◌, ◌<◌, ◌≡◌, refl, ap, List, none, some, arith, length, Reach, Reach-invariant,
}
use ai_developer_copilot_pla.Exn.{ok}
use ai_developer_copilot_pla.Process.{Process, fresh, Drivers, Event}
use ai_developer_copilot_pla.App.Slots.{
  Service, Disposable, initialize, dispose, service_of, slots, client_at, Initialized, failed,
  installed, absent, released, refused,
}
use ai_developer_copilot_pla.App.Changes.{initialize-Initializes, dispose-Disposes}
use ai_developer_copilot_pla.App.Counts.{in_slot, holds, opens, closes, one_if_same-cases}
use ai_developer_copilot_pla.App.Ledger.{
  Step, initializes, disposes, Reached, IsSound, fresh-IsSound, Step-IsSound, counts_installed,
  counts_closed, counts_released, counts_held,
}

abbrev pub Closes : Drivers → Type 0
Closes d = (trace : List Event) (client : ℕ) → d.close trace client ≡ ok tt

-- The client is held or closed at most as often as it was constructed.
abbrev AtMostOnce : Process → Type 0
AtMostOnce p = (id : ℕ) → holds id (slots p) + closes id p.trace ≤ opens id p.trace

fresh-AtMostOnce : AtMostOnce fresh
unfolding holds opens closes
fresh-AtMostOnce id = omega arith

module _ (d : Drivers) (c : Closes d) where
  Step-AtMostOnce : (p q : Process) → Step d p q → IsSound p → AtMostOnce p → AtMostOnce q
  Step-AtMostOnce p q (initializes s e) i h id =
      let (change, w) = initialize-Initializes d s p in
      rw e (elim change [
        | failed x r e t ↦ rw (e, t) (h id)
        | installed spec r e t ↦
            ground (arith, counts_installed id p _ s (length p.trace) spec e t, h id)
      ])
  Step-AtMostOnce p q (disposes s e) i h id =
      let (change, w) = dispose-Disposes d s p i.wired in
      rw e (elim change [
        | absent n r e t ↦ rw (e, t) (h id)
        | released k x r e t ↦ ground (
          arith,
          counts_closed id p _ (service_of s) k t,
          counts_released id p _ (service_of s) k x e,
          h id,
        )
        | refused k x y z r e t ↦ cc (c p.trace k)
      ])

  Reached-AtMostOnce : (p : Process) → Reached d p → IsSound p × AtMostOnce p
  Reached-AtMostOnce p reached =
      Reach-invariant (Step d) (λ q. IsSound q × AtMostOnce q)
        (λ q r step h. (Step-IsSound d q r step h.0, Step-AtMostOnce q r step h.0 h.1)) reached
        (fresh-IsSound, fresh-AtMostOnce)

  -- If closing never raises: whatever initializers and disposals were called, in any order, no client
  -- was closed twice, and none that a service holds was closed.
  pub Reached-closed_once :
      (p : Process) → Reached d p → (id : ℕ) → holds id (slots p) + closes id p.trace ≤ 1
  Reached-closed_once p reached id =
      let (i, h) = Reached-AtMostOnce p reached in omega (arith, h id, i.once id)

-- One call as the lifespan makes them: an initializer only where the service has no client.
pub data Turn (d : Drivers) (p q : Process) : Type 0 where
  first : (s : Service) → client_at s (slots p) ≡ none → q ≡ (initialize d s p).1 → Turn d p q
  gives_up : (s : Disposable) → q ≡ (dispose d s p).1 → Turn d p q

Turn-Step : (d : Drivers) (p q : Process) → Turn d p q → Step d p q
Turn-Step d p q (first s n e) = initializes s e
Turn-Step d p q (gives_up s e) = disposes s e

-- Every client that was constructed is either held or closed.
abbrev IsBalanced : Process → Type 0
IsBalanced p = (id : ℕ) → holds id (slots p) + closes id p.trace ≡ opens id p.trace

fresh-IsBalanced : IsBalanced fresh
unfolding holds opens closes
fresh-IsBalanced id = omega arith

-- The client was constructed once at most, and if it was, it is held once or was closed once.
abbrev pub IsAccounted : ℕ → Process → Type 0
IsAccounted id p =
    (opens id p.trace ≤ 1) × (holds id (slots p) + closes id p.trace ≡ opens id p.trace)

module _ (d : Drivers) (c : Closes d) where
  Turn-IsBalanced : (p q : Process) → Turn d p q → IsSound p → IsBalanced p → IsBalanced q
  Turn-IsBalanced p q (first s n e) i h id =
      let (change, w) = initialize-Initializes d s p in
      rw e (elim change [
        | failed x r e t ↦ rw (e, t) (h id)
        | installed spec r e t ↦
            ground
              (arith, counts_installed id p _ s (length p.trace) spec e t, ap (in_slot id) n, h id)
      ])
  Turn-IsBalanced p q (gives_up s e) i h id =
      let (change, w) = dispose-Disposes d s p i.wired in
      rw e (elim change [
        | absent n r e t ↦ rw (e, t) (h id)
        | released k x r e t ↦ ground (
          arith,
          counts_closed id p _ (service_of s) k t,
          counts_released id p _ (service_of s) k x e,
          h id,
        )
        | refused k x y z r e t ↦ cc (c p.trace k)
      ])

  -- If closing never raises, and every initializer was called where its service had no client:
  -- whatever was called, and however constructing went, every client that was constructed is either
  -- held by exactly one service or was closed exactly once.
  pub Reached_balanced : (p : Process) → Reach (Turn d) fresh p → (id : ℕ) → IsAccounted id p
  Reached_balanced p reached id =
      let (i, h) =
        Reach-invariant (Turn d) (λ q. IsSound q × IsBalanced q)
          (λ q r turn h.
            (Step-IsSound d q r (Turn-Step d q r turn) h.0, Turn-IsBalanced q r turn h.0 h.1))
          reached (fresh-IsSound, fresh-IsBalanced) in
      (i.once id, h id)

-- The client was constructed, and is neither held nor closed.
abbrev pub IsLost : ℕ → Process → Type 0
IsLost id p = (id < length p.trace) × (holds id (slots p) ≡ 0) × (closes id p.trace ≡ 0)

Step-IsLost :
    (d : Drivers) (id : ℕ) (p q : Process) → Step d p q → IsSound p → IsLost id p → IsLost id q
Step-IsLost d id p q (initializes s e) i l =
    let (change, w) = initialize-Initializes d s p in
    rw e (elim change [
      | failed x r e t ↦ rw (e, t) l
      | installed spec r e t ↦ ground (
        arith,
        counts_installed id p _ s (length p.trace) spec e t,
        one_if_same-cases id (length p.trace),
        l,
      )
    ])
Step-IsLost d id p q (disposes s e) i l =
    let (change, w) = dispose-Disposes d s p i.wired in
    rw e (elim change [
      | absent n r e t ↦ rw (e, t) l
      | released k x r e t ↦ ground (
        arith,
        counts_closed id p _ (service_of s) k t,
        counts_released id p _ (service_of s) k x e,
        l,
      )
      | refused k x y z r e t ↦ ground (
        arith,
        counts_closed id p _ (service_of s) k t,
        counts_held id p _ (service_of s) k y,
        e,
        l,
      )
    ])

replaced-IsLost :
    (d : Drivers) (p : Process) (s : Service) (client : ℕ)
    → IsSound p
    → AtMostOnce p
    → client_at s (slots p) ≡ some client
    → (initialize d s p).0 ≡ ok tt
    → Initialized d s p (initialize d s p)
    → IsLost client (initialize d s p).1
replaced-IsLost d p s client i h held works (failed x r e t) = cc
replaced-IsLost d p s client i h held works (installed spec r e t) = ground (
  arith,
  counts_installed client p _ s (length p.trace) spec e t,
  ap (in_slot client) held,
  one_if_same-cases client (length p.trace),
  one_if_same-cases client client,
  i.once client,
  i.later client,
  h client,
)

-- If closing never raises, and an initializer is called where its service has a client, and does not
-- raise: that client was not closed, and no calls of initializers and disposals from there on close
-- it or hold it again.
pub replaced_never_closed :
    (d : Drivers)
    → Closes d
    → (p : Process) → Reached d p
    → (s : Service) (client : ℕ) → client_at s (slots p) ≡ some client
    → (initialize d s p).0 ≡ ok tt
    → (q : Process) → Reach (Step d) (initialize d s p).1 q
    → IsLost client q
replaced_never_closed d c p reached s client held works q later =
    let (i, h) = Reached-AtMostOnce d c p reached in
    (Reach-invariant (Step d) (λ r. IsSound r × IsLost client r)
      (λ q r step (sound, lost).
        (Step-IsSound d q r step sound, Step-IsLost d client q r step sound lost))
      later
      (
        Step-IsSound d p _ (initializes s refl) i,
        replaced-IsLost d p s client i h held works (initialize-Initializes d s p).0,
      )).1
