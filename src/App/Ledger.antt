-- ===== src/App/Ledger.antt =====
-- The clients of a process under initializers and disposals in any order.
use ai_developer_copilot_pla.Prelude.{
  ℕ, ◌+◌, ◌≤◌, ◌≡◌, refl, [], ◌∷◌, ◌++◌, none, some, arith, length, length-append, Reach,
  Reach-invariant,
}
use ai_developer_copilot_pla.Exn.{Result}
use ai_developer_copilot_pla.Process.{Process, fresh, Drivers, ClientSpec, opened, close_called}
use ai_developer_copilot_pla.App.Slots.{
  Service, Disposable, initialize, dispose, service_of, slots, client_at, replace, Initialized,
  failed, installed, Disposed, absent, released, refused,
}
use ai_developer_copilot_pla.App.Changes.{IsWired, initialize-Initializes, dispose-Disposes}
use ai_developer_copilot_pla.App.Counts.{
  one_if_same, in_slot, holds, opens, closes, one_if_same-cases, holds-replace, in_slot-holds,
  opens-opened, closes-opened, opens-close_called, closes-close_called,
}

-- One call of an initializer or a disposal, however it ends.
pub data Step (d : Drivers) (p q : Process) : Type 0 where
  initializes : (s : Service) → q ≡ (initialize d s p).1 → Step d p q
  disposes : (s : Disposable) → q ≡ (dispose d s p).1 → Step d p q

-- What any calls make of a process that has done nothing yet.
abbrev pub Reached : Drivers → Process → Type 0
Reached d = Reach (Step d) fresh

-- Every client was constructed at most once, only constructed clients are held or closed, and a
-- client is held once at most.
pub record IsSound (p : Process) : Type 0 where
  pub wired : IsWired p
  pub later : (id : ℕ) → length p.trace ≤ id → opens id p.trace ≡ 0
  pub once : (id : ℕ) → opens id p.trace ≤ 1
  pub held : (id : ℕ) → holds id (slots p) ≤ opens id p.trace
  pub was_opened : (id : ℕ) → opens id p.trace ≡ 0 → closes id p.trace ≡ 0

pub fresh-IsSound : IsSound fresh
unfolding holds opens closes
fresh-IsSound = record {
  wired = (refl, refl, refl);
  later = λ id h. refl;
  once = λ id. omega arith;
  held = λ id. omega arith;
  was_opened = λ id h. refl;
}

-- What a change does to the counts of one client.
module _ (id : ℕ) (p q : Process) (s : Service) (c : ℕ) where
  pub counts_installed :
      (spec : ClientSpec)
      → slots q ≡ replace s (some c) (slots p)
      → q.trace ≡ p.trace ++ opened c spec ∷ []
      → (length q.trace ≡ length p.trace + 1)
        × (opens id q.trace ≡ opens id p.trace + one_if_same id c)
        × (closes id q.trace ≡ closes id p.trace)
        × (holds id (slots q) + in_slot id (client_at s (slots p))
            ≡ holds id (slots p) + one_if_same id c)
  counts_installed spec e t = (
    rw t (length-append p.trace (opened c spec ∷ [])),
    rw t (opens-opened id c spec p.trace),
    rw t (closes-opened id c spec p.trace),
    rw e (holds-replace id s (some c) (slots p)),
  )

  pub counts_closed :
      q.trace ≡ p.trace ++ close_called c ∷ []
      → (length q.trace ≡ length p.trace + 1)
        × (opens id q.trace ≡ opens id p.trace)
        × (closes id q.trace ≡ closes id p.trace + one_if_same id c)
  counts_closed t = (
    rw t (length-append p.trace (close_called c ∷ [])),
    rw t (opens-close_called id c p.trace),
    rw t (closes-close_called id c p.trace),
  )

  pub counts_released :
      client_at s (slots p) ≡ some c
      → slots q ≡ replace s none (slots p)
      → holds id (slots q) + one_if_same id c ≡ holds id (slots p)
  counts_released h e = rw e (omega (arith, rw h at (holds-replace id s none (slots p))))

  pub counts_held : client_at s (slots p) ≡ some c → one_if_same id c ≤ holds id (slots p)
  counts_held h = rw h at (in_slot-holds id s (slots p))

Initialized-IsSound :
    (d : Drivers) (s : Service) (p : Process) (end : Result (Unit {0}) × Process)
    → Initialized d s p end
    → IsWired end.1
    → IsSound p
    → IsSound end.1
Initialized-IsSound d s p end (failed x r e t) w i = record {
  wired = w;
  later = rw t i.later;
  once = rw t i.once;
  held = rw (t, e) i.held;
  was_opened = rw t i.was_opened;
}
Initialized-IsSound d s p end (installed spec r e t) w i =
    let n : ℕ = length p.trace in
    let counts = λ (id : ℕ). counts_installed id p end.1 s n spec e t in
    record {
      wired = w;
      later = λ id h. ground (arith, counts id, one_if_same-cases id n, i.later id);
      once = λ id. ground (arith, counts id, one_if_same-cases id n, i.later id, i.once id);
      held = λ id. ground (arith, counts id, one_if_same-cases id n, i.held id);
      was_opened = λ id h. ground (arith, counts id, i.was_opened id);
    }

Disposed-IsSound :
    (d : Drivers) (s : Service) (p : Process) (end : Result (Unit {0}) × Process)
    → Disposed d s p end
    → IsWired end.1
    → IsSound p
    → IsSound end.1
Disposed-IsSound d s p end (absent none_there r e t) w i = record {
  wired = w;
  later = rw t i.later;
  once = rw t i.once;
  held = rw (t, e) i.held;
  was_opened = rw t i.was_opened;
}
Disposed-IsSound d s p end (released c h r e t) w i =
    let counts = λ (id : ℕ). counts_closed id p end.1 s c t in
    record {
      wired = w;
      later = λ id l. ground (arith, counts id, i.later id);
      once = λ id. ground (arith, counts id, i.once id);
      held = λ id. ground (arith, counts id, counts_released id p end.1 s c h e, i.held id);
      was_opened = λ id n.
          ground (arith, counts id, counts_held id p end.1 s c h, i.held id, i.was_opened id);
    }
Disposed-IsSound d s p end (refused c x h k r e t) w i =
    let counts = λ (id : ℕ). counts_closed id p end.1 s c t in
    record {
      wired = w;
      later = λ id l. ground (arith, counts id, i.later id);
      once = λ id. ground (arith, counts id, i.once id);
      held = λ id. ground (arith, counts id, e, i.held id);
      was_opened = λ id n.
          ground (arith, counts id, counts_held id p end.1 s c h, i.held id, i.was_opened id);
    }

pub Step-IsSound : (d : Drivers) (p q : Process) → Step d p q → IsSound p → IsSound q
Step-IsSound d p q (initializes s e) i =
    let (change, w) = initialize-Initializes d s p in
    rw e (Initialized-IsSound d s p _ change (w i.wired) i)
Step-IsSound d p q (disposes s e) i =
    let (change, w) = dispose-Disposes d s p i.wired in
    rw e (Disposed-IsSound d (service_of s) p _ change (w i.wired) i)

-- Whatever initializers and disposals were called, in any order, and however constructing and closing
-- went: the four fields of `_DbState` name one engine; every client was constructed at most once;
-- every client that a service holds was constructed, and no two services hold the same; no client
-- was closed that was not constructed.
pub Reached-IsSound : (d : Drivers) (p : Process) → Reached d p → IsSound p
Reached-IsSound d p reached =
    Reach-invariant (Step d) IsSound (Step-IsSound d) reached fresh-IsSound
