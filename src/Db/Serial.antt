-- ===== src/Db/Serial.antt =====
-- Write sessions one after the other.
use ai_developer_copilot_pla.Prelude.{
  ◌≡◌, ◌≢◌, refl, ◌∙◌, subst, inl, inr, some, List, [], ◌∷◌, arith,
}
use ai_developer_copilot_pla.Exn.{Exn, Result, ok, raised, Result-cases}
use ai_developer_copilot_pla.Exec.{Exec}
use ai_developer_copilot_pla.Process.{SessionMaker}
use ai_developer_copilot_pla.Db.Session.{SessionCalls, get_write_session}
use ai_developer_copilot_pla.Db.Atomicity.{IsTransactional, write_session_atomic}

-- The data after transactions that each take place as a whole or not at all. One that returns has
-- taken place.
pub data Serial {D : Type 0} : D → List (D → D) → List (Result (Unit {0})) → D → Type 0 where
  ends : (x : D) → Serial x [] [] x
  takes_place :
      {x y : D} {f : D → D} {fs : List (D → D)} {results : List (Result (Unit {0}))}
      (r : Result (Unit {0}))
      → Serial (f x) fs results y
      → Serial x (f ∷ fs) (r ∷ results) y
  is_dropped :
      {x y : D} {f : D → D} {fs : List (D → D)} {results : List (Result (Unit {0}))} (e : Exn)
      → Serial x fs results y
      → Serial x (f ∷ fs) (raised e ∷ results) y

module _ {S : Type 0} (session : SessionCalls S) (maker : SessionMaker) where
  abbrev pub Block : Type 0
  Block = Exec S (Unit {0})

  -- The results of sessions that are opened one after the other, whatever those before them do.
  unfoldable pub sessions : List Block → S → List (Result (Unit {0})) × S
  sessions [] s = ([], s)
  sessions (block ∷ blocks) s =
      let (r, t) = get_write_session session (some maker) block s in
      let (rest, u) = sessions blocks t in (r ∷ rest, u)

  -- A session that returns has run its block and committed.
  returned :
      (block : Block) (s : S)
      → (get_write_session session (some maker) block s).0 ≡ ok tt
      → ((block s).0 ≡ ok tt) × ((session.commit (block s).1).0 ≡ ok tt)
  unfolding get_write_session
  returned block s h = ground arith

  module _ {D : Type 0} (committed pending : S → D)
      (t : IsTransactional session committed pending) where
    -- A block that commits nothing, and whose pending work, where it returns, is `f` of the data.
    pub record Does (block : Block) (f : D → D) : Type 0 where
      pub commits_nothing : (s : S) → committed (block s).1 ≡ committed s
      pub work : (s : S) → (block s).0 ≡ ok tt → pending (block s).1 ≡ f (committed s)

    abbrev pub AllDo : List Block → List (D → D) → Type 0
    AllDo [] [] = Unit
    AllDo (block ∷ blocks) (f ∷ fs) = Does block f × AllDo blocks fs
    AllDo [] (f ∷ fs) = ⊥
    AllDo (block ∷ blocks) [] = ⊥

    dropped :
        (r : Result (Unit {0})) (x z y : D) (f : D → D) (fs : List (D → D))
        (results : List (Result (Unit {0})))
        → r ≢ ok tt
        → z ≡ x
        → Serial z fs results y
        → Serial x (f ∷ fs) (r ∷ results) y
    dropped (ok tt) x z y f fs results n e rest = absurd (n refl)
    dropped (raised err) x z y f fs results n e rest =
        is_dropped err (subst (λ w. Serial w fs results y) e rest)

    session-Serial :
        (block : Block) (f : D → D) (s : S) (fs : List (D → D)) (results : List (Result (Unit {0})))
        (y : D)
        → Does block f
        → let (r, u) = get_write_session session (some maker) block s in
          Serial (committed u) fs results y → Serial (committed s) (f ∷ fs) (r ∷ results) y
    session-Serial block f s fs results y b rest =
        let (r, u) = get_write_session session (some maker) block s in
        let atomic =
          write_session_atomic session committed pending t maker block s (b.commits_nothing s) in
        let drop = λ (n : r ≢ ok tt) (e : committed u ≡ committed s).
          dropped r (committed s) (committed u) y f fs results n e rest in
        elim (Result-cases (block s).0) [
          | inr (x, h) ↦ drop (λ e. cc (h, (returned block s e).0)) (rw h at atomic)
          | inl (tt, h) ↦ elim (Result-cases (session.commit (block s).1).0) [
            | inr (x, c) ↦ drop (λ e. cc (c, (returned block s e).1)) (rw (h, c) at atomic)
            | inl (tt, c) ↦
                takes_place r
                  (subst (λ w. Serial w fs results y) (rw (h, c) at atomic ∙ b.work s h) rest)
          ]
        ]

    -- Over a transactional database, if the blocks commit nothing by themselves and the pending work
    -- of one that returns is a function of the committed data: whatever the blocks, the commits, the
    -- rollbacks and the closings do, of write sessions that are opened one after the other each takes
    -- place as a whole or not at all, and one that returns has taken place. The committed data behind
    -- them are those of the transactions that took place, in that order.
    pub sessions-Serial :
        (blocks : List Block) (fs : List (D → D)) (s : S)
        → AllDo blocks fs
        → Serial (committed s) fs (sessions blocks s).0 (committed (sessions blocks s).1)
    unfolding sessions
    sessions-Serial [] [] s h = ends (committed s)
    sessions-Serial (block ∷ blocks) (f ∷ fs) s (b, h) =
        let (r, u) = get_write_session session (some maker) block s in
        session-Serial block f s fs (sessions blocks u).0 (committed (sessions blocks u).1) b
          (sessions-Serial blocks fs u h)
    sessions-Serial [] (f ∷ fs) s h = absurd h
    sessions-Serial (block ∷ blocks) [] s h = absurd h
