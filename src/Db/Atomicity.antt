-- ===== src/Db/Atomicity.antt =====
-- When the work of a write session is kept.
use ai_developer_copilot_pla.Prelude.{◌≡◌, ◌∙◌, inl, inr, some, arith, if◌then◌else◌}
use ai_developer_copilot_pla.Exn.{Exn, Result, ok, raised, is_exception, Result-cases}
use ai_developer_copilot_pla.Exec.{Exec}
use ai_developer_copilot_pla.Process.{SessionMaker}
use ai_developer_copilot_pla.Db.Session.{SessionCalls, get_write_session, get_read_session}

-- The committed data after a write session, from the results of its block and of the commit behind
-- that: those that were pending if both succeed, and those from before otherwise.
abbrev pub kept : {A D : Type 0} → Result A → Result (Unit {0}) → D → D → D
kept (ok a) (ok done) before work = work
kept (ok a) (raised e) before work = before
kept (raised e) c before work = before

-- A transactional database: what is committed changes only by a commit that succeeds, which keeps
-- the pending work, and a rollback or a close drops that work.
pub record IsTransactional {S D : Type 0} (session : SessionCalls S) (committed pending : S → D)
    : Type 0 where
  pub commit_ok :
      (s : S) → (session.commit s).0 ≡ ok tt → committed (session.commit s).1 ≡ pending s
  pub commit_raised :
      (s : S) (e : Exn)
      → (session.commit s).0 ≡ raised e
      → committed (session.commit s).1 ≡ committed s
  pub rollback_keeps : (s : S) → committed (session.rollback s).1 ≡ committed s
  pub close_keeps : (s : S) → committed (session.close s).1 ≡ committed s

module _ {S D A : Type 0} (session : SessionCalls S) (committed pending : S → D)
    (t : IsTransactional session committed pending) (maker : SessionMaker) (block : Exec S A)
    (s : S) (untouched : committed (block s).1 ≡ committed s) where
  discards_raised :
      (e : Exn)
      → (block s).0 ≡ raised e
      → committed (get_write_session session (some maker) block s).1 ≡ committed s
  unfolding get_write_session
  discards_raised e h = ground (
    arith,
    t.close_keeps (block s).1,
    t.rollback_keeps (block s).1,
    t.close_keeps (session.rollback (block s).1).1,
  )

  discards_uncommitted :
      (a : A) (e : Exn)
      → (block s).0 ≡ ok a
      → (session.commit (block s).1).0 ≡ raised e
      → committed (get_write_session session (some maker) block s).1 ≡ committed s
  unfolding get_write_session
  discards_uncommitted a e h c =
      let after = (session.commit (block s).1).1 in
      ground (
        arith,
        t.commit_raised (block s).1 e,
        t.close_keeps after,
        t.rollback_keeps after,
        t.close_keeps (session.rollback after).1,
      )

  keeps :
      (a : A)
      → (block s).0 ≡ ok a
      → (session.commit (block s).1).0 ≡ ok tt
      → committed (get_write_session session (some maker) block s).1 ≡ pending (block s).1
  unfolding get_write_session
  keeps a h c =
      ground (arith, t.commit_ok (block s).1, t.close_keeps (session.commit (block s).1).1)

  -- Over a transactional database, if the block itself commits nothing: where the block and the commit
  -- behind it succeed, a write session leaves the pending work of the block committed; where the block
  -- raises anything, a cancellation too, or where the commit does, it leaves the committed data as they
  -- were.
  pub write_session_atomic :
      committed (get_write_session session (some maker) block s).1
      ≡ kept (block s).0 (session.commit (block s).1).0 (committed s) (pending (block s).1)
  write_session_atomic = elim (Result-cases (block s).0) [
    | inr (e, h) ↦ discards_raised e h ∙ rw h
    | inl (a, h) ↦ elim (Result-cases (session.commit (block s).1).0) [
      | inl (tt, c) ↦ keeps a h c ∙ rw (h, c)
      | inr (e, c) ↦ discards_uncommitted a e h c ∙ rw (h, c)
    ]
  ]

  -- Over a transactional database a read session commits nothing, if its block commits nothing.
  pub read_session_keeps : committed (get_read_session session (some maker) block s).1 ≡ committed s
  unfolding get_read_session
  read_session_keeps = ground (arith, t.close_keeps (block s).1)

module _ {S A : Type 0} (session : SessionCalls S) where
  -- How a session ends whose block or commit has raised: with a rollback if that is a subclass of
  -- `Exception`, closed, and with the same exception.
  abbrev pub after_failure : Exn → S → Result A × S
  after_failure e s =
      if is_exception e
      then (raised e, (session.close (session.rollback s).1).1)
      else (raised e, (session.close s).1)

  -- How a session ends whose block has returned `a`, from what the commit did.
  abbrev pub after_commit : A → Result (Unit {0}) × S → Result A × S
  after_commit a (ok done, s) = (ok a, (session.close s).1)
  after_commit a (raised e, s) = after_failure e s

module _ {S A : Type 0} (session : SessionCalls S) (maker : SessionMaker) (block : Exec S A) (s : S)
    (rolls_back : (t : S) → (session.rollback t).0 ≡ ok tt)
    (closes : (t : S) → (session.close t).0 ≡ ok tt) where
  -- If rollback and close do not raise, a write session whose block raises raises the same
  -- exception. It has rolled back and closed if that is a subclass of `Exception`; for any other, as
  -- a cancellation, it has only closed.
  write_session_raises :
      (e : Exn)
      → (block s).0 ≡ raised e
      → get_write_session session (some maker) block s ≡ after_failure session e (block s).1
  unfolding get_write_session
  write_session_raises e h =
      ground
        (arith, rolls_back (block s).1, closes (session.rollback (block s).1).1, closes (block s).1)

  -- If rollback and close do not raise, a write session whose block and commit succeed returns what
  -- the block returns, after the commit and the close. If the commit raises, the session raises the
  -- same exception, and has rolled back and closed if that is a subclass of `Exception`; for any other
  -- it has only closed.
  write_session_commits :
      (a : A)
      → (block s).0 ≡ ok a
      → get_write_session session (some maker) block s
        ≡ after_commit session a (session.commit (block s).1)
  unfolding get_write_session
  write_session_commits a h =
      let after = (session.commit (block s).1).1 in
      ground (arith, closes after, rolls_back after, closes (session.rollback after).1)
