-- ===== src/Queue/Sync/DeadLetters.antt =====
-- The dead-letter check of `_handle_entries`.
use imbi_api.Prelude.{
  ℕ, ◌≤◌, ◌≡◌, ◌≢◌, ◌⊎◌, inl, inr, refl, ap, String, true, false, ◌∷◌, arith, Bool-cases, leb,
}
use imbi_api.Queue.Outside.{
  Fields, Answer, raised, falsy, truthy, Pending, unknown, delivered, moved, acked, asked, Log,
  Outside,
}
use imbi_api.Queue.Sync.{
  Queue, maybe_dead_letter, kept, Fate, thrown, after_check, handle_entry, move, after_move,
  dead_letter,
}

module _ (o : Outside) (q : Queue) where
  -- The message has been delivered often enough for the dead-letter stream.
  abbrev pub IsPoison : Pending → Type 0
  IsPoison unknown = ⊥
  IsPoison (delivered n) = q.max_deliveries ≤ n

  -- The message is on the dead-letter stream and its XACK was sent after that; or adding it raised,
  -- and the exception leaves the batch.
  abbrev pub HasMoved : String → Fields → Log → Fate × Log → Type 0
  HasMoved msg fields log r =
      ((a b : Answer) × (b ≢ raised) × (r.1 ≡ acked msg a ∷ moved msg fields b ∷ log))
      ⊎ ((r.0 ≡ thrown) × (r.1 ≡ moved msg fields raised ∷ log))

  move_lem :
      (now : ℕ) (msg : String) (fields : Fields) (a : Answer) (log : Log)
      → HasMoved msg fields log (after_check o q now msg fields (move o q msg fields a log))
  unfolding move after_move after_check
  move_lem now msg fields raised log = inr (refl, refl)
  move_lem now msg fields falsy log =
      inl (o.xack (moved msg fields falsy ∷ log) msg, falsy, (λ e. cc), ground arith)
  move_lem now msg fields truthy log =
      inl (o.xack (moved msg fields truthy ∷ log) msg, truthy, (λ e. cc), ground arith)

  dead_letter_lem :
      (now : ℕ) (msg : String) (fields : Fields) (info : Pending) (log : Log)
      → (IsPoison info
          → HasMoved msg fields log
              (after_check o q now msg fields (dead_letter o q msg fields info log)))
        × (¬ IsPoison info → dead_letter o q msg fields info log ≡ (kept, log))
  unfolding dead_letter
  dead_letter_lem now msg fields unknown log = (λ h. absurd h, λ h. refl)
  dead_letter_lem now msg fields (delivered n) log = elim (Bool-cases (leb q.max_deliveries n)) [
    | inl enough ↦
        rw enough (
          λ h. move_lem now msg fields (o.xadd log q.dlq fields) log,
          λ h. absurd (h (ground arith)),
        )
    | inr few ↦ rw few (λ h. absurd (ground arith), λ h. refl)
  ]

  -- In a batch of reclaimed messages, one with `max_deliveries` deliveries or more goes to the
  -- dead-letter stream, unprocessed, and is acknowledged only once it is there; any other is handled
  -- as in a batch of new messages.
  pub handle_entry_check :
      (now : ℕ) (msg : String) (fields : Fields) (log : Log)
      → (IsPoison (o.xpending log msg)
          → HasMoved msg fields
              (asked msg (o.xpending log msg) ∷ log)
              (handle_entry o q now true msg fields log))
        × (¬ IsPoison (o.xpending log msg)
            → handle_entry o q now true msg fields log
              ≡ handle_entry o q now false msg fields (asked msg (o.xpending log msg) ∷ log))
  unfolding handle_entry maybe_dead_letter
  handle_entry_check now msg fields log =
      let info = o.xpending log msg in
      let (poison, fine) = dead_letter_lem now msg fields info (asked msg info ∷ log) in
      (poison, λ h. ap (after_check o q now msg fields) (fine h))
