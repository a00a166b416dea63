-- ===== src/Queue/Status.antt =====
-- `set_status` of the three sync services: a status write that is tried again on a conflict.
use imbi_api.Prelude.{ℕ, zero, suc, ◌<◌, ap, ◌∙◌, ◌≡◌, ◌≢◌, refl, ◌∷◌, arith}
use imbi_api.Queue.Outside.{Write, written, conflict, failed, Status, wrote, Log, Outside}
use imbi_api.Queue.Sync.{Queue, after_write, write_status}

-- Writes of one status, all refused by a conflict.
abbrev pub conflicts : Status → ℕ → Log → Log
conflicts s zero log = log
conflicts s (suc n) log = wrote s conflict ∷ conflicts s n log

conflicts-suc :
    (s : Status) (n : ℕ) (log : Log)
    → conflicts s n (wrote s conflict ∷ log) ≡ conflicts s (suc n) log
conflicts-suc s zero log = refl
conflicts-suc s (suc n) log = rw (conflicts-suc s n log)

-- The writes of one update: some that meet a conflict, then one that does not, unless it is the last
-- that is allowed.
abbrev pub Attempts : ℕ → Status → Log → Log → Type 0
Attempts attempts s log after =
    (n : ℕ) × (w : Write) × (n < attempts)
    × (w ≡ conflict → suc n ≡ attempts)
    × (after ≡ wrote s w ∷ conflicts s n log)

module _ (o : Outside) (q : Queue) where
  after_write-Attempts :
      (attempts : ℕ) (s : Status) (again : Log → Log) (w : Write) (log : Log)
      → (attempts ≡ 0 → again (wrote s conflict ∷ log) ≡ wrote s conflict ∷ log)
      → (attempts ≢ 0
          → Attempts attempts s (wrote s conflict ∷ log) (again (wrote s conflict ∷ log)))
      → Attempts (suc attempts) s log (after_write again w (wrote s w ∷ log))
  after_write-Attempts attempts s again written log last more =
      (0, written, omega arith, (λ e. cc), refl)
  after_write-Attempts attempts s again failed log last more =
      (0, failed, omega arith, (λ e. cc), refl)
  after_write-Attempts zero s again conflict log last more =
      (0, conflict, omega arith, (λ e. refl), last refl)
  after_write-Attempts (suc k) s again conflict log last more =
      let (n, w, few, ends, made) = more (λ e. omega arith) in
      (
        suc n,
        w,
        omega arith,
        (λ e. ap suc (ends e)),
        made ∙ ap (λ l. wrote s w ∷ l) (conflicts-suc s n log),
      )

  -- A status update makes at least one write and at most as many as it has attempts; every write but
  -- the last met a conflict, and the last one did only if the attempts are used up.
  pub write_status-Attempts :
      (attempts : ℕ) (s : Status) (log : Log)
      → Attempts (suc attempts) s log (write_status o q (suc attempts) s log)
  unfolding write_status
  write_status-Attempts zero s log =
      after_write-Attempts 0 s (write_status o q 0 s) (o.write log s) log (λ e. refl)
        (λ e. absurd (e refl))
  write_status-Attempts (suc k) s log =
      after_write-Attempts (suc k) s (write_status o q (suc k) s) (o.write log s) log
        (λ e. absurd (omega arith)) (λ e. write_status-Attempts k s (wrote s conflict ∷ log))
