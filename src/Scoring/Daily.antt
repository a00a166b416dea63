-- ===== src/Scoring/Daily.antt =====
-- `_try_daily_tick` and `_enqueue_all`: every project once per date. The calls that asyncio gathers
-- run here in the order of the list.
pub mod Loop
use Prim.Native.String.{◌++◌}
use imbi_api.Prelude.{
  ℕ, ◌≡◌, ◌≢◌, refl, String, Bool, true, false, ◌||◌, none, List, [], ◌∷◌, ◌==◌, eq_refl, arith,
  length,
}
use imbi_api.Queue.Outside.{Fields, Answer, raised, falsy, truthy, Event, set_nx, Log, Outside}
use imbi_api.Queue.Sync.Enqueue.{jobs}
use imbi_api.Scoring.Enqueue.{
  stream, debounce_seconds, add_job, after_debounce, enqueue_recompute, after_one, enqueue_each,
}

abbrev pub daily_seconds : ℕ
daily_seconds = 90000

abbrev pub daily_key : String → String
daily_key date = "imbi:score-recompute:daily:" ++ date

module _ (o : Outside) where
  -- How many projects were enqueued, of how many.
  unfoldable pub enqueue_all : List String → String → Log → (ℕ × ℕ) × Log
  enqueue_all ids reason log =
      let (count, log₁) = enqueue_each o true ids reason none log in ((count, length ids), log₁)

  unfoldable pub after_lock : List String → Answer → Log → Log
  after_lock ids truthy log = (enqueue_all ids "scheduled_recompute" log).1
  after_lock ids answer log = log

  unfoldable pub try_daily_tick : List String → String → Log → Log
  try_daily_tick ids date log =
      let key = daily_key date in
      let answer = o.set_nx log key daily_seconds in
      after_lock ids answer (set_nx key daily_seconds answer ∷ log)

-- The key was set.
abbrev pub was_set : String → Log → Bool
was_set key [] = false
was_set key (set_nx k seconds truthy ∷ log) = k == key || was_set key log
was_set key (_ ∷ log) = was_set key log

-- A log with further events.
abbrev pub followed_by : Log → Log → Log
followed_by [] log = log
followed_by (e ∷ later) log = e ∷ followed_by later log

pub was_set-event :
    (key : String) (e : Event) (log : Log) → was_set key log ≡ true → was_set key (e ∷ log) ≡ true
was_set-event key (set_nx k seconds truthy) log h = ground (arith, h)
was_set-event key (set_nx k seconds falsy) log h = h
was_set-event key (set_nx k seconds raised) log h = h
was_set-event key _ log h = h

pub was_set-followed_by :
    (key : String) (later log : Log)
    → was_set key log ≡ true
    → was_set key (followed_by later log) ≡ true
was_set-followed_by key [] log h = h
was_set-followed_by key (e ∷ later) log h =
    was_set-event key e _ (was_set-followed_by key later log h)

module _ (o : Outside) where
  module _ (key : String) where
    was_set-add_job :
        (job : Fields) (b : Answer) (log : Log)
        → was_set key log ≡ true
        → was_set key (add_job o job b log).1 ≡ true
    unfolding add_job
    was_set-add_job job raised log h = h
    was_set-add_job job falsy log h = h
    was_set-add_job job truthy log h = h

    was_set-after_debounce :
        (k : String) (job : Fields) (a : Answer) (log : Log)
        → was_set key log ≡ true
        → was_set key (after_debounce o k job a log).1 ≡ true
    unfolding after_debounce
    was_set-after_debounce k job raised log h = h
    was_set-after_debounce k job falsy log h = h
    was_set-after_debounce k job truthy log h =
        was_set-add_job job _ _ (was_set-event key (set_nx k debounce_seconds truthy) log h)

    was_set-after_one :
        (rest : Log → ℕ × Log) (r : Bool × Log)
        → ((log : Log) → was_set key log ≡ true → was_set key (rest log).1 ≡ true)
        → was_set key r.1 ≡ true
        → was_set key (after_one o rest r).1 ≡ true
    unfolding after_one
    was_set-after_one rest (true, log) k h = k log h
    was_set-after_one rest (false, log) k h = k log h

    was_set-enqueue_each :
        (ids : List String) (reason : String) (log : Log)
        → was_set key log ≡ true
        → was_set key (enqueue_each o true ids reason none log).1 ≡ true
    unfolding enqueue_each enqueue_recompute
    was_set-enqueue_each [] reason log h = h
    was_set-enqueue_each (id ∷ ids) reason log h =
        was_set-after_one (enqueue_each o true ids reason none) _ (was_set-enqueue_each ids reason)
          (was_set-after_debounce _ _ _ log h)

  pub was_set-after_lock :
      (key : String) (seconds : ℕ) (ids : List String) (a : Answer) (log : Log)
      → a ≡ truthy
      → was_set key (after_lock o ids a (set_nx key seconds a ∷ log)) ≡ true
  unfolding after_lock enqueue_all
  was_set-after_lock key seconds ids raised log e = cc
  was_set-after_lock key seconds ids falsy log e = cc
  was_set-after_lock key seconds ids truthy log e =
      was_set-enqueue_each key ids "scheduled_recompute" _ (rw eq_refl refl)

  pub jobs-after_lock :
      (key : String) (seconds : ℕ) (ids : List String) (a : Answer) (log : Log)
      → a ≢ truthy
      → jobs stream (after_lock o ids a (set_nx key seconds a ∷ log)) ≡ jobs stream log
  unfolding after_lock
  jobs-after_lock key seconds ids raised log h = refl
  jobs-after_lock key seconds ids falsy log h = refl
  jobs-after_lock key seconds ids truthy log h = absurd (h refl)

  -- Once a worker has taken a date's lock, no later tick of that date adds a job, whatever happened
  -- in between, if SET NX does not set a key again.
  pub daily_tick_once :
      (ids others : List String) (date : String) (log later : Log)
      → ((log : Log) (key : String) (seconds : ℕ)
          → was_set key log ≡ true
          → o.set_nx log key seconds ≢ truthy)
      → o.set_nx log (daily_key date) daily_seconds ≡ truthy
      → jobs stream
          (try_daily_tick o others date (followed_by later (try_daily_tick o ids date log)))
        ≡ jobs stream (followed_by later (try_daily_tick o ids date log))
  unfolding try_daily_tick
  daily_tick_once ids others date log later nx taken =
      let first = try_daily_tick o ids date log in
      let held =
        was_set-followed_by (daily_key date) later first
          (was_set-after_lock (daily_key date) daily_seconds ids _ log taken) in
      jobs-after_lock (daily_key date) daily_seconds others _ (followed_by later first)
        (nx (followed_by later first) (daily_key date) daily_seconds held)
