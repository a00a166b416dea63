-- ===== src/Scoring/Daily/Loop.antt =====
-- `run_daily_tick`: the polls of the loop.
use imbi_api.Prelude.{
  ℕ, ◌≡◌, ◌≢◌, refl, ◌∙◌, All, String, true, List, [], ◌∷◌, leb, if◌then◌else◌, if_both,
}
use imbi_api.Queue.Outside.{Answer, raised, falsy, truthy, set_nx, Log, Outside}
use imbi_api.Queue.Sync.Enqueue.{jobs}
use imbi_api.Scoring.Enqueue.{stream}
use imbi_api.Scoring.Daily.{
  daily_key, daily_seconds, after_lock, try_daily_tick, was_set, followed_by, was_set-followed_by,
  was_set-after_lock, jobs-after_lock,
}

abbrev pub daily_tick_hour_utc : ℕ
daily_tick_hour_utc = 6

-- What the clock and the database say at a poll: the hour and the date in UTC, and all projects.
pub record Poll : Type 0 where
  pub hour : ℕ
  pub date : String
  pub project_ids : List String

module _ (o : Outside) where
  -- The polls until the loop is stopped; an exception of a tick is logged.
  unfoldable pub run_daily_tick : ℕ → List Poll → Log → Log
  run_daily_tick hour_utc [] log = log
  run_daily_tick hour_utc (now ∷ polls) log =
      run_daily_tick hour_utc polls
        (if leb hour_utc now.hour then try_daily_tick o now.project_ids now.date log else log)

  module _
      (nx : (log : Log) (key : String) (seconds : ℕ)
        → was_set key log ≡ true
        → o.set_nx log key seconds ≢ truthy) where
    -- A tick without the lock leaves the lock set and adds no job.
    locked_after :
        (key : String) (seconds : ℕ) (ids : List String) (a : Answer) (log : Log)
        → a ≢ truthy
        → was_set key log ≡ true
        → was_set key (after_lock o ids a (set_nx key seconds a ∷ log)) ≡ true
    unfolding after_lock
    locked_after key seconds ids raised log h held = held
    locked_after key seconds ids falsy log h held = held
    locked_after key seconds ids truthy log h held = absurd (h refl)

    -- One poll, where the lock of its date is taken.
    poll_locked :
        (hour_utc : ℕ) (now : Poll) (date : String) (log : Log)
        → now.date ≡ date
        → was_set (daily_key date) log ≡ true
        → (was_set
              (daily_key date)
              (if leb hour_utc now.hour then try_daily_tick o now.project_ids now.date log else log)
            ≡ true)
          × (jobs stream (
                if leb hour_utc now.hour
                then try_daily_tick o now.project_ids now.date log
                else log)
              ≡ jobs stream log)
    unfolding try_daily_tick
    poll_locked hour_utc now date log same held = rw same (
        if_both (λ l. (was_set (daily_key date) l ≡ true) × (jobs stream l ≡ jobs stream log))
          (leb hour_utc now.hour) _ log
          (
            locked_after (daily_key date) daily_seconds now.project_ids _ log
                (nx log (daily_key date) daily_seconds held) held,
            jobs-after_lock o (daily_key date) daily_seconds now.project_ids _ log
                (nx log (daily_key date) daily_seconds held),
          )
          (held, refl))

    polls_locked :
        (hour_utc : ℕ) (polls : List Poll) (date : String) (log : Log)
        → All (λ now. now.date ≡ date) polls
        → was_set (daily_key date) log ≡ true
        → jobs stream (run_daily_tick hour_utc polls log) ≡ jobs stream log
    unfolding run_daily_tick
    polls_locked hour_utc [] date log all held = refl
    polls_locked hour_utc (now ∷ polls) date log (same, all) held =
        let (kept, nothing) = poll_locked hour_utc now date log same held in
        polls_locked hour_utc polls date _ all kept ∙ nothing

    -- Once a worker has taken a date's lock, no polls of that date add a job, on this worker or on
    -- another, whatever happened in between, if SET NX does not set a key again.
    pub run_daily_tick_once :
        (hour_utc : ℕ) (ids : List String) (date : String) (log later : Log) (polls : List Poll)
        → All (λ now. now.date ≡ date) polls
        → o.set_nx log (daily_key date) daily_seconds ≡ truthy
        → jobs stream
            (run_daily_tick hour_utc polls (followed_by later (try_daily_tick o ids date log)))
          ≡ jobs stream (followed_by later (try_daily_tick o ids date log))
    unfolding try_daily_tick
    run_daily_tick_once hour_utc ids date log later polls all taken =
        polls_locked hour_utc polls date _ all (
          was_set-followed_by (daily_key date) later (try_daily_tick o ids date log)
            (was_set-after_lock o (daily_key date) daily_seconds ids _ log taken))
