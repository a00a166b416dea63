-- ===== src/Queue/Sync/Enqueue.antt =====
-- What `enqueue_*` adds to the stream, and what it leaves behind when it fails.
use imbi_api.Prelude.{
  ◌≡◌, ◌⊎◌, inl, inr, refl, String, Bool, true, false, List, [], ◌∷◌, ◌==◌, eq_refl, if◌then◌else◌,
}
use imbi_api.Queue.Outside.{
  Fields, Answer, raised, falsy, truthy, set_nx, deleted, added, Log, Outside,
}
use imbi_api.Queue.Sync.{Queue, enqueue, after_set, after_add, debounce_key}

-- The jobs on a stream, newest first: an XADD that does not raise has added its entry.
abbrev pub jobs : String → Log → List Fields
jobs stream [] = []
jobs stream (added s job raised ∷ log) = jobs stream log
jobs stream (added s job falsy ∷ log) =
    if s == stream then job ∷ jobs stream log else jobs stream log
jobs stream (added s job truthy ∷ log) =
    if s == stream then job ∷ jobs stream log else jobs stream log
jobs stream (_ ∷ log) = jobs stream log

module _ (o : Outside) (q : Queue) where
  jobs-after_add :
      (key : String) (job : Fields) (a : Answer) (log : Log)
      → jobs q.stream (after_add o q key job a log).1
        ≡ (if (after_add o q key job a log).0 then job ∷ jobs q.stream log else jobs q.stream log)
  unfolding after_add
  jobs-after_add key job raised log = refl
  jobs-after_add key job falsy log = rw eq_refl
  jobs-after_add key job truthy log = rw eq_refl

  jobs-after_set :
      (key : String) (job : Fields) (a : Answer) (log : Log)
      → jobs q.stream (after_set o q key job a log).1
        ≡ (if (after_set o q key job a log).0 then job ∷ jobs q.stream log else jobs q.stream log)
  unfolding after_set
  jobs-after_set key job raised log = refl
  jobs-after_set key job falsy log = refl
  jobs-after_set key job truthy log =
      jobs-after_add key job (o.xadd (set_nx key q.debounce_seconds truthy ∷ log) q.stream job)
        (set_nx key q.debounce_seconds truthy ∷ log)

  -- A call that returns True has added exactly its job to the stream, and one that returns False
  -- none.
  pub jobs-enqueue :
      (client : Bool) (project_id : String) (job : Fields) (log : Log)
      → jobs q.stream (enqueue o q client project_id job log).1 ≡ (
          if (enqueue o q client project_id job log).0
          then job ∷ jobs q.stream log
          else jobs q.stream log)
  unfolding enqueue
  jobs-enqueue false project_id job log = refl
  jobs-enqueue true project_id job log =
      let key = debounce_key q.debounce_prefix project_id in
      jobs-after_set key job (o.set_nx log key q.debounce_seconds) log

  -- The log ends with the release of the key.
  abbrev pub HasReleased : String → Log → Type 0
  HasReleased key log = (answer : Answer) × (earlier : Log) × (log ≡ deleted key answer ∷ earlier)

  after_add_refused :
      (key : String) (job : Fields) (a : Answer) (log : Log)
      → (after_add o q key job a log).0 ≡ false
      → HasReleased key (after_add o q key job a log).1
  unfolding after_add
  after_add_refused key job raised log e = (_, _, refl)
  after_add_refused key job falsy log e = cc
  after_add_refused key job truthy log e = cc

  after_set_refused :
      (key : String) (job : Fields) (a : Answer) (log : Log)
      → (after_set o q key job a log).0 ≡ false
      → (a ≡ falsy) ⊎ HasReleased key (after_set o q key job a log).1
  unfolding after_set
  after_set_refused key job raised log e = inr (_, _, refl)
  after_set_refused key job falsy log e = inl refl
  after_set_refused key job truthy log e = inr (
      after_add_refused key job (o.xadd (set_nx key q.debounce_seconds truthy ∷ log) q.stream job)
        (set_nx key q.debounce_seconds truthy ∷ log) e)

  -- With a client, a call returns False only because the project's debounce key is taken, or after
  -- it has released that key again as its last command.
  pub enqueue_refused :
      (project_id : String) (job : Fields) (log : Log)
      → (enqueue o q true project_id job log).0 ≡ false
      → (o.set_nx log (debounce_key q.debounce_prefix project_id) q.debounce_seconds ≡ falsy)
        ⊎ HasReleased
            (debounce_key q.debounce_prefix project_id)
            (enqueue o q true project_id job log).1
  unfolding enqueue
  enqueue_refused project_id job log e =
      let key = debounce_key q.debounce_prefix project_id in
      after_set_refused key job (o.set_nx log key q.debounce_seconds) log e
