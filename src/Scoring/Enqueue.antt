-- ===== src/Scoring/Enqueue.antt =====
-- `enqueue_recompute` and `enqueue_recompute_bulk`. A pipeline sends its commands one after another
-- and reads all answers; its `execute` raises if one of the answers is an exception.
use imbi_api.Prelude.{
  ℕ, suc, String, Bool, true, false, Option, List, [], ◌∷◌, length, if◌then◌else◌,
}
use imbi_api.Queue.Outside.{Fields, Answer, raised, truthy, set_nx, added, Log, Outside}
use imbi_api.Queue.Sync.{debounce_key, text_or}

abbrev pub stream : String
stream = "imbi:score-recompute"

abbrev pub debounce_prefix : String
debounce_prefix = "imbi:score-recompute:debounce"

abbrev pub debounce_seconds : ℕ
debounce_seconds = 5

abbrev pub recompute_job : String → Option String → String → Fields
recompute_job reason requested_by project_id =
    ("project_id", project_id)
    ∷ ("reason", reason)
    ∷ ("requested_by", text_or requested_by "system")
    ∷ []

-- The answers of a pipeline have an exception among them.
abbrev pub any_raised : List Answer → Bool
any_raised [] = false
any_raised (raised ∷ answers) = true
any_raised (_ ∷ answers) = any_raised answers

-- The ids whose answer is true.
abbrev pub accepted : List String → List Answer → List String
accepted (id ∷ ids) (truthy ∷ answers) = id ∷ accepted ids answers
accepted (id ∷ ids) (_ ∷ answers) = accepted ids answers
accepted _ _ = []

module _ (o : Outside) where
  -- The project's XADD, by the answer to its SET.
  unfoldable pub add_job : Fields → Answer → Log → Bool × Log
  add_job job raised log = (false, added stream job raised ∷ log)
  add_job job answer log = (true, added stream job answer ∷ log)

  unfoldable pub after_debounce : String → Fields → Answer → Log → Bool × Log
  after_debounce key job truthy log =
      let log₁ : Log = set_nx key debounce_seconds truthy ∷ log in
      add_job job (o.xadd log₁ stream job) log₁
  after_debounce key job answer log = (false, set_nx key debounce_seconds answer ∷ log)

  unfoldable pub enqueue_recompute : Bool → String → Option String → String → Log → Bool × Log
  enqueue_recompute false reason requested_by project_id log = (false, log)
  enqueue_recompute true reason requested_by project_id log =
      let key = debounce_key debounce_prefix project_id in
      after_debounce key (recompute_job reason requested_by project_id)
        (o.set_nx log key debounce_seconds) log

  -- The pipeline of the debounce keys: the answers, in order, and the log.
  unfoldable pub set_all : List String → Log → List Answer × Log
  set_all [] log = ([], log)
  set_all (id ∷ ids) log =
      let key = debounce_key debounce_prefix id in
      let answer = o.set_nx log key debounce_seconds in
      let (answers, log₁) = set_all ids (set_nx key debounce_seconds answer ∷ log) in
      (answer ∷ answers, log₁)

  -- The pipeline of the jobs.
  unfoldable pub add_all : (String → Fields) → List String → Log → List Answer × Log
  add_all job [] log = ([], log)
  add_all job (id ∷ ids) log =
      let answer = o.xadd log stream (job id) in
      let (answers, log₁) = add_all job ids (added stream (job id) answer ∷ log) in
      (answer ∷ answers, log₁)

  unfoldable pub after_adds : List String → List Answer × Log → ℕ × Log
  after_adds ids (answers, log) = if any_raised answers then (0, log) else (length ids, log)

  unfoldable pub after_sets : (String → Fields) → List String → List Answer × Log → ℕ × Log
  after_sets job ids (answers, log) =
      if any_raised answers
      then (0, log)
      else after_adds (accepted ids answers) (add_all job (accepted ids answers) log)

  unfoldable pub enqueue_recompute_bulk :
      Bool → List String → String → Option String → Log → ℕ × Log
  enqueue_recompute_bulk false ids reason requested_by log = (0, log)
  enqueue_recompute_bulk true ids reason requested_by log =
      after_sets (recompute_job reason requested_by) ids (set_all ids log)

  -- The call for one id, and the calls for the others.
  unfoldable pub after_one : (Log → ℕ × Log) → Bool × Log → ℕ × Log
  after_one rest (true, log) = let (count, log₁) = rest log in (suc count, log₁)
  after_one rest (false, log) = rest log

  -- One `enqueue_recompute` after another: how many return True, and the log.
  unfoldable pub enqueue_each : Bool → List String → String → Option String → Log → ℕ × Log
  enqueue_each client [] reason requested_by log = (0, log)
  enqueue_each client (id ∷ ids) reason requested_by log =
      after_one (enqueue_each client ids reason requested_by)
        (enqueue_recompute client reason requested_by id log)
