-- ===== src/Scoring/Bulk.antt =====
-- `enqueue_recompute_bulk` against one `enqueue_recompute` after another.
use imbi_api.Prelude.{
  ℕ, suc, ◌≡◌, ◌≢◌, refl, ap, sym, ◌∙◌, String, true, false, Option, List, [], ◌∷◌, length,
}
use imbi_api.Queue.Outside.{
  Fields, Answer, raised, falsy, truthy, set_nx, deleted, added, Log, Outside,
}
use imbi_api.Queue.Sync.{debounce_key}
use imbi_api.Queue.Sync.Enqueue.{jobs}
use imbi_api.Scoring.Enqueue.{
  stream, debounce_prefix, debounce_seconds, recompute_job, any_raised, accepted, add_job,
  after_debounce, enqueue_recompute, set_all, add_all, after_adds, after_sets,
  enqueue_recompute_bulk, after_one, enqueue_each,
}

-- What a log says of the debounce keys.
abbrev pub debounces : Log → Log
debounces [] = []
debounces (set_nx key seconds answer ∷ log) = set_nx key seconds answer ∷ debounces log
debounces (deleted key answer ∷ log) = deleted key answer ∷ debounces log
debounces (_ ∷ log) = debounces log

-- The jobs of ids, the last one newest, before older jobs.
abbrev pub jobs_of : (String → Fields) → List String → List Fields → List Fields
jobs_of job [] older = older
jobs_of job (id ∷ ids) older = jobs_of job ids (job id ∷ older)

module _ (o : Outside) where
  -- SET NX looks at the debounce keys alone, and neither it nor XADD raises.
  module _
      (looks : (log other : Log) (key : String) (seconds : ℕ)
        → debounces log ≡ debounces other
        → o.set_nx log key seconds ≡ o.set_nx other key seconds)
      (sets : (log : Log) (key : String) (seconds : ℕ) → o.set_nx log key seconds ≢ raised)
      (adds : (log : Log) (s : String) (job : Fields) → o.xadd log s job ≢ raised) (reason : String)
      (requested_by : Option String) where
    abbrev job : String → Fields
    job = recompute_job reason requested_by

    none_raised_cons :
        (a : Answer) (answers : List Answer)
        → a ≢ raised
        → any_raised answers ≡ false
        → any_raised (a ∷ answers) ≡ false
    none_raised_cons raised answers h e = absurd (h refl)
    none_raised_cons falsy answers h e = e
    none_raised_cons truthy answers h e = e

    any_raised-set_all : (ids : List String) (log : Log) → any_raised (set_all o ids log).0 ≡ false
    unfolding set_all
    any_raised-set_all [] log = refl
    any_raised-set_all (id ∷ ids) log =
        none_raised_cons (o.set_nx log (debounce_key debounce_prefix id) debounce_seconds) _
          (sets log (debounce_key debounce_prefix id) debounce_seconds) (any_raised-set_all ids _)

    any_raised-add_all :
        (ids : List String) (log : Log) → any_raised (add_all o job ids log).0 ≡ false
    unfolding add_all
    any_raised-add_all [] log = refl
    any_raised-add_all (id ∷ ids) log =
        none_raised_cons (o.xadd log stream (job id)) _ (adds log stream (job id))
          (any_raised-add_all ids _)

    jobs-set_all :
        (ids : List String) (log : Log) → jobs stream (set_all o ids log).1 ≡ jobs stream log
    unfolding set_all
    jobs-set_all [] log = refl
    jobs-set_all (id ∷ ids) log = jobs-set_all ids _

    jobs-added :
        (j : Fields) (a : Answer) (log : Log)
        → a ≢ raised
        → jobs stream (added stream j a ∷ log) ≡ j ∷ jobs stream log
    jobs-added j raised log h = absurd (h refl)
    jobs-added j falsy log h = refl
    jobs-added j truthy log h = refl

    jobs-add_all :
        (ids : List String) (log : Log)
        → jobs stream (add_all o job ids log).1 ≡ jobs_of job ids (jobs stream log)
    unfolding add_all
    jobs-add_all [] log = refl
    jobs-add_all (id ∷ ids) log =
        jobs-add_all ids (added stream (job id) (o.xadd log stream (job id)) ∷ log)
        ∙ ap (jobs_of job ids)
            (jobs-added (job id) (o.xadd log stream (job id)) log (adds log stream (job id)))

    -- A count and a log are those of the jobs of the accepted ids.
    abbrev Tallies : List String → ℕ × Log → Log → Type 0
    Tallies ids r log = (r.0 ≡ length ids) × (jobs stream r.1 ≡ jobs_of job ids (jobs stream log))

    after_add-Tallies :
        (id : String) (ids : List String) (rest : Log → ℕ × Log) (b : Answer) (log : Log)
        → b ≢ raised
        → Tallies ids (rest (added stream (job id) b ∷ log)) (added stream (job id) b ∷ log)
        → Tallies (id ∷ ids) (after_one o rest (add_job o (job id) b log)) log
    unfolding after_one add_job
    after_add-Tallies id ids rest raised log h t = absurd (h refl)
    after_add-Tallies id ids rest falsy log h t = (ap suc t.0, t.1)
    after_add-Tallies id ids rest truthy log h t = (ap suc t.0, t.1)

    step-Tallies :
        (id : String) (ids : List String) (a : Answer) (log other : Log)
        → a ≢ raised
        → debounces log ≡ debounces other
        → ((log other : Log)
            → debounces log ≡ debounces other
            → Tallies
                (accepted ids (set_all o ids log).0)
                (enqueue_each o true ids reason requested_by other)
                other)
        → Tallies
            (accepted (id ∷ ids) (
              a
              ∷ (set_all o ids
                  (set_nx (debounce_key debounce_prefix id) debounce_seconds a ∷ log)).0))
            (after_one o
              (enqueue_each o true ids reason requested_by)
              (after_debounce o (debounce_key debounce_prefix id) (job id) a other))
            other
    unfolding after_debounce after_one
    step-Tallies id ids raised log other h e k = absurd (h refl)
    step-Tallies id ids falsy log other h e k =
        k _ _ (ap (λ l. set_nx (debounce_key debounce_prefix id) debounce_seconds falsy ∷ l) e)
    step-Tallies id ids truthy log other h e k =
        after_add-Tallies id _ (enqueue_each o true ids reason requested_by) _ _
          (adds _ stream (job id))
          (k _ _ (ap (λ l. set_nx (debounce_key debounce_prefix id) debounce_seconds truthy ∷ l) e))

    each-Tallies :
        (ids : List String) (log other : Log)
        → debounces log ≡ debounces other
        → Tallies
            (accepted ids (set_all o ids log).0)
            (enqueue_each o true ids reason requested_by other)
            other
    unfolding set_all enqueue_each enqueue_recompute
    each-Tallies [] log other e = (refl, refl)
    each-Tallies (id ∷ ids) log other e =
        let key = debounce_key debounce_prefix id in
        rw (looks log other key debounce_seconds e) (
          step-Tallies id ids (o.set_nx other key debounce_seconds) log other
            (sets other key debounce_seconds) e (each-Tallies ids))

    after_adds-Tallies :
        (ids : List String) (answers : List Answer) (log after : Log)
        → any_raised answers ≡ false
        → jobs stream after ≡ jobs_of job ids (jobs stream log)
        → Tallies ids (after_adds o ids (answers, after)) log
    unfolding after_adds
    after_adds-Tallies ids answers log after clean e = rw clean (refl, e)

    after_sets-Tallies :
        (ids : List String) (answers : List Answer) (log after : Log)
        → any_raised answers ≡ false
        → jobs stream after ≡ jobs stream log
        → Tallies (accepted ids answers) (after_sets o job ids (answers, after)) log
    unfolding after_sets
    after_sets-Tallies ids answers log after clean e = rw clean (
        after_adds-Tallies (accepted ids answers) (add_all o job (accepted ids answers) after).0 log
          (add_all o job (accepted ids answers) after).1
          (any_raised-add_all (accepted ids answers) after)
          (jobs-add_all (accepted ids answers) after ∙ ap (jobs_of job (accepted ids answers)) e))

    -- Enqueuing in bulk counts and adds the same jobs, in the same order, as one call after another,
    -- if SET NX depends on the debounce keys alone and no command raises.
    pub bulk-each :
        (ids : List String) (log : Log)
        → ((enqueue_recompute_bulk o true ids reason requested_by log).0
            ≡ (enqueue_each o true ids reason requested_by log).0)
          × (jobs stream (enqueue_recompute_bulk o true ids reason requested_by log).1
              ≡ jobs stream (enqueue_each o true ids reason requested_by log).1)
    unfolding enqueue_recompute_bulk
    bulk-each ids log =
        let bulk =
          after_sets-Tallies ids (set_all o ids log).0 log (set_all o ids log).1
            (any_raised-set_all ids log) (jobs-set_all ids log) in
        let each = each-Tallies ids log log refl in (bulk.0 ∙ sym each.0, bulk.1 ∙ sym each.1)
