-- ===== src/Queue/Jobs.antt =====
-- What a producer enqueues is what the worker runs.
use Prim.Native.Nat.{min, max}
use imbi_api.Prelude.{
  ℕ, ◌≡◌, ◌≢◌, refl, false, String, Option, none, some, ◌==◌, eq_iff, arith, lookup,
}
use imbi_api.Prelude.Int.{ℤ, pos}
use imbi_api.Queue.Outside.{Log, Outside}
use imbi_api.Queue.Sync.{process_message, process_project, text_or}
use imbi_api.Queue.CommitSync.{commit_sync, commit_sync_job, process_commit_sync}
use imbi_api.Queue.PrSync.{pr_sync, pr_sync_job, process_pr_sync}
use imbi_api.Queue.DeploymentSync.{
  deployment_sync, deployment_sync_job, process_deployment_sync, parse_limit, max_limit,
}

-- A name is never replaced by its default twice.
text_or_twice :
    (t : Option String) → text_or (some (text_or t "system")) "system" ≡ text_or t "system"
text_or_twice none = refl
text_or_twice (some t) = ground (arith, eq_iff t "")

text_or_empty : (t : String) → text_or (some t) "" ≡ t
text_or_empty t = ground (arith, eq_iff t "")

not_empty : (t : String) → t ≢ "" → (t == "") ≡ false
not_empty t h = ground (arith, eq_iff t "")

module _ (o : Outside) where
  -- The worker of a commit-sync job of a project runs the project, organization and requester that
  -- were enqueued.
  pub process-commit_sync_job :
      (org_slug project_id : String) (requested_by : Option String) (log : Log)
      → project_id ≢ ""
      → process_commit_sync o (commit_sync_job org_slug project_id requested_by) log
        ≡ process_project o commit_sync project_id (text_or requested_by "system") org_slug 0 log
  unfolding process_commit_sync process_message lookup
  process-commit_sync_job org_slug project_id requested_by log h = rw (
    text_or_empty project_id,
    text_or_empty org_slug,
    not_empty project_id h,
    text_or_twice requested_by,
  )

  -- The worker of a pull-request job of a project runs the project, organization and requester that
  -- were enqueued.
  pub process-pr_sync_job :
      (org_slug project_id : String) (requested_by : Option String) (log : Log)
      → project_id ≢ ""
      → process_pr_sync o (pr_sync_job org_slug project_id requested_by) log
        ≡ process_project o pr_sync project_id (text_or requested_by "system") org_slug 0 log
  unfolding process_pr_sync process_message lookup
  process-pr_sync_job org_slug project_id requested_by log h = rw (
    text_or_empty project_id,
    text_or_empty org_slug,
    not_empty project_id h,
    text_or_twice requested_by,
  )

module _ (int : String → Option ℤ) where
  parse_limit-str :
      (raw : String) (n : ℕ)
      → int raw ≡ some (pos n)
      → raw ≢ ""
      → parse_limit int (some raw) ≡ max 1 (min n max_limit)
  unfolding parse_limit
  parse_limit-str raw n e h = rw (not_empty raw h, e)

module _ (o : Outside) (int : String → Option ℤ) (str : ℕ → String) where
  -- The worker of a deployment job of a project runs what was enqueued, with the limit brought
  -- between 1 and `max_limit`, if `int` reads what `str` writes.
  pub process-deployment_sync_job :
      (org_slug project_id : String) (requested_by : Option String) (limit : ℕ) (log : Log)
      → project_id ≢ ""
      → int (str limit) ≡ some (pos limit)
      → str limit ≢ ""
      → process_deployment_sync o int str
          (deployment_sync_job str org_slug project_id requested_by limit)
          log
        ≡ process_project o
            (deployment_sync int)
            project_id
            (text_or requested_by "system")
            org_slug
            (max 1 (min limit max_limit))
            log
  unfolding process_deployment_sync process_message lookup deployment_sync
  process-deployment_sync_job org_slug project_id requested_by limit log h reads text = rw (
    text_or_empty project_id,
    text_or_empty org_slug,
    not_empty project_id h,
    text_or_twice requested_by,
    parse_limit-str int (str limit) limit reads text,
  )
