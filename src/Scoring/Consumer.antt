-- ===== src/Scoring/Consumer.antt =====
-- The consumer of scoring/queue.py: one message, a batch, and the rounds of the loop. The database
-- and the computation of a score are an interface without laws.
pub mod Deliveries
pub mod Keeps
pub mod Rounds
pub mod Drain
use imbi_api.Prelude.{
  ℕ, zero, suc, String, Bool, true, false, Option, none, some, List, [], ◌∷◌, leb, ◌==◌,
  if◌then◌else◌, lookup,
}
use imbi_api.Queue.Outside.{Fields, Pending, unknown, delivered}
use imbi_api.Queue.Sync.{DeadLetter, kept, gone, broken, text_or}
use imbi_api.Scoring.Group.{Group, Batch}

abbrev pub max_deliveries : ℕ
max_deliveries = 5

-- What the recomputation asks of the database and of imbi_common's scoring; `none` and `false` are
-- exceptions.
pub record Scores : Type 1 where
  pub Db : Type 0
  pub Project : Type 0
  pub Score : Type 0
  pub Breakdown : Type 0
  pub zero_score : Score
  pub score_of : Project → Option Score
  pub match_project : String → Db → Option (List Project)
  pub compute_score : String → Db → Option (Option Score × Breakdown)
  pub clear_score : Project → Db → Bool × Db
  pub record_score_change : Project → Score → Score → String → Breakdown → Db → Bool × Db

module _ (p : Scores) where
  unfoldable pub previous_score : Option p.Score → p.Score
  previous_score none = p.zero_score
  previous_score (some score) = score

  unfoldable pub after_score :
      String → p.Project → p.Db → Option (Option p.Score × p.Breakdown) → Bool × p.Db
  after_score reason project db none = (false, db)
  after_score reason project db (some (none, breakdown)) = p.clear_score project db
  after_score reason project db (some (some score, breakdown)) =
      p.record_score_change project score (previous_score (p.score_of project)) reason breakdown db

  unfoldable pub after_match : String → String → p.Db → Option (List p.Project) → Bool × p.Db
  after_match project_id reason db none = (false, db)
  after_match project_id reason db (some []) = (true, db)
  after_match project_id reason db (some (project ∷ others)) =
      after_score reason project db (p.compute_score project_id db)

  -- `false` where it raises.
  unfoldable pub process_message : Fields → p.Db → Bool × p.Db
  process_message fields db =
      let project_id = text_or (lookup "project_id" fields) "" in
      let reason = text_or (lookup "reason" fields) "attribute_change" in
      if project_id == ""
      then (true, db)
      else after_match project_id reason db (p.match_project project_id db)

  module _ (g : Group) where
    unfoldable pub after_move : Bool × g.State → DeadLetter × g.State
    after_move (true, s) = (gone, s)
    after_move (false, s) = (broken, s)

    unfoldable pub move : String → Bool × g.State → DeadLetter × g.State
    move msg (true, s) = after_move (g.xack msg s)
    move msg (false, s) = (broken, s)

    unfoldable pub dead_letter : String → Fields → g.State → Pending → DeadLetter × g.State
    dead_letter msg fields s unknown = (kept, s)
    dead_letter msg fields s (delivered n) =
        if leb max_deliveries n then move msg (g.xadd fields s) else (kept, s)

    unfoldable pub maybe_dead_letter : String → Fields → g.State → DeadLetter × g.State
    maybe_dead_letter msg fields s = dead_letter msg fields s (g.xpending s msg)

    -- XGROUP CREATE, whose exception is at most logged.
    unfoldable pub ensure_group : (g.State → Bool × g.State) → g.State → g.State
    ensure_group xgroup_create s = (xgroup_create s).1

    abbrev pub World : Type 0
    World = g.State × p.Db

    -- XACK, whose exception leaves the consumer.
    unfoldable pub acknowledge : p.Db → Bool × g.State → Bool × World
    acknowledge db (answered, s) = (answered, (s, db))

    unfoldable pub after_processing : String → g.State → Bool × p.Db → Bool × World
    after_processing msg s (true, db) = acknowledge db (g.xack msg s)
    after_processing msg s (false, db) = (true, (s, db))

    unfoldable pub after_check : String → Fields → p.Db → DeadLetter × g.State → Bool × World
    after_check msg fields db (gone, s) = (true, (s, db))
    after_check msg fields db (broken, s) = (false, (s, db))
    after_check msg fields db (kept, s) = after_processing msg s (process_message fields db)

    -- One message of a batch; `false` is an exception that `_handle_entries` does not catch.
    unfoldable pub handle_entry : Bool → String → Fields → World → Bool × World
    handle_entry check msg fields (s, db) =
        after_check msg fields db (if check then maybe_dead_letter msg fields s else (kept, s))

    unfoldable pub after_entry : (World → Bool × World) → Bool × World → Bool × World
    after_entry rest (true, w) = rest w
    after_entry rest (false, w) = (false, w)

    unfoldable pub handle_entries : Bool → Batch → World → Bool × World
    handle_entries check [] w = (true, w)
    handle_entries check ((msg, fields) ∷ batch) w =
        after_entry (handle_entries check batch) (handle_entry check msg fields w)

    -- XREADGROUP of the one stream: an exception of it is logged.
    unfoldable pub after_read : p.Db → Option Batch × g.State → Bool × World
    after_read db (none, s) = (true, (s, db))
    after_read db (some batch, s) = handle_entries false batch (s, db)

    unfoldable pub read_entries : World → Bool × World
    read_entries (s, db) = after_read db (g.xreadgroup s)

    unfoldable pub after_claim : p.Db → Batch × g.State → Bool × World
    after_claim db (stale, s) = after_entry read_entries (handle_entries true stale (s, db))

    unfoldable pub round : World → Bool × World
    round (s, db) = after_claim db (g.xautoclaim s)

    -- The rounds until the consumer is stopped, after `ensure_group`; an exception ends it.
    unfoldable pub consume_recompute : ℕ → World → Bool × World
    consume_recompute zero w = (true, w)
    consume_recompute (suc rounds) w = after_entry (consume_recompute rounds) (round w)
