-- ===== src/Scoring/Consumer/Keeps.antt =====
-- What the commands of a batch keep, the batch keeps.
use imbi_api.Prelude.{String, Bool, true, false, [], ◌∷◌, if_both}
use imbi_api.Queue.Outside.{Fields, Pending, delivered, unknown}
use imbi_api.Queue.Sync.{DeadLetter, kept, gone, broken}
use imbi_api.Scoring.Group.{Group, Batch}
use imbi_api.Scoring.Consumer.{
  Scores, process_message, after_move, move, dead_letter, maybe_dead_letter, World, acknowledge,
  after_processing, after_check, handle_entry, after_entry, handle_entries,
}

-- What XADD and XACK keep, a batch keeps.
module _ (p : Scores) (g : Group) (P : g.State → Type 0)
    (adds : (fields : Fields) (s : g.State) → P s → P (g.xadd fields s).1)
    (acks : (id : String) (s : g.State) → P s → P (g.xack id s).1) where
  pub after_move-keeps : (r : Bool × g.State) → P r.1 → P (after_move p g r).1
  unfolding after_move
  after_move-keeps (true, s) h = h
  after_move-keeps (false, s) h = h

  pub move-keeps : (id : String) (r : Bool × g.State) → P r.1 → P (move p g id r).1
  unfolding move
  move-keeps id (true, s) h = after_move-keeps (g.xack id s) (acks id s h)
  move-keeps id (false, s) h = h

  pub dead_letter-keeps :
      (id : String) (fields : Fields) (s : g.State) (info : Pending)
      → P s
      → P (dead_letter p g id fields s info).1
  unfolding dead_letter
  dead_letter-keeps id fields s unknown h = h
  dead_letter-keeps id fields s (delivered n) h =
      if_both (λ (r : DeadLetter × g.State). P r.1) _ _ _
        (move-keeps id (g.xadd fields s) (adds fields s h)) h

  pub after_processing-keeps :
      (id : String) (s : g.State) (r : Bool × p.Db) → P s → P (after_processing p g id s r).1.0
  unfolding after_processing acknowledge
  after_processing-keeps id s (true, db) h = acks id s h
  after_processing-keeps id s (false, db) h = h

  pub after_check-keeps :
      (id : String) (fields : Fields) (db : p.Db) (d : DeadLetter × g.State)
      → P d.1
      → P (after_check p g id fields db d).1.0
  unfolding after_check
  after_check-keeps id fields db (gone, s) h = h
  after_check-keeps id fields db (broken, s) h = h
  after_check-keeps id fields db (kept, s) h =
      after_processing-keeps id s (process_message p fields db) h

  pub handle_entry-keeps :
      (check : Bool) (id : String) (fields : Fields) (w : World p g)
      → P w.0
      → P (handle_entry p g check id fields w).1.0
  unfolding handle_entry maybe_dead_letter
  handle_entry-keeps false id fields (s, db) h = after_check-keeps id fields db (kept, s) h
  handle_entry-keeps true id fields (s, db) h =
      after_check-keeps id fields db _ (dead_letter-keeps id fields s (g.xpending s id) h)

  pub after_entry-keeps :
      (rest : World p g → Bool × World p g) (r : Bool × World p g)
      → ((w : World p g) → P w.0 → P (rest w).1.0)
      → P r.1.0
      → P (after_entry p g rest r).1.0
  unfolding after_entry
  after_entry-keeps rest (true, w) k h = k w h
  after_entry-keeps rest (false, w) k h = h

  pub handle_entries-keeps :
      (check : Bool) (batch : Batch) (w : World p g)
      → P w.0
      → P (handle_entries p g check batch w).1.0
  unfolding handle_entries
  handle_entries-keeps check [] w h = h
  handle_entries-keeps check ((id, fields) ∷ batch) w h =
      after_entry-keeps (handle_entries p g check batch) (handle_entry p g check id fields w)
        (handle_entries-keeps check batch) (handle_entry-keeps check id fields w h)
