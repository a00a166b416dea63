-- ===== src/Scoring/Consumer/Deliveries.antt =====
-- What a batch does to the delivery counts, where Valkey answers.
use imbi_api.Prelude.{
  ℕ, ◌<◌, ◌≡◌, ◌⊎◌, inl, inr, refl, ◌∙◌, ap, subst, if_taken, if_passed, arith, String, Bool, true,
  false, [], ◌∷◌, ◌==◌, ◌||◌, leb, if◌then◌else◌, eq_iff, Bool-cases,
}
use imbi_api.Queue.Outside.{Fields, delivered}
use imbi_api.Queue.Sync.{DeadLetter, kept, gone, broken}
use imbi_api.Scoring.Group.{Group, Batch, has}
use imbi_api.Scoring.Consumer.{
  Scores, max_deliveries, process_message, after_move, move, dead_letter, maybe_dead_letter, World,
  acknowledge, after_processing, after_check, handle_entry, after_entry, handle_entries,
}

module _ (p : Scores) (g : Group) where
  -- What follows an entry that was handled without an exception.
  pub after_entry-then :
      (rest : World p g → Bool × World p g) (r : Bool × World p g)
      → r.0 ≡ true
      → after_entry p g rest r ≡ rest r.1
  unfolding after_entry
  after_entry-then rest (true, w) e = refl
  after_entry-then rest (false, w) e = cc

  -- The count of a message once another one, or itself, has been acknowledged.
  abbrev acked_times : String → g.State → String → ℕ
  acked_times id s msg = if id == msg then 0 else g.times s msg

  -- A message leaves the pending ones, or keeps its count; with the dead-letter check this count is
  -- a small one.
  abbrev pub Stays : Bool → Bool → g.State → g.State → String → Type 0
  Stays check own s t msg =
      (g.times t msg ≡ 0)
      ⊎ ((g.times t msg ≡ g.times s msg)
          × (check ≡ true → own ≡ true → g.times s msg < max_deliveries))

  module _ (counts : (s : g.State) (msg : String) → g.xpending s msg ≡ delivered (g.times s msg))
      (acks : (id : String) (s : g.State) → (g.xack id s).0 ≡ true)
      (adds : (fields : Fields) (s : g.State) → (g.xadd fields s).0 ≡ true) where
    times-after_move :
        (id msg : String) (s t : g.State) (r : Bool × g.State)
        → r.0 ≡ true
        → g.times r.1 msg ≡ acked_times id s msg
        → ((after_move p g r).0 ≡ gone) × (g.times (after_move p g r).1 msg ≡ acked_times id s msg)
    unfolding after_move
    times-after_move id msg s t (true, u) e h = (refl, h)
    times-after_move id msg s t (false, u) e h = cc

    times-move :
        (id msg : String) (s : g.State) (r : Bool × g.State)
        → r.0 ≡ true
        → g.times r.1 msg ≡ g.times s msg
        → ((move p g id r).0 ≡ gone) × (g.times (move p g id r).1 msg ≡ acked_times id s msg)
    unfolding move
    times-move id msg s (true, t) e h =
        times-after_move id msg s t (g.xack id t) (acks id t)
          (g.times_xack id t msg (acks id t) ∙ ap (λ n. if id == msg then 0 else n) h)
    times-move id msg s (false, t) e h = cc

    -- The dead-letter check moves a message with many deliveries, and leaves one with few.
    times-maybe_dead_letter :
        (id msg : String) (fields : Fields) (s : g.State)
        → (((maybe_dead_letter p g id fields s).0 ≡ gone)
            × (g.times (maybe_dead_letter p g id fields s).1 msg ≡ acked_times id s msg))
          ⊎ ((maybe_dead_letter p g id fields s ≡ (kept, s)) × (g.times s id < max_deliveries))
    unfolding maybe_dead_letter dead_letter
    times-maybe_dead_letter id msg fields s =
        rw (counts s id) (elim (Bool-cases (leb max_deliveries (g.times s id))) [
          | inl many ↦ rw many (
              inl
                (times-move id msg s (g.xadd fields s) (adds fields s) (g.times_xadd fields s msg)))
          | inr few ↦ rw few (inr (refl, ground (arith, few)))
        ])

    Stays-acked :
        (id msg : String) (check : Bool) (s t : g.State)
        → g.times t msg ≡ acked_times id s msg
        → Stays check (id == msg) s t msg
    Stays-acked id msg check s t e = elim (Bool-cases (id == msg)) [
      | inl hit ↦ inl (if_taken (λ n. g.times t msg ≡ n) 0 (g.times s msg) hit e)
      | inr miss ↦ inr (if_passed (λ n. g.times t msg ≡ n) 0 (g.times s msg) miss e, λ c own. cc)
    ]

    -- What processing leaves.
    Stays-after_processing :
        (id msg : String) (check : Bool) (s : g.State) (r : Bool × p.Db)
        → (check ≡ true → (id == msg) ≡ true → g.times s msg < max_deliveries)
        → ((after_processing p g id s r).0 ≡ true)
          × Stays check (id == msg) s (after_processing p g id s r).1.0 msg
    unfolding after_processing acknowledge
    Stays-after_processing id msg check s (true, db) few =
        (acks id s, Stays-acked id msg check s (g.xack id s).1 (g.times_xack id s msg (acks id s)))
    Stays-after_processing id msg check s (false, db) few = (refl, inr (refl, few))

    Stays-after_gone :
        (id msg : String) (fields : Fields) (check : Bool) (s : g.State) (db : p.Db)
        (d : DeadLetter × g.State)
        → d.0 ≡ gone
        → g.times d.1 msg ≡ acked_times id s msg
        → ((after_check p g id fields db d).0 ≡ true)
          × Stays check (id == msg) s (after_check p g id fields db d).1.0 msg
    unfolding after_check
    Stays-after_gone id msg fields check s db (gone, t) e h = (refl, Stays-acked id msg check s t h)
    Stays-after_gone id msg fields check s db (kept, t) e h = cc
    Stays-after_gone id msg fields check s db (broken, t) e h = cc

    Stays-handle_entry :
        (id msg : String) (fields : Fields) (check : Bool) (w : World p g)
        → ((handle_entry p g check id fields w).0 ≡ true)
          × Stays check (id == msg) w.0 (handle_entry p g check id fields w).1.0 msg
    unfolding handle_entry after_check
    Stays-handle_entry id msg fields false (s, db) =
        Stays-after_processing id msg false s (process_message p fields db) (λ c. cc)
    Stays-handle_entry id msg fields true (s, db) = elim (times-maybe_dead_letter id msg fields s) [
      | inl (e, h) ↦ Stays-after_gone id msg fields true s db _ e h
      | inr (e, few) ↦ rw e (
          Stays-after_processing id msg true s (process_message p fields db)
            (λ c own. subst (λ x. g.times s x < max_deliveries) ((eq_iff id msg).0 own) few))
    ]

    -- A message that stays through the first entry and through the others stays through the batch.
    Stays-cons :
        (check own others : Bool) (s t u : g.State) (msg : String)
        → Stays check own s t msg
        → Stays check others t u msg
        → Stays check (own || others) s u msg
    Stays-cons check own others s t u msg first rest = elim rest [
      | inl left ↦ inl left
      | inr (same, few) ↦ elim first [
        | inl left ↦ inl (same ∙ left)
        | inr (same₁, few₁) ↦ inr (
          same ∙ same₁,
          λ c either. elim (Bool-cases own) [
            | inl hit ↦ few₁ c hit
            | inr miss ↦
                let hit : others ≡ true = ground (arith, either, miss) in
                subst (λ n. n < max_deliveries) same₁ (few c hit)
          ],
        )
      ]
    ]

    pub Stays-handle_entries :
        (batch : Batch) (msg : String) (check : Bool) (w : World p g)
        → ((handle_entries p g check batch w).0 ≡ true)
          × Stays check (has msg batch) w.0 (handle_entries p g check batch w).1.0 msg
    unfolding handle_entries
    Stays-handle_entries [] msg check w = (refl, inr (refl, λ c h. cc))
    Stays-handle_entries ((id, fields) ∷ batch) msg check w =
        let (alive, first) = Stays-handle_entry id msg fields check w in
        let (ends, others) =
          Stays-handle_entries batch msg check (handle_entry p g check id fields w).1 in
        rw
          (after_entry-then (handle_entries p g check batch) (handle_entry p g check id fields w)
            alive)
          (ends, Stays-cons check (id == msg) (has msg batch) w.0 _ _ msg first others)
