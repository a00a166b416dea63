-- ===== src/Maintenance/Commands/Agrees.antt =====
-- What agrees in a shared run, and that the commands of its workers keep it.
use imbi_api.Prelude.{
  ℕ, suc, ◌+◌, ◌-◌, String, ◌≡◌, subst, not, true, some, ◌∷◌, arith, eq_iff, length, member,
  IsDistinct, Option-cases, inl, inr,
}
use imbi_api.Valkey.{Valkey}
use imbi_api.Maintenance.Status.{Outcome}
use imbi_api.Maintenance.State.{Keys}
use imbi_api.Maintenance.State.Seed.{AreNew, AreNew-sadd}
use imbi_api.Maintenance.State.Books.{Counts, count_outcome}
use imbi_api.Maintenance.System.{release}
use imbi_api.Maintenance.System.Held.{
  length-release, IsDistinct-release, member-release_self, AreNew-release, AreNew-spop,
  not-held_of_has,
}
use imbi_api.Maintenance.System.Hands.{not-has_of_held}
use imbi_api.Maintenance.Commands.{
  Run, pop_pending, enter_flight, leave_flight, add_outcome, put_back,
}
use imbi_api.Maintenance.Commands.Apart.{
  AreApart, AreApart-member, not-popped_of_held, AreApart-enter, AreApart-report,
}
use imbi_api.Maintenance.Commands.Tally.{
  IsTallied, IsTallied-enter, IsTallied-report, IsTallied-leave, IsTallied-settle,
  IsTallied-give_back, retally, reheld,
}

module _ (V : Valkey) where
  open V use {
    Hash, IdSet, scard, spop, sadd, has, hget, hset, hincrby, has_popped, has_spop, scard_spop,
    scard_sadd, scard_empty, no_members, hget_hincrby,
  }

  -- What agrees in a run: the counters are those of the workers' projects; while the run goes on and
  -- is not cancelled, every project is pending, popped, held, reported or recorded; and a project
  -- that a worker has is not pending, and no other worker's.
  pub record Agrees (s : Run V) : Type 0 where
    pub counts : Counts
    pub tallied :
        IsTallied V s.keys.run
          (scard s.keys.pending + length s.popped + s.reported)
          (length s.held)
          s.returned
          (not s.cleared)
          counts
    pub popped_new : AreNew V s.popped s.keys.pending
    pub held_new : AreNew V s.held s.keys.pending
    pub apart : AreApart s.popped s.held
    pub popped_distinct : IsDistinct s.popped
    pub held_distinct : IsDistinct s.held

  pub Agrees-pop :
      (s : Run V) (x : String) (k : Keys V)
      → pop_pending V s.keys ≡ some (x, k)
      → Agrees s
      → Agrees (record s { keys = k; popped = x ∷ s.popped })
  unfolding pop_pending
  Agrees-pop s x k e i = elim (Option-cases (spop s.keys.pending)) [
    | inl drained ↦ absurd (ground arith)
    | inr ((y, rest), taken) ↦
        let y_is_x : y ≡ x = ground arith in
        let keys : record s.keys { pending = rest } ≡ k = ground arith in
        subst (λ z. Agrees (record s { keys = k; popped = z ∷ s.popped })) y_is_x
          (subst (λ j. Agrees (record s { keys = j; popped = y ∷ s.popped })) keys
            (record {
              counts = i.counts;
              tallied =
                  retally V _ (omega (arith, scard_spop s.keys.pending y rest taken)) i.tallied;
              popped_new = (
                ground (arith, has_spop s.keys.pending y rest y taken, eq_iff y y),
                AreNew-spop V s.popped s.keys.pending y rest taken i.popped_new,
              );
              held_new = AreNew-spop V s.held s.keys.pending y rest taken i.held_new;
              apart = (
                not-held_of_has V s.held s.keys.pending y (has_popped s.keys.pending y rest taken)
                    i.held_new,
                i.apart,
              );
              popped_distinct = (
                not-held_of_has V s.popped s.keys.pending y (has_popped s.keys.pending y rest taken)
                    i.popped_new,
                i.popped_distinct,
              );
              held_distinct = i.held_distinct;
            }))
  ]

  pub Agrees-enter :
      (s : Run V) (x : String)
      → member x s.popped ≡ true
      → Agrees s
      → Agrees (record s {
        keys = enter_flight V s.keys;
        popped = release x s.popped;
        held = x ∷ s.held;
      })
  unfolding enter_flight
  Agrees-enter s x m i = record {
    counts = record i.counts { in_flight = i.counts.in_flight + 1 };
    tallied = reheld V _ (omega arith) (
        IsTallied-enter V s.keys.run
          (scard s.keys.pending + length (release x s.popped) + s.reported) (length s.held)
          s.returned (not s.cleared) i.counts
          (retally V _ (omega (arith, length-release x s.popped m)) i.tallied));
    popped_new = AreNew-release V x s.popped s.keys.pending i.popped_new;
    held_new = (not-has_of_held V x s.popped s.keys.pending m i.popped_new, i.held_new);
    apart = AreApart-enter x s.popped s.held i.popped_distinct i.apart;
    popped_distinct = IsDistinct-release x s.popped i.popped_distinct;
    held_distinct = (AreApart-member x s.popped s.held i.apart m, i.held_distinct);
  }

  pub Agrees-report :
      (s : Run V) (x : String)
      → member x s.held ≡ true
      → Agrees s
      → Agrees (record s {
        keys = leave_flight V s.keys;
        held = release x s.held;
        reported = suc s.reported;
      })
  unfolding leave_flight
  Agrees-report s x m i = record {
    counts = record i.counts { in_flight = i.counts.in_flight - 1 };
    tallied = retally V _ (omega arith) (
        IsTallied-report V s.keys.run (scard s.keys.pending + length s.popped + s.reported)
          (length (release x s.held)) s.returned (not s.cleared) i.counts
          (reheld V _ (length-release x s.held m) i.tallied));
    popped_new = i.popped_new;
    held_new = AreNew-release V x s.held s.keys.pending i.held_new;
    apart = AreApart-report x s.popped s.held i.apart;
    popped_distinct = i.popped_distinct;
    held_distinct = IsDistinct-release x s.held i.held_distinct;
  }

  pub Agrees-settle :
      (s : Run V) (n : ℕ) (o : Outcome)
      → s.reported ≡ suc n
      → Agrees s
      → Agrees (record s { keys = add_outcome V o s.keys; reported = n })
  unfolding add_outcome
  Agrees-settle s n o e i = record {
    counts = count_outcome o i.counts;
    tallied =
        IsTallied-settle V o s.keys.run (scard s.keys.pending + length s.popped + n) (length s.held)
          s.returned (not s.cleared) i.counts (retally V _ (omega (arith, e)) i.tallied);
    popped_new = i.popped_new;
    held_new = i.held_new;
    apart = i.apart;
    popped_distinct = i.popped_distinct;
    held_distinct = i.held_distinct;
  }

  pub Agrees-give_back :
      (s : Run V) (x : String)
      → member x s.held ≡ true
      → Agrees s
      → Agrees (record s {
        keys = put_back V x s.keys;
        held = release x s.held;
        returned = suc s.returned;
      })
  unfolding put_back
  Agrees-give_back s x m i =
      let new = not-has_of_held V x s.held s.keys.pending m i.held_new in
      let more : scard (sadd x s.keys.pending) ≡ scard s.keys.pending + 1 = rw (scard_sadd, new) in
      record {
        counts = i.counts;
        tallied = retally V _ (omega (arith, more)) (
            IsTallied-give_back V s.keys.run (scard s.keys.pending + length s.popped + s.reported)
              (length (release x s.held)) s.returned (not s.cleared) i.counts
              (reheld V _ (length-release x s.held m) i.tallied));
        popped_new =
            AreNew-sadd V x s.popped s.keys.pending (not-popped_of_held x s.popped s.held i.apart m)
              i.popped_new;
        held_new =
            AreNew-sadd V x (release x s.held) s.keys.pending
              (member-release_self x s.held i.held_distinct)
              (AreNew-release V x s.held s.keys.pending i.held_new);
        apart = AreApart-report x s.popped s.held i.apart;
        popped_distinct = i.popped_distinct;
        held_distinct = IsDistinct-release x s.held i.held_distinct;
      }

  pub Agrees-leave :
      (s : Run V) (n : ℕ)
      → s.returned ≡ suc n
      → Agrees s
      → Agrees (record s { keys = leave_flight V s.keys; returned = n })
  unfolding leave_flight
  Agrees-leave s n e i = record {
    counts = record i.counts { in_flight = i.counts.in_flight - 1 };
    tallied =
        IsTallied-leave V s.keys.run (scard s.keys.pending + length s.popped + s.reported)
          (length s.held) n (not s.cleared) i.counts
          (subst
            (λ r.
              IsTallied V s.keys.run (scard s.keys.pending + length s.popped + s.reported)
                (length s.held) r (not s.cleared) i.counts)
            e i.tallied);
    popped_new = i.popped_new;
    held_new = i.held_new;
    apart = i.apart;
    popped_distinct = i.popped_distinct;
    held_distinct = i.held_distinct;
  }
