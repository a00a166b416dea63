-- ===== src/Maintenance/System/Hands.antt =====
-- The invariant of a shared run, and how the hands of its workers keep it.
use mathlib.Core.Path.{subst}
use imbi_api.Prelude.{
  ◌+◌, ◌-◌, String, ◌≡◌, true, false, some, List, [], ◌∷◌, arith, eq_iff, length, member,
  IsDistinct, Option-cases, inl, inr,
}
use imbi_api.Prelude.Int.{pos}
use imbi_api.Valkey.{Valkey}
use imbi_api.Maintenance.Status.{Outcome}
use imbi_api.Maintenance.State.{Keys, checkout, record_outcome, requeue}
use imbi_api.Maintenance.State.Seed.{AreNew, AreNew-sadd}
use imbi_api.Maintenance.State.Books.{Counts, count_outcome, Shows-take}
use imbi_api.Maintenance.System.Booked.{IsBooked, IsBooked-report, IsBooked-give}
use imbi_api.Maintenance.System.{System, release}
use imbi_api.Maintenance.System.Held.{
  length-release, IsDistinct-release, member-release_self, AreNew-release, AreNew-spop,
  not-held_of_has,
}

module _ (V : Valkey) where
  open V use {
    IdSet, Hash, no_members, sadd, spop, scard, has, hget, hset, hincrby, hget_hset, hget_hincrby,
    scard_empty, scard_sadd, scard_spop, has_popped, has_spop,
  }

  pub record IsSound (s : System V) : Type 0 where
    pub counts : Counts
    pub booked : IsBooked V s.keys.run (scard s.keys.pending) (length s.held) counts
    pub apart : AreNew V s.held s.keys.pending
    pub distinct : IsDistinct s.held

  IsSound-take :
      (s : System V) (x : String) (rest : IdSet)
      → spop s.keys.pending ≡ some (x, rest)
      → IsSound s
      → IsSound (record {
        keys = record s.keys { pending = rest; run = hincrby "in_flight" (pos 1) s.keys.run };
        held = x ∷ s.held;
      })
  IsSound-take s x rest e i =
      let b = i.booked in
      let c = i.counts in
      let fewer = scard_spop s.keys.pending x rest e in
      let same =
        hget_hincrby "in_flight" "state" (pos 1) (pos c.in_flight) s.keys.run b.shows.in_flight in
      record {
        counts = record c { in_flight = c.in_flight + 1 };
        booked = record {
          shows = Shows-take V s.keys.run c b.shows;
          in_hand = omega (arith, b.in_hand);
          within = omega (arith, b.within, fewer);
          balance = λ r. omega (arith, b.balance (rw same at r), fewer);
        };
        apart = (
          ground (arith, has_spop s.keys.pending x rest x e, eq_iff x x),
          AreNew-spop V s.held s.keys.pending x rest e i.apart,
        );
        distinct = (
          not-held_of_has V s.held s.keys.pending x (has_popped s.keys.pending x rest e) i.apart,
          i.distinct,
        );
      }

  pub IsSound-report :
      (s : System V) (x : String) (o : Outcome) (error : String)
      → member x s.held ≡ true
      → IsSound s
      → IsSound (record { keys = record_outcome V x o error s.keys; held = release x s.held })
  unfolding record_outcome
  IsSound-report s x o error m i = record {
    counts = count_outcome o (record i.counts { in_flight = i.counts.in_flight - 1 });
    booked =
        IsBooked-report V o s.keys.run (scard s.keys.pending) (length (release x s.held))
          (length s.held) i.counts (length-release x s.held m) i.booked;
    apart = AreNew-release V x s.held s.keys.pending i.apart;
    distinct = IsDistinct-release x s.held i.distinct;
  }

  pub not-has_of_held :
      (x : String) (h : List String) (s : IdSet)
      → member x h ≡ true
      → AreNew V h s
      → has x s ≡ false
  not-has_of_held x [] s m a = ground arith
  not-has_of_held x (y ∷ ys) s m a = ground (arith, not-has_of_held x ys s, eq_iff y x)

  pub IsSound-give_back :
      (s : System V) (x : String)
      → member x s.held ≡ true
      → IsSound s
      → IsSound (record { keys = requeue V x s.keys; held = release x s.held })
  unfolding requeue
  IsSound-give_back s x m i =
      let new = not-has_of_held x s.held s.keys.pending m i.apart in
      let more : scard (sadd x s.keys.pending) ≡ scard s.keys.pending + 1 = rw (scard_sadd, new) in
      record {
        counts = record i.counts { in_flight = i.counts.in_flight - 1 };
        booked = rw more (
            IsBooked-give V s.keys.run (scard s.keys.pending) (length (release x s.held))
              (length s.held) i.counts (length-release x s.held m) i.booked);
        apart =
            AreNew-sadd V x (release x s.held) s.keys.pending
              (member-release_self x s.held i.distinct)
              (AreNew-release V x s.held s.keys.pending i.apart);
        distinct = IsDistinct-release x s.held i.distinct;
      }

  checkout-eq_some :
      (k k' : Keys V) (x : String)
      → checkout V k ≡ (k', some x)
      → (rest : IdSet) × (spop k.pending ≡ some (x, rest))
        × (record k { pending = rest; run = hincrby "in_flight" (pos 1) k.run } ≡ k')
  unfolding checkout
  checkout-eq_some k k' x e = elim (Option-cases (spop k.pending)) [
    | inl drained ↦ absurd (ground arith)
    | inr ((y, rest), popped) ↦ (rest, ground arith, ground arith)
  ]

  pub IsSound-checkout :
      (s : System V) (x : String) (k : Keys V)
      → checkout V s.keys ≡ (k, some x)
      → IsSound s
      → IsSound (record { keys = k; held = x ∷ s.held })
  IsSound-checkout s x k e i =
      let (rest, popped, same) = checkout-eq_some s.keys k x e in
      subst (λ k. IsSound (record { keys = k; held = x ∷ s.held })) same
        (IsSound-take s x rest popped i)
