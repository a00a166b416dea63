-- ===== src/Maintenance/Commands/Early.antt =====
-- Between the two commands of `checkout` of imbi_api/maintenance/state.py.
use imbi_api.Prelude.{◌≡◌, refl, String, true, false, some, arith, Option-cases, inl, inr}
use imbi_api.Prelude.Int.{is_pos}
use imbi_api.Valkey.{Valkey}
use imbi_api.Maintenance.Status.{is_running, opt_int}
use imbi_api.Maintenance.State.{Keys, maybe_finalize, finish}
use imbi_api.Maintenance.Commands.{pop_pending}

module _ (V : Valkey) where
  open V use {spop, scard, hget, scard_spop}

  -- A worker pops the last project of a run with nothing in flight. Before its second command counts
  -- the project, `maybe_finalize` of another worker completes the run and frees its lock, although
  -- that project is still to be worked on.
  pub uncounted_finalizes_early :
      (k j : Keys V) (x now : String)
      → is_running (hget "state" k.run) ≡ true
      → is_pos (opt_int (hget "in_flight" k.run)) ≡ false
      → scard k.pending ≡ 1
      → pop_pending V k ≡ some (x, j)
      → maybe_finalize V now j ≡ (finish V "completed" now j, true)
  unfolding pop_pending maybe_finalize
  uncounted_finalizes_early k j x now on quiet one e = elim (Option-cases (spop k.pending)) [
    | inl drained ↦ absurd (ground arith)
    | inr ((y, rest), taken) ↦
        let run : k.run ≡ j.run = ground arith in
        let left : rest ≡ j.pending = ground arith in
        let none_left : scard rest ≡ 0 = omega (arith, scard_spop k.pending y rest taken) in
        let few : scard j.pending ≡ 0 = rw⁻¹ left none_left in
        let on' : is_running (hget "state" j.run) ≡ true = rw⁻¹ run on in
        let quiet' : is_pos (opt_int (hget "in_flight" j.run)) ≡ false = rw⁻¹ run quiet in
        rw (few, quiet', on') refl
  ]
