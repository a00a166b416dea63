-- ===== src/Maintenance/CommandTests.antt =====
-- Two workers on a run of two projects, on the server in memory.
use imbi_api.Prelude.{◌≡◌, refl, String, true, some, List, [], ◌∷◌, insert, lookup}
use imbi_api.Valkey.InMemory.{in_memory, pop as pop_member, distinct, increment}
use imbi_api.Maintenance.State.{Keys, seeded, maybe_finalize, finish}
use imbi_api.Maintenance.System.{release}
use imbi_api.Maintenance.Commands.{
  Run, pop, enter, give_back, leave, Reach, here, next, pop_pending, enter_flight, leave_flight,
  add_outcome, put_back,
}
use imbi_api.Maintenance.Commands.Agrees.{Agrees}
use imbi_api.Maintenance.Commands.Agreement.{fresh_run, Agrees-fresh_run, Reach-Agrees}
use imbi_api.Maintenance.Commands.Early.{uncounted_finalizes_early}

-- Opens the server and the commands.
commands_open : Unit {0}
unfolding pop_member distinct increment insert lookup seeded pop_pending enter_flight leave_flight
    add_outcome put_back release
commands_open = tt

abbrev seeded_run : List String → Run in_memory
seeded_run ids = fresh_run in_memory "r1" ids "t0" "admin"

-- What is left after SPOP.
abbrev after_pop : List String → Keys in_memory → Keys in_memory
after_pop left k = record k { pending = left }

abbrev both : Run in_memory
both = seeded_run ("p1" ∷ "p2" ∷ [])

-- One worker pops p2, another p1; the first counts p2 and gives it back, the second counts p1 and
-- records it.
abbrev one_popped : Run in_memory
one_popped = record both { keys = after_pop ("p1" ∷ []) both.keys; popped = "p2" ∷ [] }

abbrev both_popped : Run in_memory
both_popped = record one_popped { keys = after_pop [] one_popped.keys; popped = "p1" ∷ "p2" ∷ [] }

abbrev one_held : Run in_memory
one_held = record both_popped {
  keys = enter_flight in_memory both_popped.keys;
  popped = release "p2" ("p1" ∷ "p2" ∷ []);
  held = "p2" ∷ [];
}

abbrev one_back : Run in_memory
one_back = record one_held {
  keys = put_back in_memory "p2" one_held.keys;
  held = release "p2" ("p2" ∷ []);
  returned = 1;
}

abbrev one_left : Run in_memory
one_left = record one_back { keys = leave_flight in_memory one_back.keys; returned = 0 }

first_pop : pop_pending in_memory both.keys ≡ some ("p2", one_popped.keys)
unfolding commands_open
first_pop = refl

second_pop : pop_pending in_memory one_popped.keys ≡ some ("p1", both_popped.keys)
unfolding commands_open
second_pop = refl

steps : Reach in_memory both one_left
steps =
    next
      (next
        (next
          (next (next here (pop both "p2" one_popped.keys first_pop))
            (pop one_popped "p1" both_popped.keys second_pop))
          (enter both_popped "p2" refl))
        (give_back one_held "p2" refl))
      (leave one_back 0 refl)

Reach-Agrees_example : Agrees in_memory one_left
unfolding steps
Reach-Agrees_example =
    Reach-Agrees in_memory steps (((((tt, tt), tt), tt), tt), tt)
      (Agrees-fresh_run in_memory "r1" ("p1" ∷ "p2" ∷ []) "t0" "admin" (refl, (refl, tt)))

abbrev last : Keys in_memory
last = (seeded_run ("p1" ∷ [])).keys

last_pop : pop_pending in_memory last ≡ some ("p1", after_pop [] last)
unfolding commands_open
last_pop = refl

uncounted_finalizes_early_example :
    maybe_finalize in_memory "t1" (after_pop [] last)
    ≡ (finish in_memory "completed" "t1" (after_pop [] last), true)
unfolding commands_open
uncounted_finalizes_early_example =
    uncounted_finalizes_early in_memory last (after_pop [] last) "p1" "t1" refl refl refl last_pop
