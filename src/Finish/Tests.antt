-- ===== src/Finish/Tests.antt =====
-- A run of the stream: a commit while the first snapshot is built, a second subscriber, and the rest of
-- both builds; and a run with a failure and subscribers who leave.
use chrono_desk.Finish.Stream.Counted.{hub_clients-Reach}
use chrono_desk.Prelude.{All, List, [], length, refl, ◌∷◌, ◌≡◌, ◌≤◌, false, arith, ◌+◌}
use chrono_desk.Finish.Stream.{
  waiting, Stream, Action, Reach, here, next, perform, first_subscription, writer_commits,
  writer_counts, writer_wakes, hub_takes, hub_requests, browser_subscribes, group_advances,
  browser_closes, load_fails, other_closes, other_subscribes,
}
use chrono_desk.Finish.Stream.Invariant.{IsRecent}
use chrono_desk.Finish.Stream.Delivery.{IsQuiet, ShowsLatest, Reach-IsRecent, Reach-ShowsLatest}

-- The last action first.
abbrev run : List Action → Stream → Stream
run [] s = s
run (a ∷ before) s = perform a (run before s)

Reach-run : (actions : List Action) (s : Stream) → Reach s (run actions s)
Reach-run [] s = here
Reach-run (a ∷ before) s = next a (Reach-run before s)

abbrev actions : List Action
actions =
    group_advances ∷ group_advances ∷ group_advances ∷ group_advances ∷ group_advances
    ∷ hub_requests ∷ hub_takes ∷ group_advances ∷ group_advances ∷ writer_wakes ∷ writer_counts
    ∷ browser_subscribes ∷ group_advances ∷ writer_commits ∷ group_advances ∷ group_advances ∷ []

abbrev idle : Stream
idle = record {
  version = 7;
  committed = 0;
  counted = 0;
  generation = 0;
  signal_wake = false;
  dispatching = false;
  wake = false;
  serial = 0;
  phase = waiting;
  published = 0;
  clients = [];
  hub_clients = 3;
  others = 3;
  next_id = 0;
  closed = [];
}

abbrev finished : Stream
finished = run actions (first_subscription idle)

finished-IsQuiet : IsQuiet finished
unfolding perform first_subscription
finished-IsQuiet = record {
  no_commit = refl;
  no_count = refl;
  no_signal = refl;
  no_dispatch = refl;
  no_wake = refl;
  at_rest = refl;
}

finished_version : finished.version ≡ 8
unfolding perform first_subscription
finished_version = refl

finished_clients : length finished.clients ≡ 2
unfolding perform first_subscription
finished_clients = refl

Reach-ShowsLatest_example : All (ShowsLatest finished) finished.clients
Reach-ShowsLatest_example =
    Reach-ShowsLatest idle (Reach-run actions (first_subscription idle)) finished-IsQuiet

Reach-IsRecent_example : All (λ c. IsRecent c.since c.frame) finished.clients
Reach-IsRecent_example = Reach-IsRecent idle (Reach-run actions (first_subscription idle))

-- A build that fails, two further subscriptions, and the way out of one of them, twice.
abbrev leaving : List Action
leaving =
    browser_closes 1
    ∷ browser_closes 1
    ∷ browser_closes 0
    ∷ other_closes
    ∷ load_fails
    ∷ group_advances
    ∷ group_advances
    ∷ other_subscribes
    ∷ browser_subscribes
    ∷ []

hub_clients-Reach_example :
    ((run leaving (first_subscription idle)).hub_clients ≤ 32)
    × ((run leaving (first_subscription idle)).hub_clients
        ≡ length (run leaving (first_subscription idle)).clients
          + (run leaving (first_subscription idle)).others)
hub_clients-Reach_example =
    hub_clients-Reach idle (omega arith) (Reach-run leaving (first_subscription idle))
