-- ===== src/Finish/Stream.antt =====
-- The way of a commit to the subscribers of one race: `Signal` of internal/finishchange/signal.go, and
-- `finishHub.run`, `subscribe`, `finishGroup.run`, `offer`, `fail` and `close` of
-- internal/transport/publicweb/finish_hub.go, from the first subscription to the race on. An action is
-- what one goroutine does between two points where another may run. `load` reads the commits made so
-- far: their number, `version`, stands for the payload, so that a subscriber who is not sent a frame
-- equal to the one before still has the later version.
use chrono_desk.Prelude.{
  Bool, List, Option, [], false, if◌then◌else◌, leb, none, not, some, true, ℕ, ◌+◌, ◌-◌, ◌||◌, ◌∷◌,
}
pub mod Invariant
pub mod Writers
pub mod Subscribers
pub mod Builds
pub mod Delivery
pub mod Counted
use chrono_desk.Prelude.Classes.{nat_eq, ◌==◌}

-- `id` numbers the subscriptions of the group, `frame` is the version that the subscriber was offered,
-- `since` the version at its subscription, and `failed` whether its `err` is set.
pub record Subscriber : Type 0 where
  pub id : ℕ
  pub min_build : ℕ
  pub since : ℕ
  pub frame : Option ℕ
  pub failed : Bool

-- Where `finishGroup.run` stands: at the wait, with its serial number, with the generation read, with
-- the payload, behind the offers, and at its end.
pub data Phase : Type 0 where
  waiting stopped : Phase
  started : ℕ → Phase
  reading : ℕ → ℕ → Phase
  loaded : ℕ → ℕ → ℕ → Phase
  offered : ℕ → Phase

-- `committed` counts the writers before `generation.Add`, and `counted` those before their send.
-- `hub_clients` is `clients` of the hub, which counts the subscriptions of all groups; `others` says how
-- many are open to other groups. `next_id` is the number of subscriptions so far to this group, and
-- `closed` has those whose `closed.Once` is used up.
pub record Stream : Type 0 where
  pub version : ℕ
  pub committed : ℕ
  pub counted : ℕ
  pub generation : ℕ
  pub signal_wake : Bool
  pub dispatching : Bool
  pub wake : Bool
  pub serial : ℕ
  pub phase : Phase
  pub published : ℕ
  pub clients : List Subscriber
  pub hub_clients : ℕ
  pub others : ℕ
  pub next_id : ℕ
  pub closed : List ℕ

abbrev pub max_finish_clients : ℕ
max_finish_clients = 32

unfoldable pub new_subscriber : ℕ → ℕ → ℕ → Subscriber
new_subscriber id serial version = record {
  id = id;
  min_build = serial + 1;
  since = version;
  frame = none;
  failed = false;
}

-- The group that the first subscription creates when it is accepted, whatever the writers and the hub
-- are about: all the subscriptions that are open before are to other groups.
unfoldable pub first_subscription : Stream → Stream
unfolding new_subscriber
first_subscription before = record before {
  wake = true;
  serial = 0;
  phase = waiting;
  published = 0;
  clients = new_subscriber 0 0 before.version ∷ [];
  hub_clients = before.hub_clients + 1;
  others = before.hub_clients;
  next_id = 1;
  closed = [];
}

-- `Notify` in its two steps, after the commit.
unfoldable pub commit : Stream → Stream
commit s = record s { version = s.version + 1; committed = s.committed + 1 }

unfoldable pub notify_count : Stream → Stream
notify_count s = if s.committed == 0 then s else record s {
  committed = s.committed - 1;
  generation = s.generation + 1;
  counted = s.counted + 1;
}

unfoldable pub notify_wake : Stream → Stream
notify_wake s =
    if s.counted == 0 then s else record s { counted = s.counted - 1; signal_wake = true }

-- `finishHub.run` takes the wake-up and then requests every group.
unfoldable pub dispatch : Stream → Stream
dispatch s =
    if not s.signal_wake || s.dispatching
    then s
    else record s { signal_wake = false; dispatching = true }

unfoldable pub request_groups : Stream → Stream
request_groups s = if s.dispatching then record s { dispatching = false; wake = true } else s

unfoldable pub is_stopped : Phase → Bool
is_stopped stopped = true
is_stopped _ = false

-- A subscription over the limit of the hub is refused. One to a group that has stopped makes a new
-- group, which is another stream.
unfoldable pub subscribe : Stream → Stream
unfolding is_stopped new_subscriber
subscribe s = if leb max_finish_clients s.hub_clients || is_stopped s.phase then s else record s {
  clients = new_subscriber s.next_id s.serial s.version ∷ s.clients;
  hub_clients = s.hub_clients + 1;
  next_id = s.next_id + 1;
  wake = true;
}

-- `subscribe` to another group, and `close` of a subscription to one.
unfoldable pub subscribe_other : Stream → Stream
subscribe_other s =
    if leb max_finish_clients s.hub_clients
    then s
    else record s { hub_clients = s.hub_clients + 1; others = s.others + 1 }

unfoldable pub close_other : Stream → Stream
close_other s =
    if s.others == 0 then s else record s { hub_clients = s.hub_clients - 1; others = s.others - 1 }

unfoldable pub remove_client : ℕ → List Subscriber → List Subscriber
remove_client id [] = []
remove_client id (c ∷ cs) = let rest = remove_client id cs in if c.id == id then cs else c ∷ rest

unfoldable pub is_closed : ℕ → List ℕ → Bool
is_closed id [] = false
is_closed id (n ∷ ns) = n == id || is_closed id ns

-- The last subscriber to leave stops the group.
unfoldable pub stop_if_empty : List Subscriber → Stream → Stream
stop_if_empty [] s = record s { clients = []; phase = stopped }
stop_if_empty (c ∷ cs) s = record s { clients = c ∷ cs }

-- A second `close` does nothing, and there is none before the subscription.
unfoldable pub close : ℕ → Stream → Stream
unfolding remove_client stop_if_empty is_closed
close id s =
    if leb s.next_id id || is_closed id s.closed
    then s
    else stop_if_empty (remove_client id s.clients)
        (record s { hub_clients = s.hub_clients - 1; closed = id ∷ s.closed })

unfoldable pub offer : ℕ → ℕ → Subscriber → Subscriber
offer serial version c = if leb c.min_build serial then record c { frame = some version } else c

unfoldable pub offer_all : ℕ → ℕ → List Subscriber → List Subscriber
unfolding offer
offer_all serial version [] = []
offer_all serial version (c ∷ cs) = offer serial version c ∷ offer_all serial version cs

-- The next statement of `finishGroup.run`.
unfoldable pub advance : Phase → Stream → Stream
unfolding offer_all
advance waiting s =
    if s.wake
    then record s { wake = false; serial = s.serial + 1; phase = started (s.serial + 1) }
    else s
advance (started k) s = record s { phase = reading k s.generation }
advance (reading k g) s = record s { phase = loaded k g s.version }
advance (loaded k g v) s = record s {
  phase = offered g;
  published = v;
  clients = offer_all k v s.clients;
}
advance (offered g) s = record s { phase = waiting; wake = s.wake || not (s.generation == g) }
advance stopped s = s

unfoldable pub fail_all : List Subscriber → List Subscriber
fail_all [] = []
fail_all (c ∷ cs) = record c { failed = true } ∷ fail_all cs

-- The payload cannot be loaded: every subscriber fails and the group stops. They leave it, and the
-- count of the hub, at their `close`.
unfoldable pub fail_load : Phase → Stream → Stream
unfolding fail_all
fail_load (reading k g) s = record s { phase = stopped; clients = fail_all s.clients }
fail_load _ s = s

pub data Action : Type 0 where
  writer_commits writer_counts writer_wakes hub_takes hub_requests : Action
  browser_subscribes group_advances load_fails other_subscribes other_closes : Action
  browser_closes : ℕ → Action

-- An action that cannot happen in a state leaves it.
unfoldable pub perform : Action → Stream → Stream
unfolding commit notify_count notify_wake dispatch request_groups subscribe close advance fail_load
    subscribe_other close_other
perform writer_commits s = commit s
perform writer_counts s = notify_count s
perform writer_wakes s = notify_wake s
perform hub_takes s = dispatch s
perform hub_requests s = request_groups s
perform browser_subscribes s = subscribe s
perform group_advances s = advance s.phase s
perform load_fails s = fail_load s.phase s
perform other_subscribes s = subscribe_other s
perform other_closes s = close_other s
perform (browser_closes n) s = close n s

-- The states that any interleaving of the actions reaches.
pub data Reach (s : Stream) : Stream → Type 0 where
  here : Reach s s
  next : {t : Stream} (a : Action) → Reach s t → Reach s (perform a t)
