-- ===== src/Finish/Stream/Subscribers.antt =====
-- The invariant of the stream (internal/transport/publicweb/finish_hub.go) when a browser subscribes or
-- closes.
use chrono_desk.Finish.Stream.Invariant.{IsSound, InOrder, IsFor, IsServed}
use chrono_desk.Finish.Stream.Writers.{woken-IsServed}
use chrono_desk.Prelude.{
  All, arith, inl, leb, refl, true, ℕ, ◌||◌, Bool-cases, List, inr, ◌∷◌, [], ◌-◌, ◌+◌,
}
use chrono_desk.Prelude.Classes.{nat_eq, ◌==◌}
use chrono_desk.Finish.Stream.{
  close, loaded, Stream, Phase, Subscriber, is_stopped, new_subscriber, subscribe, stop_if_empty,
  close_other, is_closed, remove_client, subscribe_other,
}

new_subscriber-IsFor :
    (p : Phase) (id serial version : ℕ)
    → InOrder p serial
    → IsFor p (new_subscriber id serial version)
unfolding new_subscriber
new_subscriber-IsFor (loaded k g v) id serial version h = inl (omega arith)
new_subscriber-IsFor _ id serial version h = tt

pub subscribe-IsSound : (s : Stream) → IsSound s → IsSound (subscribe s)
unfolding subscribe new_subscriber
subscribe-IsSound s h = elim (Bool-cases (leb 32 s.hub_clients || is_stopped s.phase)) [
  | inl e ↦ rw e h
  | inr e ↦
      let joined : Stream = record s {
        clients = new_subscriber s.next_id s.serial s.version ∷ s.clients;
        hub_clients = s.hub_clients + 1;
        next_id = s.next_id + 1;
        wake = true;
      } in
      rw e (record {
        current = inl (ground arith);
        in_order = h.in_order;
        served = (
          (
            omega arith,
            omega arith,
            tt,
            new_subscriber-IsFor s.phase s.next_id s.serial s.version h.in_order,
            inl refl,
          ),
          woken-IsServed s joined refl refl refl refl s.clients h.served,
        );
      })
]

remove_client-All :
    (P : Subscriber → Type 0) (id : ℕ) (cs : List Subscriber)
    → All P cs
    → All P (remove_client id cs)
unfolding remove_client
remove_client-All P id [] h = tt
remove_client-All P id (c ∷ cs) h = elim (Bool-cases (c.id == id)) [
  | inl e ↦ rw (e, remove_client, All) h.1
  | inr e ↦ rw (e, remove_client, All) (h.0, remove_client-All P id cs h.1)
]

stop_if_empty-IsSound :
    (cs : List Subscriber) (s : Stream)
    → IsSound s
    → All (IsServed s) cs
    → IsSound (stop_if_empty cs s)
unfolding stop_if_empty
stop_if_empty-IsSound [] s h k = record { current = inl (ground arith); in_order = tt; served = tt }
stop_if_empty-IsSound (c ∷ cs) s h k = record {
  current = h.current;
  in_order = h.in_order;
  served = k;
}

-- The counters do not matter to what is offered.
recounted-IsSound :
    (s : Stream) (n m : ℕ) (ids : List ℕ)
    → IsSound s
    → IsSound (record s { hub_clients = n; others = m; closed = ids })
recounted-IsSound s n m ids h = record {
  current = h.current;
  in_order = h.in_order;
  served = h.served;
}

pub close-IsSound : (id : ℕ) (s : Stream) → IsSound s → IsSound (close id s)
unfolding close
close-IsSound id s h =
    let gone : Stream = record s { hub_clients = s.hub_clients - 1; closed = id ∷ s.closed } in
    elim (Bool-cases (leb s.next_id id || is_closed id s.closed)) [
      | inl e ↦ rw e h
      | inr e ↦ rw e (
          stop_if_empty-IsSound (remove_client id s.clients) gone
            (recounted-IsSound s (s.hub_clients - 1) s.others (id ∷ s.closed) h)
            (remove_client-All (IsServed s) id s.clients h.served))
    ]

pub subscribe_other-IsSound : (s : Stream) → IsSound s → IsSound (subscribe_other s)
unfolding subscribe_other
subscribe_other-IsSound s h = elim (Bool-cases (leb 32 s.hub_clients)) [
  | inl e ↦ rw e h
  | inr e ↦ rw e (recounted-IsSound s (s.hub_clients + 1) (s.others + 1) s.closed h)
]

pub close_other-IsSound : (s : Stream) → IsSound s → IsSound (close_other s)
unfolding close_other
close_other-IsSound s h = elim (Bool-cases (s.others == 0)) [
  | inl e ↦ rw e h
  | inr e ↦ rw e (recounted-IsSound s (s.hub_clients - 1) (s.others - 1) s.closed h)
]
