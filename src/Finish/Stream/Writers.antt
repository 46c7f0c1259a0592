-- ===== src/Finish/Stream/Writers.antt =====
-- The invariant of the stream (internal/transport/publicweb/finish_hub.go) under the actions of the
-- writers and of the hub.
use chrono_desk.Finish.Stream.Invariant.{IsSound, IsFor, IsServed}
use chrono_desk.Prelude.{
  All, All-map, arith, false, inl, refl, true, ◌||◌, ◌≡◌, Bool-cases, List, inr, not, subst, sym,
  if_false, if_true,
}
use chrono_desk.Prelude.Classes.{nat_eq, ◌==◌}
use chrono_desk.Finish.Stream.{
  Stream, Subscriber, commit, dispatch, notify_count, notify_wake, request_groups,
}

pub commit-IsSound : (s : Stream) → IsSound s → IsSound (commit s)
unfolding commit
commit-IsSound s h = record {
  current = inl (ground arith);
  in_order = h.in_order;
  served =
      All-map (IsServed s) (IsServed (commit s))
        (λ c k. let (a, b, r, f, w) = k in (a, omega arith, r, f, w)) s.clients h.served;
}

pub notify_count-IsSound : (s : Stream) → IsSound s → IsSound (notify_count s)
unfolding notify_count
notify_count-IsSound s h = elim (Bool-cases (s.committed == 0)) [
  | inl e ↦ rw e h
  | inr e ↦ rw e (record { current = inl (ground arith); in_order = h.in_order; served = h.served })
]

pub notify_wake-IsSound : (s : Stream) → IsSound s → IsSound (notify_wake s)
unfolding notify_wake
notify_wake-IsSound s h = elim (Bool-cases (s.counted == 0)) [
  | inl e ↦ rw e h
  | inr e ↦ rw e (record { current = inl (ground arith); in_order = h.in_order; served = h.served })
]

pub dispatch-IsSound : (s : Stream) → IsSound s → IsSound (dispatch s)
unfolding dispatch
dispatch-IsSound s h = elim (Bool-cases (not s.signal_wake || s.dispatching)) [
  | inl e ↦ rw e h
  | inr e ↦ rw e (record { current = inl (ground arith); in_order = h.in_order; served = h.served })
]

pub woken-IsServed :
    (s t : Stream)
    → t.serial ≡ s.serial
    → t.version ≡ s.version
    → t.phase ≡ s.phase
    → t.wake ≡ true
    → (cs : List Subscriber) → All (IsServed s) cs
    → All (IsServed t) cs
woken-IsServed s t p q r w cs h =
    All-map (IsServed s) (IsServed t)
      (λ c k.
        let (a, b, recent, f, served) = k in
        (rw p a, rw q b, recent, subst (λ x. IsFor x c) (sym r) f, inl w))
      cs h

pub request_groups-IsSound : (s : Stream) → IsSound s → IsSound (request_groups s)
unfolding request_groups
request_groups-IsSound s h =
    let requested : Stream = record s { dispatching = false; wake = true } in
    elim (Bool-cases s.dispatching) [
      | inl e ↦ subst IsSound (sym (if_true s.dispatching requested s e)) (record {
        current = inl (ground arith);
        in_order = h.in_order;
        served = woken-IsServed s requested refl refl refl refl s.clients h.served;
      })
      | inr e ↦ subst IsSound (sym (if_false s.dispatching requested s e)) h
    ]
