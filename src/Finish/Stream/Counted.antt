-- ===== src/Finish/Stream/Counted.antt =====
-- Proofs on the number of subscribers that internal/transport/publicweb/finish_hub.go counts.
use chrono_desk.Prelude.Classes.{◌==◌}
use chrono_desk.Prelude.{
  Bool, Bool-cases, List, [], arith, false, if◌then◌else◌, inl, inr, leb, length, not, or_left,
  or_right, refl, true, ℕ, ◌+◌, ◌-◌, ◌<◌, ◌||◌, ◌∙◌, ◌∷◌, ◌≡◌, ◌≤◌, or_parts,
}
use chrono_desk.Prelude.Classes.{nat_eq, ◌==◌}
use chrono_desk.Finish.Stream.{
  Stream, Action, Phase, Reach, Subscriber, advance, browser_closes, browser_subscribes, close,
  close_other, commit, dispatch, fail_all, fail_load, first_subscription, group_advances, here,
  hub_requests, hub_takes, is_closed, is_stopped, load_fails, loaded, new_subscriber, next,
  notify_count, notify_wake, offer, offer_all, other_closes, other_subscribes, perform, reading,
  remove_client, request_groups, stop_if_empty, stopped, subscribe, subscribe_other, waiting,
  writer_commits, writer_counts, writer_wakes,
}

-- Whether the group has a subscription among its clients.
abbrev has_client : ℕ → List Subscriber → Bool
has_client id [] = false
has_client id (c ∷ cs) = c.id == id || has_client id cs

record IsCounted (s : Stream) : Type 0 where
  total : s.hub_clients ≡ length s.clients + s.others
  limit : s.hub_clients ≤ 32
  present :
      (id : ℕ) → id < s.next_id → is_closed id s.closed ≡ false → has_client id s.clients ≡ true

has_client-offer_all :
    (k v id : ℕ) (cs : List Subscriber) → has_client id (offer_all k v cs) ≡ has_client id cs
unfolding offer_all offer
has_client-offer_all k v id [] = refl
has_client-offer_all k v id (c ∷ cs) =
    let rest = has_client-offer_all k v id cs in
    elim (Bool-cases (leb c.min_build k)) [ inl e ↦ rw (e, rest) refl | inr e ↦ rw (e, rest) refl ]

length-offer_all : (k v : ℕ) (cs : List Subscriber) → length (offer_all k v cs) ≡ length cs
unfolding offer_all
length-offer_all k v [] = refl
length-offer_all k v (c ∷ cs) = omega (arith, length-offer_all k v cs)

has_client-fail_all :
    (id : ℕ) (cs : List Subscriber) → has_client id (fail_all cs) ≡ has_client id cs
unfolding fail_all
has_client-fail_all id [] = refl
has_client-fail_all id (c ∷ cs) = rw (has_client-fail_all id cs) refl

length-fail_all : (cs : List Subscriber) → length (fail_all cs) ≡ length cs
unfolding fail_all
length-fail_all [] = refl
length-fail_all (c ∷ cs) = omega (arith, length-fail_all cs)

length-remove_client :
    (id : ℕ) (cs : List Subscriber)
    → has_client id cs ≡ true
    → length (remove_client id cs) + 1 ≡ length cs
unfolding remove_client
length-remove_client id [] h = cc
length-remove_client id (c ∷ cs) h = elim (Bool-cases (c.id == id)) [
  | inl e ↦ rw e (omega arith)
  | inr e ↦
      let there : has_client id cs ≡ true = rw e at h in
      rw e (omega (arith, length-remove_client id cs there))
]

-- The others stay.
has_client-remove_client :
    (id other : ℕ) (cs : List Subscriber)
    → (id == other) ≡ false
    → has_client other (remove_client id cs) ≡ has_client other cs
unfolding remove_client
has_client-remove_client id other [] n = refl
has_client-remove_client id other (c ∷ cs) n = elim (Bool-cases (c.id == id)) [
  | inl e ↦ let same : c.id ≡ id = ground arith in rw (e, same, n) refl
  | inr e ↦ rw (e, has_client-remove_client id other cs n) refl
]

stop_if_empty-IsCounted :
    (cs : List Subscriber) (s : Stream)
    → IsCounted (record s { clients = cs })
    → IsCounted (stop_if_empty cs s)
unfolding stop_if_empty
stop_if_empty-IsCounted [] s h = record { total = h.total; limit = h.limit; present = h.present }
stop_if_empty-IsCounted (c ∷ cs) s h = h

-- A first close takes one subscriber off the list and one off the count.
close-IsCounted : (id : ℕ) (s : Stream) → IsCounted s → IsCounted (close id s)
unfolding close is_closed
close-IsCounted id s h = elim (Bool-cases (leb s.next_id id || is_closed id s.closed)) [
  | inl e ↦ rw e h
  | inr e ↦
      let (early, unused) = or_parts (leb s.next_id id) (is_closed id s.closed) e in
      let there = h.present id (ground arith) unused in
      let removed = length-remove_client id s.clients there in
      rw e (
        stop_if_empty-IsCounted (remove_client id s.clients)
          (record s { hub_clients = s.hub_clients - 1; closed = id ∷ s.closed })
          (record {
            total = omega (arith, h.total);
            limit = omega (arith, h.limit);
            present = λ other l o.
                let (differs, still) = or_parts (id == other) (is_closed other s.closed) o in
                has_client-remove_client id other s.clients differs ∙ h.present other l still;
          }))
]

subscribe-IsCounted : (s : Stream) → IsCounted s → IsCounted (subscribe s)
unfolding subscribe new_subscriber
subscribe-IsCounted s h = elim (Bool-cases (leb 32 s.hub_clients || is_stopped s.phase)) [
  | inl e ↦ rw e h
  | inr e ↦
      let (room, active) = or_parts (leb 32 s.hub_clients) (is_stopped s.phase) e in
      rw e (record {
        total = omega (arith, h.total);
        limit = ground arith;
        present = λ id l o. elim (Bool-cases (s.next_id == id)) [
          | inl same ↦ or_left (s.next_id == id) (has_client id s.clients) same
          | inr other ↦
              or_right (s.next_id == id) (has_client id s.clients) (h.present id (ground arith) o)
        ];
      })
]

subscribe_other-IsCounted : (s : Stream) → IsCounted s → IsCounted (subscribe_other s)
unfolding subscribe_other
subscribe_other-IsCounted s h = elim (Bool-cases (leb 32 s.hub_clients)) [
  | inl e ↦ rw e h
  | inr e ↦
      rw e (record { total = omega (arith, h.total); limit = ground arith; present = h.present })
]

close_other-IsCounted : (s : Stream) → IsCounted s → IsCounted (close_other s)
unfolding close_other
close_other-IsCounted s h = elim (Bool-cases (s.others == 0)) [
  | inl e ↦ rw e h
  | inr e ↦ rw e (record {
    total = ground (arith, h.total);
    limit = omega (arith, h.limit);
    present = h.present;
  })
]

-- What leaves the clients and the counters.
kept-IsCounted :
    (s t : Stream)
    → IsCounted s
    → t.clients ≡ s.clients
    → t.hub_clients ≡ s.hub_clients
    → t.others ≡ s.others
    → t.next_id ≡ s.next_id
    → t.closed ≡ s.closed
    → IsCounted t
kept-IsCounted s t h a b c d e = record {
  total = rw (a, b, c) h.total;
  limit = rw b h.limit;
  present = λ id l o. rw a (h.present id (rw d at l) (rw e at o));
}

chosen-IsCounted :
    (b : Bool) (s t : Stream) → IsCounted s → IsCounted t → IsCounted (if b then s else t)
chosen-IsCounted true s t h k = h
chosen-IsCounted false s t h k = k

advance-IsCounted : (p : Phase) (s : Stream) → IsCounted s → IsCounted (advance p s)
unfolding advance
advance-IsCounted waiting s h =
    chosen-IsCounted s.wake _ s (kept-IsCounted s _ h refl refl refl refl refl) h
advance-IsCounted (loaded j g v) s h = record {
  total = omega (arith, h.total, length-offer_all j v s.clients);
  limit = h.limit;
  present = λ id l o. has_client-offer_all j v id s.clients ∙ h.present id l o;
}
advance-IsCounted stopped s h = h
advance-IsCounted _ s h = kept-IsCounted s _ h refl refl refl refl refl

fail_load-IsCounted : (p : Phase) (s : Stream) → IsCounted s → IsCounted (fail_load p s)
unfolding fail_load
fail_load-IsCounted (reading k g) s h = record {
  total = omega (arith, h.total, length-fail_all s.clients);
  limit = h.limit;
  present = λ id l o. has_client-fail_all id s.clients ∙ h.present id l o;
}
fail_load-IsCounted _ s h = h

perform-IsCounted : (a : Action) (s : Stream) → IsCounted s → IsCounted (perform a s)
unfolding perform commit notify_count notify_wake dispatch request_groups
perform-IsCounted writer_commits s h = kept-IsCounted s _ h refl refl refl refl refl
perform-IsCounted writer_counts s h =
    chosen-IsCounted (s.committed == 0) s _ h (kept-IsCounted s _ h refl refl refl refl refl)
perform-IsCounted writer_wakes s h =
    chosen-IsCounted (s.counted == 0) s _ h (kept-IsCounted s _ h refl refl refl refl refl)
perform-IsCounted hub_takes s h =
    chosen-IsCounted (not s.signal_wake || s.dispatching) s _ h
      (kept-IsCounted s _ h refl refl refl refl refl)
perform-IsCounted hub_requests s h =
    chosen-IsCounted s.dispatching _ s (kept-IsCounted s _ h refl refl refl refl refl) h
perform-IsCounted browser_subscribes s h = subscribe-IsCounted s h
perform-IsCounted group_advances s h = advance-IsCounted s.phase s h
perform-IsCounted load_fails s h = fail_load-IsCounted s.phase s h
perform-IsCounted other_subscribes s h = subscribe_other-IsCounted s h
perform-IsCounted other_closes s h = close_other-IsCounted s h
perform-IsCounted (browser_closes n) s h = close-IsCounted n s h

first_subscription-IsCounted :
    (before : Stream) → before.hub_clients < 32 → IsCounted (first_subscription before)
unfolding first_subscription new_subscriber
first_subscription-IsCounted before l = record {
  total = omega arith;
  limit = omega arith;
  present = λ id k o. ground arith;
}

Reach-IsCounted : {s t : Stream} → IsCounted s → Reach s t → IsCounted t
Reach-IsCounted h here = h
Reach-IsCounted h (next a r) = perform-IsCounted a _ (Reach-IsCounted h r)

-- After a first subscription to a race that the hub accepts below its limit, and
-- whatever the browsers, the writers, the hub and the group do then, failed builds and second calls of
-- close among it, the hub's count of clients is at most 32 and is the number of the group's
-- clients together with the subscriptions that are open to other groups.
pub hub_clients-Reach :
    (before : Stream)
    → before.hub_clients < 32
    → {s : Stream} → Reach (first_subscription before) s
    → (s.hub_clients ≤ 32) × (s.hub_clients ≡ length s.clients + s.others)
hub_clients-Reach before l r =
    let h = Reach-IsCounted (first_subscription-IsCounted before l) r in (h.limit, h.total)
