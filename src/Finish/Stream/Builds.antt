-- ===== src/Finish/Stream/Builds.antt =====
-- The invariant of the stream (internal/transport/publicweb/finish_hub.go) under the steps of a group.
use chrono_desk.Finish.Stream.Writers.{
  commit-IsSound, dispatch-IsSound, notify_count-IsSound, notify_wake-IsSound,
  request_groups-IsSound,
}
use chrono_desk.Finish.Stream.Invariant.{IsSound, IsFor, IsServed, comes_to}
use chrono_desk.Finish.Stream.Subscribers.{
  close-IsSound, subscribe-IsSound, close_other-IsSound, subscribe_other-IsSound,
}
use chrono_desk.Prelude.{
  All, All-map, arith, false, inl, leb, refl, some, true, ℕ, ◌+◌, ◌||◌, ◌≡◌, Bool-cases, List, inr,
  not, subst, sym, ◌∷◌, [], le→leb, leb→le, or_left, ◌∙◌, if_false, if_true,
}
use chrono_desk.Prelude.Classes.{nat_eq, ◌==◌}
use chrono_desk.Finish.Stream.{
  Action, writer_commits, writer_counts, writer_wakes, hub_takes, hub_requests, browser_subscribes,
  group_advances, load_fails, browser_closes, next, offer, advance, perform, stopped, started,
  reading, loaded, Stream, Phase, Subscriber, Reach, fail_load, here, offer_all, offered, waiting,
  fail_all, other_closes, other_subscribes,
}

at_phase : (s : Stream) (p : Phase) → s.phase ≡ p → IsSound s → IsSound (record s { phase = p })
at_phase s p e h = subst (λ x. IsSound (record s { phase = x })) e h

offer-IsServed :
    (k g v : ℕ) (s t : Stream)
    → k ≡ s.serial
    → t.serial ≡ s.serial
    → t.version ≡ s.version
    → t.wake ≡ s.wake
    → t.phase ≡ offered g
    → t.published ≡ v
    → (c : Subscriber) → IsServed (record s { phase = loaded k g v }) c
    → IsServed t (offer k v c)
unfolding offer
offer-IsServed k g v s t i p q r f o c h =
    let (a, b, recent, for, served) = h in
    let done = subst (λ x. IsFor x c) (sym f) tt in
    elim (Bool-cases (leb c.min_build k)) [
      | inl e ↦
          let le = leb→le c.min_build k e in
          rw (e, offer)
            (
              rw p a,
              rw q b,
              ground arith,
              subst (λ x. IsFor x (record c { frame = some v })) (sym f) tt,
              inr (inr (rw o refl, ground arith)),
            )
      | inr e ↦
          rw (e, offer)
            (
              rw p a,
              rw q b,
              recent,
              done,
              elim served [
                | inl w ↦ inl (r ∙ w)
                | inr x ↦ elim x [
                  | inl w ↦ let bad : false ≡ true = rw e at w in cc
                  | inr (y, z) ↦
                      let bad : leb c.min_build k ≡ true = le→leb c.min_build k (omega arith) in cc
                ]
              ],
            )
    ]

offer_all-All :
    (P Q : Subscriber → Type 0) (k v : ℕ)
    → ((c : Subscriber) → P c → Q (offer k v c))
    → (cs : List Subscriber) → All P cs
    → All Q (offer_all k v cs)
unfolding offer_all
offer_all-All P Q k v f [] h = tt
offer_all-All P Q k v f (c ∷ cs) h = (f c h.0, offer_all-All P Q k v f cs h.1)

advance-IsSound :
    (p : Phase) (s : Stream) → IsSound s → IsSound (record s { phase = p }) → IsSound (advance p s)
unfolding advance
advance-IsSound waiting s h k =
    let build : Stream = record s {
      wake = false;
      serial = s.serial + 1;
      phase = started (s.serial + 1);
    } in
    elim (Bool-cases s.wake) [
      | inl e ↦ subst IsSound (sym (if_true s.wake build s e)) (record {
        current = inl (ground arith);
        in_order = omega arith;
        served =
            All-map (IsServed s) (IsServed build)
              (λ c w.
                let (a, b, recent, f, served) = w in
                (omega arith, b, recent, tt, inr (inl (le→leb c.min_build (s.serial + 1) a))))
              s.clients h.served;
      })
      | inr e ↦ subst IsSound (sym (if_false s.wake build s e)) h
    ]
advance-IsSound (started j) s h k = record {
  current = inl (ground arith);
  in_order = k.in_order;
  served = k.served;
}
advance-IsSound (reading j g) s h k = record {
  current = inr refl;
  in_order = k.in_order;
  served =
      All-map (IsServed (record s { phase = reading j g }))
        (IsServed (record s { phase = loaded j g s.version }))
        (λ c w. let (a, b, recent, f, served) = w in (a, b, recent, inr b, served)) s.clients
        k.served;
}
advance-IsSound (loaded j g v) s h k = record {
  current = k.current;
  in_order = tt;
  served =
      offer_all-All (IsServed (record s { phase = loaded j g v })) _ j v
        (offer-IsServed j g v s
          (record s { phase = offered g; published = v; clients = offer_all j v s.clients })
          k.in_order refl refl refl refl refl)
        s.clients k.served;
}
advance-IsSound (offered g) s h k =
    let rest : Stream = record s { phase = waiting; wake = s.wake || not (s.generation == g) } in
    record {
      current = elim k.current [ inl e ↦ inl (ground arith) | inr e ↦ inr e ];
      in_order = tt;
      served =
          All-map (IsServed (record s { phase = offered g })) (IsServed rest)
            (λ c w.
              let (a, b, recent, f, served) = w in
              (
                a,
                b,
                recent,
                tt,
                elim served [
                  | inl e ↦ inl (or_left s.wake (not (s.generation == g)) e)
                  | inr x ↦ inr x
                ],
              ))
            s.clients k.served;
    }
advance-IsSound stopped s h k = h

-- Those who fail have been offered what they had been offered before.
fail_all-All :
    (s t : Stream) (cs : List Subscriber)
    → t.phase ≡ stopped
    → t.serial ≡ s.serial
    → t.version ≡ s.version
    → All (IsServed s) cs
    → All (IsServed t) (fail_all cs)
unfolding fail_all
fail_all-All s t [] e p q h = tt
fail_all-All s t (c ∷ cs) e p q h =
    let (a, b, recent, f, served) = h.0 in
    (
      (
        rw p a,
        rw q b,
        recent,
        subst (λ x. IsFor x (record c { failed = true })) (sym e) tt,
        inr (inl (subst (λ x. comes_to x (record c { failed = true }) ≡ true) (sym e) refl)),
      ),
      fail_all-All s t cs e p q h.1,
    )

fail_load-IsSound : (p : Phase) (s : Stream) → IsSound s → IsSound (fail_load p s)
unfolding fail_load
fail_load-IsSound (reading k g) s h = record {
  current = inl (ground arith);
  in_order = tt;
  served =
      fail_all-All s (record s { phase = stopped; clients = fail_all s.clients }) s.clients refl
        refl refl h.served;
}
fail_load-IsSound _ s h = h

perform-IsSound : (a : Action) (s : Stream) → IsSound s → IsSound (perform a s)
unfolding perform
perform-IsSound writer_commits s h = commit-IsSound s h
perform-IsSound writer_counts s h = notify_count-IsSound s h
perform-IsSound writer_wakes s h = notify_wake-IsSound s h
perform-IsSound hub_takes s h = dispatch-IsSound s h
perform-IsSound hub_requests s h = request_groups-IsSound s h
perform-IsSound browser_subscribes s h = subscribe-IsSound s h
perform-IsSound group_advances s h = advance-IsSound s.phase s h (at_phase s s.phase refl h)
perform-IsSound load_fails s h = fail_load-IsSound s.phase s h
perform-IsSound other_subscribes s h = subscribe_other-IsSound s h
perform-IsSound other_closes s h = close_other-IsSound s h
perform-IsSound (browser_closes n) s h = close-IsSound n s h

-- Whatever the interleaving, the invariant holds.
pub Reach-IsSound : {s t : Stream} → IsSound s → Reach s t → IsSound t
Reach-IsSound h here = h
Reach-IsSound h (next a r) = perform-IsSound a _ (Reach-IsSound h r)
