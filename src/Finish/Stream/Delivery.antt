-- ===== src/Finish/Stream/Delivery.antt =====
-- Proofs on what the subscribers of internal/transport/publicweb/finish_hub.go are offered.
use chrono_desk.Finish.Stream.Builds.{Reach-IsSound}
use chrono_desk.Prelude.{
  All, All-map, false, inl, inr, some, subst, true, ◌≡◌, ◌⊎◌, ap, arith, sym, ◌∙◌,
}
use chrono_desk.Prelude.Classes.{nat_eq}
use chrono_desk.Finish.Stream.{waiting, Stream, Subscriber, Reach, first_subscription}
use chrono_desk.Finish.Stream.Invariant.{
  IsSound, IsRecent, IsServed, first_subscription-IsSound, held, is_pending, comes_to,
}

-- No writer, no token and no build is under way.
pub record IsQuiet (s : Stream) : Type 0 where
  pub no_commit : s.committed ≡ 0
  pub no_count : s.counted ≡ 0
  pub no_signal : s.signal_wake ≡ false
  pub no_dispatch : s.dispatching ≡ false
  pub no_wake : s.wake ≡ false
  pub at_rest : s.phase ≡ waiting

abbrev pub ShowsLatest : Stream → Subscriber → Type 0
ShowsLatest s c = c.frame ≡ some s.version

nothing_pending :
    (s : Stream)
    → s.committed ≡ 0
    → s.counted ≡ 0
    → s.signal_wake ≡ false
    → s.dispatching ≡ false
    → s.wake ≡ false
    → is_pending (record s { phase = waiting }) ≡ true
    → s.published ≡ s.version
nothing_pending s a b c d e h = ground arith

quiet-latest : (s : Stream) → IsSound s → IsQuiet s → s.published ≡ s.version
quiet-latest s h q =
    let at_rest =
      subst (λ x. (is_pending (record s { phase = x }) ≡ true) ⊎ (held x s.published ≡ s.version))
        (q.at_rest) h.current in
    elim at_rest [
      | inl e ↦ nothing_pending s q.no_commit q.no_count q.no_signal q.no_dispatch q.no_wake e
      | inr e ↦ e
    ]

-- No commit is lost: in every state that is reachable from the first
-- subscription to a race and in which no writer, no wake-up and no build is under way,
-- every subscriber has been offered the finishes as of the last commit.
pub Reach-ShowsLatest :
    (before : Stream) {s : Stream}
    → Reach (first_subscription before) s
    → IsQuiet s
    → All (ShowsLatest s) s.clients
Reach-ShowsLatest before {s} r q =
    let h = Reach-IsSound (first_subscription-IsSound before) r in
    let latest = quiet-latest s h q in
    All-map (IsServed s) (ShowsLatest s)
      (λ c k.
        let (a, b, recent, f, served) = k in
        elim served [
          | inl w ↦ let bad : false ≡ true = sym q.no_wake ∙ w in cc
          | inr x ↦ elim x [
            | inl w ↦ let bad : false ≡ true = subst (λ p. comes_to p c ≡ true) q.at_rest w in cc
            | inr (y, z) ↦ y ∙ ap some latest
          ]
        ])
      s.clients h.served

-- A subscriber is never offered finishes older than its subscription.
pub Reach-IsRecent :
    (before : Stream) {s : Stream}
    → Reach (first_subscription before) s
    → All (λ c. IsRecent c.since c.frame) s.clients
Reach-IsRecent before {s} r =
    let h = Reach-IsSound (first_subscription-IsSound before) r in
    All-map (IsServed s) (λ c. IsRecent c.since c.frame)
      (λ c k. let (a, b, recent, f, served) = k in recent) s.clients h.served
