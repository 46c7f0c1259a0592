-- ===== src/Finish/Stream/Invariant.antt =====
-- The invariant of the stream of internal/transport/publicweb/finish_hub.go.
use chrono_desk.Prelude.{
  All, Bool, Option, arith, false, inl, leb, ltb, none, refl, some, true, ℕ, ◌+◌, ◌<◌, ◌||◌, ◌≡◌,
  ◌≤◌, ◌⊎◌,
}
use chrono_desk.Prelude.Classes.{nat_eq}
use chrono_desk.Finish.Stream.{
  stopped, started, reading, loaded, Stream, Phase, Subscriber, first_subscription, new_subscriber,
}

-- A snapshot is to be loaded, or the group has stopped.
abbrev pub is_loading : Phase → Bool
is_loading (started k) = true
is_loading (reading k g) = true
is_loading stopped = true
is_loading _ = false

-- Someone has still to act on a commit.
abbrev pub is_pending : Stream → Bool
is_pending s =
    ltb 0 s.committed
    || ltb 0 s.counted
    || s.signal_wake
    || s.dispatching
    || s.wake
    || is_loading s.phase

-- The version that was loaded last.
abbrev pub held : Phase → ℕ → ℕ
held (loaded k g v) published = v
held _ published = published

-- The serial number of a build in progress.
abbrev pub InOrder : Phase → ℕ → Type 0
InOrder (started k) serial = k ≡ serial
InOrder (reading k g) serial = k ≡ serial
InOrder (loaded k g v) serial = k ≡ serial
InOrder _ serial = Unit

abbrev pub IsRecent : ℕ → Option ℕ → Type 0
IsRecent since none = Unit
IsRecent since (some v) = since ≤ v

-- A payload that was loaded is recent for those to whom it goes.
abbrev pub IsFor : Phase → Subscriber → Type 0
IsFor (loaded k g v) c = (k < c.min_build) ⊎ (c.since ≤ v)
IsFor _ c = Unit

-- The build in progress is for the subscriber.
abbrev pub comes_to : Phase → Subscriber → Bool
comes_to (started k) c = leb c.min_build k
comes_to (reading k g) c = leb c.min_build k
comes_to (loaded k g v) c = leb c.min_build k
comes_to stopped c = true
comes_to _ c = false

abbrev pub IsServed : Stream → Subscriber → Type 0
IsServed s c =
    (c.min_build ≤ s.serial + 1)
    × (c.since ≤ s.version)
    × IsRecent c.since c.frame
    × IsFor s.phase c
    × ((s.wake ≡ true)
        ⊎ (comes_to s.phase c ≡ true)
        ⊎ ((c.frame ≡ some s.published) × (c.min_build ≤ s.serial)))

pub record IsSound (s : Stream) : Type 0 where
  pub current : (is_pending s ≡ true) ⊎ (held s.phase s.published ≡ s.version)
  pub in_order : InOrder s.phase s.serial
  pub served : All (IsServed s) s.clients

pub first_subscription-IsSound : (before : Stream) → IsSound (first_subscription before)
unfolding first_subscription new_subscriber
first_subscription-IsSound before = record {
  current = inl (ground arith);
  in_order = tt;
  served = ((omega arith, omega arith, tt, tt, inl refl), tt);
}
