-- ===== src/Store/Publish/Append.antt =====
-- The appending of an action to the feed, in internal/infrastructure/sqlite/packet_issuance_store.go.
use chrono_desk.Prelude.{List, String, [], arith, false, refl, some, ℕ, ◌++◌, ◌+◌, ◌∷◌, ◌≡◌}
use chrono_desk.Store.Feed.Numbers.{first_of, first_or_one, last_of}
use chrono_desk.Store.Publish.{append_action, ensure_head, insert_action, set_last, with_head}
use chrono_desk.Store.Feed.{find_head, head_of}
use chrono_desk.Store.Tables.{FeedHead, FeedRow, Tables}
use chrono_desk.Store.Db.{
  done, resume, effect->>=, or_raise->>=, done->>=, raise_if->>=, after_done,
}
use chrono_desk.Prelude.Classes.{string_eq, nat_eq, ◌==◌, eq_iff}

pub last_of-with_head :
    (e k : String) (hs : List FeedHead) → last_of e (with_head k hs) ≡ last_of e hs
unfolding last_of with_head find_head head_of
last_of-with_head e k [] = ground arith
last_of-with_head e k (h ∷ hs) = ground (arith, last_of-with_head e k hs)

pub first_of-with_head :
    (e k : String) (hs : List FeedHead) → first_of e (with_head k hs) ≡ first_of e hs
unfolding first_of with_head find_head first_or_one
first_of-with_head e k [] = ground arith
first_of-with_head e k (h ∷ hs) = ground (arith, first_of-with_head e k hs)

pub first_of-set_last :
    (e k : String) (v : ℕ) (hs : List FeedHead) → first_of e (set_last k v hs) ≡ first_of e hs
unfolding first_of set_last find_head first_or_one
first_of-set_last e k v [] = refl
first_of-set_last e k v (h ∷ hs) = ground (arith, first_of-set_last e k v hs)

pub last_of-set_last :
    (e : String) (v : ℕ) (hs : List FeedHead) → last_of e (set_last e v (with_head e hs)) ≡ v
unfolding last_of set_last find_head head_of with_head
last_of-set_last e v [] = ground (arith, eq_iff e e)
last_of-set_last e v (h ∷ hs) = ground (arith, last_of-set_last e v hs)

pub last_of-set_last-other :
    (e k : String) (v : ℕ) (hs : List FeedHead)
    → (k == e) ≡ false
    → last_of e (set_last k v hs) ≡ last_of e hs
unfolding last_of set_last find_head head_of
last_of-set_last-other e k v [] p = refl
last_of-set_last-other e k v (h ∷ hs) p =
    ground
      (arith, eq_iff h.event_id k, eq_iff h.event_id e, eq_iff k e, last_of-set_last-other e k v hs)

-- The tables after an action is appended.
unfoldable pub appended : String → FeedRow → ℕ → Tables → Tables
appended e r number s = record s {
  feed_heads = set_last e number (with_head e s.feed_heads);
  feed_actions = s.feed_actions ++ (record r { event_id = e; sequence = number } ∷ []);
}

ensure_head-eq-done :
    (e : String) (s : Tables) {u : Unit {0}} {t : Tables}
    → ensure_head e s ≡ done u t
    → t ≡ record s { feed_heads = with_head e s.feed_heads }
unfolding ensure_head resume
ensure_head-eq-done e s h = let (b, h1) = raise_if->>= _ _ _ _ h in after_done h1

insert_action-eq-done :
    (r : FeedRow) (s : Tables) {u : Unit {0}} {t : Tables}
    → insert_action r s ≡ done u t
    → t ≡ record s { feed_actions = s.feed_actions ++ (r ∷ []) }
unfolding insert_action resume
insert_action-eq-done r s h = let (b, h1) = raise_if->>= _ _ _ _ h in after_done h1

pub append_action-eq-done :
    (e : String) (r : FeedRow) (s : Tables) {u : Unit {0}} {t : Tables}
    → append_action e r s ≡ done u t
    → (h : FeedHead) × (find_head e (with_head e s.feed_heads) ≡ some h)
      × (t ≡ appended e r (h.last_sequence + 1) s)
unfolding append_action appended
append_action-eq-done e r s h =
    let h1 = effect->>= _ _ _ (λ t. ensure_head-eq-done e s) h in
    let h2 = done->>= _ _ _ h1 in
    let (head, found, h3) = or_raise->>= _ _ _ _ h2 in
    let h4 = effect->>= _ _ _ (λ t. insert_action-eq-done _ _) h3 in (head, found, after_done h4)
