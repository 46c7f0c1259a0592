-- ===== src/Store/Retention/Bounds.antt =====
-- What an archiving leaves: `CompactPacketIssuanceFeed` of internal/service/packet_issuance_retention.go.
use chrono_desk.Store.Feed.Kept.{archive_packet_feed_prefix-IsContiguous}
use chrono_desk.Store.Journal.{Journaled, Journaled-IsContiguous}
use chrono_desk.Store.Feed.Floor.{first_of-set_first, last_of-set_first}
use chrono_desk.Store.Feed.Numbers.{
  first_of, last_of, IsContiguous, IsNumbered, archived_rows, numbers, range,
}
use chrono_desk.Store.Feed.Archive.{
  archive_packet_feed_prefix-IsMoved, packet_feed_bounds-eq-done, IsMoved, archived_through,
}
use chrono_desk.Store.Feed.{
  archive_packet_feed_prefix, packet_feed_bounds, PacketFeedBounds, set_first, in_range, keep_rows,
}
use chrono_desk.Store.Tables.{Tables, FeedRow}
use chrono_desk.Store.Retention.{
  PacketFeedRetentionResult, compact_packet_issuance_feed, compact_within, execute_plan, planned,
}
use chrono_desk.Store.Db.{
  Db, commit-done, done, done-injective, execute, pure, raise_if->>=, read->>=, resume-eq-done,
  within_tx,
}
use chrono_desk.Prelude.{
  Bool, String, false, if◌then◌else◌, ltb, not, refl, sym, true, ℕ, ◌+◌, ◌≡◌, ◌≤◌, ap, ◌∙◌, arith,
  Bool-cases, List, [], inl, inr, subst, suc, ◌&&◌, ◌-◌, ◌∷◌,
}
use chrono_desk.Prelude.Classes.{string_eq, nat_eq, bool_eq, ◌==◌}

true_not_false : {P : Type 0} → true ≡ false → P
true_not_false h = cc

no_execution :
    {P : Type 0} (y r : PacketFeedRetentionResult)
    → y.executed ≡ false
    → r ≡ y
    → r.executed ≡ true
    → P
no_execution y r p q h = true_not_false (sym h ∙ ap (λ x. x.executed) q ∙ p)

third :
    (c x : Bool) (y z r : PacketFeedRetentionResult) (d : Db Tables PacketFeedRetentionResult)
    (s t : Tables)
    → y.executed ≡ false
    → z.executed ≡ false
    → (if c then pure y else if x then pure z else d) s ≡ done r t
    → r.executed ≡ true
    → (c ≡ false) × (d s ≡ done r t)
third true x y z r d s t p q h k = no_execution y r p (sym (done-injective h).0) k
third false true y z r d s t p q h k = no_execution z r q (sym (done-injective h).0) k
third false false y z r d s t p q h k = (refl, h)

planned-bounds :
    (b : PacketFeedBounds) (keep : ℕ)
    → ltb b.head (b.first_available + keep) ≡ false
    → (1 ≤ (planned b keep).processed)
      × ((planned b keep).processed ≤ 100)
      × ((planned b keep).through + 1 ≡ b.first_available + (planned b keep).processed)
      × (b.first_available + (planned b keep).processed + keep ≤ b.head + 1)
unfolding planned
planned-bounds b keep room = ground arith

-- The rows of the event above a number.
unfoldable pub is_above : String → ℕ → FeedRow → Bool
is_above event n row = row.event_id == event && ltb n row.sequence

-- A row that fails the test of the removal is not above a number that the removal does not reach.
is_above-kept :
    (event : String) (n lo hi : ℕ) (row : FeedRow)
    → hi ≤ n
    → in_range event lo hi row ≡ true
    → is_above event n row ≡ false
unfolding in_range is_above
is_above-kept event n lo hi row l h = ground arith

keep_rows-is_above :
    (event : String) (n lo hi : ℕ) (rows : List FeedRow)
    → hi ≤ n
    → keep_rows (is_above event n) (keep_rows (λ r. not (in_range event lo hi r)) rows)
      ≡ keep_rows (is_above event n) rows
unfolding keep_rows
keep_rows-is_above event n lo hi [] l = refl
keep_rows-is_above event n lo hi (row ∷ rows) l =
    let rest = keep_rows-is_above event n lo hi rows l in
    elim (Bool-cases (in_range event lo hi row)) [
      | inl e ↦ rw (e, is_above-kept event n lo hi row l e, keep_rows) rest
      | inr e ↦ elim (Bool-cases (is_above event n row)) [
        | inl f ↦ rw (e, f, keep_rows) (ap (λ xs. row ∷ xs) rest)
        | inr f ↦ rw (e, f, keep_rows) rest
      ]
    ]

-- What an archiving has done to the tables: to the head of the event, to the numbers of its live and of
-- its archived actions, and to its last `keep` rows, those above `last - keep`.
unfoldable pub IsCompacted : String → ℕ → ℕ → Tables → Tables → Type 0
IsCompacted event keep processed s t =
    let first = first_of event s.feed_heads + processed in
    let last = last_of event s.feed_heads in
    (1 ≤ processed)
    × (processed ≤ 100)
    × (first_of event t.feed_heads ≡ first)
    × (last_of event t.feed_heads ≡ last)
    × (first + keep ≤ last + 1)
    × (numbers event t.feed_actions ≡ range first (last + 1 - first))
    × (numbers event (archived_rows t.feed_archives) ≡ range 1 (first - 1))
    × (keep_rows (is_above event (last - keep)) t.feed_actions
        ≡ keep_rows (is_above event (last - keep)) s.feed_actions)

-- The numbers of a contiguous feed by the head of the event.
numbers-IsContiguous :
    (event : String) (first last : ℕ) (t : Tables)
    → IsContiguous event t
    → first_of event t.feed_heads ≡ first
    → last_of event t.feed_heads ≡ last
    → (numbers event t.feed_actions ≡ range first (last + 1 - first))
      × (numbers event (archived_rows t.feed_archives) ≡ range 1 (first - 1))
unfolding IsContiguous IsNumbered
numbers-IsContiguous event first last t (k, n, pf, pl, live, old) e f =
    let begins : suc k ≡ first = sym pf ∙ e in
    let count : n ≡ last + 1 - first = omega (arith, pf, pl, e, f) in
    let before : k ≡ first - 1 = omega (arith, begins) in
    (live ∙ ap (λ x. range x n) begins ∙ ap (range first) count, old ∙ ap (range 1) before)

execute_plan-IsCompacted :
    (event : String) (keep now : ℕ) (b : PacketFeedBounds) (s t : Tables)
    (r : PacketFeedRetentionResult)
    → IsContiguous event s
    → b.head ≡ last_of event s.feed_heads
    → b.first_available ≡ first_of event s.feed_heads
    → ltb b.head (b.first_available + keep) ≡ false
    → execute_plan event now (planned b keep) s ≡ done r t
    → IsCompacted event keep r.processed s t
unfolding execute_plan IsMoved archived_through IsCompacted
execute_plan-IsCompacted event keep now b s t r contiguous head first room h =
    let plan = planned b keep in
    let (archived, u, h1, h2) =
      resume-eq-done (archive_packet_feed_prefix event plan.through now s) _ h in
    let (moved_all, h3) = raise_if->>= _ _ u _ h2 in
    let (result, end) = done-injective h3 in
    let (_, (_, _, _, found, moved)) =
      archive_packet_feed_prefix-IsMoved event plan.through now s h1 in
    let (low, high, next, kept) = planned-bounds b keep room in
    let heads : t.feed_heads ≡ set_first event (plan.through + 1) s.feed_heads =
      ap (λ x. x.feed_heads) (sym end ∙ moved) in
    let size : r.processed ≡ plan.processed =
      ap (λ (x : PacketFeedRetentionResult). x.processed) (sym result) in
    let first_after : first_of event t.feed_heads ≡ first_of event s.feed_heads + r.processed =
      ap (first_of event) heads
      ∙ first_of-set_first event _ s.feed_heads found
      ∙ omega (arith, next, first, size) in
    let last_after : last_of event t.feed_heads ≡ last_of event s.feed_heads =
      ap (last_of event) heads ∙ last_of-set_first event event _ s.feed_heads in
    let after : IsContiguous event t =
      subst (IsContiguous event) end
        (archive_packet_feed_prefix-IsContiguous event event plan.through now s h1 contiguous) in
    let (live, old) = numbers-IsContiguous event _ _ t after first_after last_after in
    let rows =
      keep_rows-is_above event (last_of event s.feed_heads - keep) (first_of event s.feed_heads)
        plan.through s.feed_actions (omega (arith, next, kept, head)) in
    (
      omega (arith, size, low),
      omega (arith, size, high),
      first_after,
      last_after,
      omega (arith, first, size, kept, head),
      live,
      old,
      ap (λ x. keep_rows (is_above event (last_of event s.feed_heads - keep)) x.feed_actions)
            (sym end ∙ moved)
          ∙ rows,
    )

-- A compaction that has archived, in tables that transactions on the feed have made, has moved the first
-- available number of the event on by the number of archived actions, 1 to 100 of them. The live actions
-- of the event then carry every number from the new first to the last, which are `keep` or more, and the
-- archived ones every number from 1 to the one before the new first. The last `keep` rows of the event
-- are those from before, in their order.
pub compact_packet_issuance_feed-IsCompacted :
    (event : String) (keep : ℕ) (execute : Bool) (now : ℕ) (s t : Tables)
    (r : PacketFeedRetentionResult)
    → Journaled s
    → compact_packet_issuance_feed event keep execute now s ≡ done r t
    → r.executed ≡ true
    → IsCompacted event keep r.processed s t
unfolding compact_packet_issuance_feed within_tx compact_within
compact_packet_issuance_feed-IsCompacted event keep execute now s t r journaled h executed =
    let (_, h1) = raise_if->>= _ _ s _ h in
    let (b, e1, h2) =
      read->>= (packet_feed_bounds event s) s _ (λ a t p. (packet_feed_bounds-eq-done event s p).2)
        (commit-done s _ h1) in
    let (head, first, _) = packet_feed_bounds-eq-done event s e1 in
    let (room, h3) =
      third (ltb b.head (b.first_available + keep)) (not execute) _ _ r
        (execute_plan event now (planned b keep)) s t refl refl h2 executed in
    execute_plan-IsCompacted event keep now b s t r (Journaled-IsContiguous s journaled event) head
      first room h3
