-- ===== src/Service/SiteFeed/Plans.antt =====
-- The changes of an action of the site feed on the rows of the desk: `applyPacketFeedChanges`,
-- `applyPacketResolutionChanges` and `applyPacketFeedPlans` of internal/service/packet_issuance_feed.go.
use chrono_desk.Service.Decision.{zero_registration}
use chrono_desk.Service.Categories.{resolve_category_id_for_member}
use chrono_desk.Service.Clubs.{apply_packet_clubs, packet_club_projection}
use chrono_desk.Store.Tables.{Tables}
use chrono_desk.Store.Registrations.{
  PacketRegistrationRecord, delete_packet_registration, find_packet_registration,
  insert_packet_registration, put_packet_registration,
}
use chrono_desk.Service.SiteFeed.Rows.{
  held, Merged, current_value, merge_packet_feed_change, nil_pointer, unique_packet_heads, merged,
}
use chrono_desk.Packet.FeedChange.{FeedAction, FeedChange}
use chrono_desk.Service.Receive.Persist.{External, packet_member}
use chrono_desk.Packet.Model.{Change, Registration}
use chrono_desk.Prelude.{
  [], Bool, List, Option, String, if◌then◌else◌, is_some, length, ltb, none, not, some, true, ◌++◌,
  ◌∷◌,
}
use chrono_desk.Store.Db.{◌>>=◌, ◌>>◌, Db, branch, message, pure, raise}
use chrono_desk.Prelude.Classes.{string_eq, ◌==◌}

-- `packetFeedPlan`
pub record PacketFeedPlan : Type 0 where
  pub registration_id : String
  pub before : Option PacketRegistrationRecord
  pub after : Option Registration
  pub heads : List String

-- The application of an action and its code.
pub record Application : Type 0 where
  pub application : String
  pub code : Option String

-- The plans of all changes, or the code with which the action is kept for review.
pub data Plans : Type 0 where
  ready : List PacketFeedPlan → Plans
  review : String → Plans

with_plan : PacketFeedPlan → Plans → Plans
with_plan p (ready ps) = ready (p ∷ ps)
with_plan p (review code) = review code

stored_heads : Option PacketRegistrationRecord → List String
stored_heads none = []
stored_heads (some r) = r.heads

-- The heads of the row, as far as they are kept, with the new one.
next_heads : (String → Bool) → Option PacketRegistrationRecord → String → List String
unfolding stored_heads unique_packet_heads
next_heads kept current id = unique_packet_heads (filter kept (stored_heads current) ++ (id ∷ []))
  where
    filter : (String → Bool) → List String → List String
    filter p [] = []
    filter p (h ∷ hs) = let rest = filter p hs in if p h then h ∷ rest else rest

unfoldable pub plan_change :
    String
    → Option PacketRegistrationRecord
    → List String
    → Merged
    → Db Tables Plans
    → Db Tables Plans
unfolding with_plan
plan_change id current heads nil_pointer rest = raise (message "nil pointer dereference")
plan_change id current heads (held code) rest = pure (review code)
plan_change id current heads (merged after) rest =
    branch (ltb 64 (length heads)) (pure (review "feed_head_limit")) (do
      plans ← rest
      pure (
          with_plan
            (record { registration_id = id; before = current; after = after; heads = heads })
            plans))

-- The loop of both functions, which keep all heads or all but the input's.
unfoldable pub plan_changes : (String → Bool) → String → String → List FeedChange → Db Tables Plans
unfolding find_packet_registration merge_packet_feed_change next_heads plan_change
plan_changes kept event id [] = pure (ready [])
plan_changes kept event id (c ∷ cs) = do
  current ← find_packet_registration event c.registration_id
  plan_change c.registration_id current (next_heads kept current id)
      (merge_packet_feed_change current c) (plan_changes kept event id cs)

before_value : Option PacketRegistrationRecord → Registration
before_value none = zero_registration
before_value (some r) = r.value

plan_images : List PacketFeedPlan → List Change
unfolding before_value
plan_images [] = []
plan_images (p ∷ ps) =
    let rest = plan_images ps in
    elim p.after [
      | none ↦ rest
      | some after ↦
          record {
            registration_id = p.registration_id;
            before = before_value p.before;
            after = after;
          }
          ∷ rest
    ]

write_planned :
    Option PacketRegistrationRecord
    → Registration
    → List String
    → Option String
    → Db Tables (Unit {0})
unfolding insert_packet_registration put_packet_registration
write_planned none row heads category = insert_packet_registration row heads category
write_planned (some before) row heads category = put_packet_registration row heads category

delete_planned :
    String → String → Option PacketRegistrationRecord → List String → Db Tables (Unit {0})
unfolding delete_packet_registration current_value
delete_planned event id before heads =
    branch (not (is_some (current_value before))) (pure tt)
      (delete_packet_registration event id heads)

write_plan : External → String → PacketFeedPlan → Option Registration → Db Tables (Unit {0})
unfolding write_planned delete_planned resolve_category_id_for_member packet_member
write_plan env event p none = delete_planned event p.registration_id p.before p.heads
write_plan env event p (some row) = do
  category ← resolve_category_id_for_member env.age_on (packet_member row)
  write_planned p.before row p.heads category

write_plans : External → String → List PacketFeedPlan → Db Tables (Unit {0})
unfolding write_plan
write_plans env event [] = pure tt
write_plans env event (p ∷ ps) = do write_plan env event p p.after; write_plans env event ps

unfoldable pub apply_packet_feed_plans :
    External → String → List PacketFeedPlan → Db Tables (Unit {0})
unfolding packet_club_projection apply_packet_clubs plan_images write_plans
apply_packet_feed_plans env event plans = do
  clubs ← packet_club_projection event (plan_images plans)
  write_plans env event plans
  apply_packet_clubs event clubs

unfoldable pub finish_plans : External → String → Plans → Db Tables Application
unfolding apply_packet_feed_plans
finish_plans env event (review code) = pure (record { application = "review"; code = some code })
finish_plans env event (ready plans) = do
  apply_packet_feed_plans env event plans
  pure (record { application = "applied"; code = none })

unfoldable pub apply_packet_feed_changes : External → String → FeedAction → Db Tables Application
unfolding plan_changes finish_plans
apply_packet_feed_changes env event action = do
  plans ← plan_changes (λ head. true) event action.action_id action.changes
  finish_plans env event plans

unfoldable pub apply_packet_resolution_changes :
    External → String → FeedAction → String → Db Tables Application
unfolding plan_changes finish_plans
apply_packet_resolution_changes env event action input = do
  plans ← plan_changes (λ head. not (head == input)) event action.action_id action.changes
  finish_plans env event plans
