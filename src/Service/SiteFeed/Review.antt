-- ===== src/Service/SiteFeed/Review.antt =====
-- An action of the site feed that is kept for review: `applyPacketFeedChanges` of
-- internal/service/packet_issuance_feed.go.
use chrono_desk.Packet.Model.{Registration}
use chrono_desk.Store.Tables.{RegistrationRow, Tables}
use chrono_desk.Store.Registrations.{
  PacketRegistrationRecord, find_packet_registration, found_record, packet_timing_evidence,
  with_evidence,
}
use chrono_desk.Service.SiteFeed.Rows.{Merged, nil_pointer, merged}
use chrono_desk.Packet.FeedChange.{FeedAction, FeedChange}
use chrono_desk.Service.Receive.Persist.{External}
use chrono_desk.Service.SiteFeed.Plans.{
  Application, Plans, apply_packet_feed_changes, finish_plans, plan_change, plan_changes, ready,
  apply_packet_feed_plans,
}
use chrono_desk.Service.SiteFeed.Rows.{held}
use chrono_desk.Service.SiteFeed.Plans.{review}
use chrono_desk.Prelude.{
  [], Bool, List, Option, String, false, true, ◌∙◌, ◌∷◌, ◌≡◌, none, some, sym, ap,
}
use chrono_desk.Store.Db.{
  ◌>>=◌, Db, Failure, after_done, branch, done, pure, query, raise, resume-eq-done, or_raise,
  or_raise-eq-done, done-injective,
}
use chrono_desk.Prelude.Classes.{string_eq, ◌==◌}

-- A run that leaves the tables as they are.
unfoldable Reads : {A : Type 0} → Db Tables A → Type 0
Reads {A} body = (a : A) (s t : Tables) → body s ≡ done a t → t ≡ s

Reads-pure : {A : Type 0} (a : A) → Reads (pure a)
unfolding Reads
Reads-pure a b s t h = after_done h

Reads-query : {A : Type 0} (f : Tables → A) → Reads (query f)
unfolding Reads
Reads-query f b s t h = after_done h

Reads-bind :
    {A B : Type 0} (first : Db Tables A) (rest : A → Db Tables B)
    → Reads first
    → ((a : A) → Reads (rest a))
    → Reads (first >>= rest)
unfolding Reads
Reads-bind first rest f g b s t h =
    let (a, u, p, q) = resume-eq-done (first s) rest h in g a b u t q ∙ f a s u p

Reads-branch :
    {A : Type 0} (b : Bool) (x y : Db Tables A) → Reads x → Reads y → Reads (branch b x y)
unfolding branch
Reads-branch true x y f g = f
Reads-branch false x y f g = g

Reads-raise : (A : Type 0) (e : Failure) → Reads (raise {A = A} e)
unfolding Reads
Reads-raise A e b s t h = cc

Reads-or_raise : {A : Type 0} (o : Option A) (e : Failure) → Reads (or_raise o e)
unfolding Reads
Reads-or_raise o e a s t h = sym ((or_raise-eq-done o e s h).1)

Reads-with_evidence : (row : Registration) → Reads (with_evidence row)
unfolding with_evidence packet_timing_evidence
Reads-with_evidence row =
    Reads-bind _ _
      (Reads-bind _ _ (Reads-query _)
        λ found. Reads-bind _ _ (Reads-or_raise _ _) λ m. Reads-query _)
      λ evidence. Reads-pure _

Reads-found_record : (r : Option RegistrationRow) → Reads (found_record r)
unfolding found_record
Reads-found_record none = Reads-pure _
Reads-found_record (some r) =
    Reads-branch r.deleted _ _ (Reads-pure _)
      (Reads-bind _ _ (Reads-with_evidence r.value) λ value. Reads-pure _)

Reads-find_packet_registration : (event id : String) → Reads (find_packet_registration event id)
unfolding find_packet_registration
Reads-find_packet_registration event id =
    Reads-bind _ _ (Reads-query _) λ found. Reads-found_record found

Reads-plan_change :
    (id : String) (current : Option PacketRegistrationRecord) (heads : List String) (m : Merged)
    (rest : Db Tables Plans)
    → Reads rest
    → Reads (plan_change id current heads m rest)
unfolding plan_change
Reads-plan_change id current heads nil_pointer rest f = Reads-raise _ _
Reads-plan_change id current heads (held code) rest f = Reads-pure _
Reads-plan_change id current heads (merged after) rest f =
    Reads-branch _ _ _ (Reads-pure _) (Reads-bind _ _ f λ plans. Reads-pure _)

Reads-plan_changes :
    (kept : String → Bool) (event id : String) (cs : List FeedChange)
    → Reads (plan_changes kept event id cs)
unfolding plan_changes
Reads-plan_changes kept event id [] = Reads-pure _
Reads-plan_changes kept event id (c ∷ cs) =
    Reads-bind _ _ (Reads-find_packet_registration event c.registration_id)
      λ current. Reads-plan_change _ _ _ _ _ (Reads-plan_changes kept event id cs)

true_not_false : {P : Type 0} → true ≡ false → P
true_not_false h = cc

finish_plans-review :
    (env : External) (event : String) (plans : Plans) (s t : Tables) (applied : Application)
    → finish_plans env event plans s ≡ done applied t
    → (applied.application == "review") ≡ true
    → t ≡ s
unfolding finish_plans
finish_plans-review env event (review code) s t applied h k = after_done h
finish_plans-review env event (ready plans) s t applied h k =
    let (_, u, _, q) = resume-eq-done (apply_packet_feed_plans env event plans s) _ h in
    true_not_false
      (sym k ∙ ap (λ (x : Application). x.application == "review") (sym (done-injective q).0))

-- If the changes of an action of the site are held for review, because the row has been changed at the desk in
-- the meantime or has too many heads, then no row, member or other table has been changed, also not by the
-- changes of the action that could have been made.
pub apply_packet_feed_changes-review :
    (env : External) (event : String) (action : FeedAction) (s t : Tables) (applied : Application)
    → apply_packet_feed_changes env event action s ≡ done applied t
    → (applied.application == "review") ≡ true
    → t ≡ s
unfolding apply_packet_feed_changes Reads
apply_packet_feed_changes-review env event action s t applied h k =
    let (plans, u, p, q) =
      resume-eq-done (plan_changes (λ head. true) event action.action_id action.changes s) _ h in
    finish_plans-review env event plans u t applied q k
    ∙ Reads-plan_changes (λ head. true) event action.action_id action.changes plans s u p
