-- ===== src/Service/SiteFeed/Once.antt =====
-- A page of the site feed that comes again: `ApplyPacketFeedPage` of
-- internal/service/packet_issuance_feed.go.
use chrono_desk.Store.Site.{advance_packet_site_cursor, set_cursor}
use chrono_desk.Store.Tables.{PacketIssuanceScope, Tables}
use chrono_desk.Service.SiteFeed.Page.{
  PacketFeedApplication, apply_actions, apply_packet_feed_page, apply_page, page_differs,
}
use chrono_desk.Packet.FeedChange.{FeedPage}
use chrono_desk.Service.Receive.Persist.{External, find_scope}
use chrono_desk.Store.Db.{
  commit-done, done, failed, message, or_raise->>=, raise_if->>=, resume-eq-done, within_tx, Db,
  Failure, after_done, commit, raise_if, resume,
}
use chrono_desk.Prelude.{
  [], Bool, Bool-cases, List, Option, String, false, if_false, if_true, if◌then◌else◌, inl, inr,
  none, refl, some, subst, sym, true, ◌∙◌, ◌∷◌, ◌≡◌, ap, arith,
}
use chrono_desk.Prelude.Classes.{string_eq, ◌==◌}
use mathlib.Core.Option.{map as map_option}

map_option-eq-some :
    {A B : Type 0} (f : A → B) (o : Option A) {b : B}
    → map_option f o ≡ some b
    → (a : A) × (o ≡ some a) × (b ≡ f a)
map_option-eq-some f none h = cc
map_option-eq-some f (some a) h = (a, refl, cc)

some_if : {A : Type 0} (c : Bool) (x : A) {y : A} → (if c then some x else none) ≡ some y → y ≡ x
some_if true x h = cc
some_if false x h = cc

unfoldable HasCursor : String → String → List PacketIssuanceScope → Type 0
HasCursor event cursor scopes =
    (c : PacketIssuanceScope) × (find_scope event scopes ≡ some c) × (c.site_feed_cursor ≡ cursor)

set_cursor-HasCursor :
    (event expected next : String) (cs ds : List PacketIssuanceScope)
    → set_cursor event expected next cs ≡ some ds
    → HasCursor event next ds
unfolding set_cursor HasCursor find_scope
set_cursor-HasCursor event expected next [] ds h = cc
set_cursor-HasCursor event expected next (c ∷ cs) ds h = elim (Bool-cases (c.event_id == event)) [
  | inl own ↦
      let moved = record c { site_feed_cursor = next } in
      let q : ds ≡ moved ∷ cs = some_if _ _ (sym (if_true _ _ _ own) ∙ h) in
      subst (HasCursor event next) (sym q) (moved, if_true _ _ _ own, refl)
  | inr other ↦
      let (rest, found, q) = map_option-eq-some _ _ (sym (if_false _ _ _ other) ∙ h) in
      let (d, p, r) = set_cursor-HasCursor event expected next cs rest found in
      subst (HasCursor event next) (sym q) (d, if_false _ _ _ other ∙ p, r)
]

apply_page-HasCursor :
    (env : External) (event : String) (page : FeedPage) (s t : Tables)
    (applications : List PacketFeedApplication)
    → apply_page env event page s ≡ done applications t
    → HasCursor event page.cursor.next t.scopes
unfolding apply_page advance_packet_site_cursor resume
apply_page-HasCursor env event page s t applications h =
    let (opened, h1) = raise_if->>= _ _ s _ h in
    let (list, u, _, h2) = resume-eq-done (apply_actions env event page.actions s) _ h1 in
    let (_, v, h3, h4) =
      resume-eq-done (advance_packet_site_cursor event page.cursor.after page.cursor.next u) _ h2 in
    let (scopes, changed, h5) = or_raise->>= _ _ u _ h3 in
    subst (λ x. HasCursor event page.cursor.next x.scopes) (sym (after_done h4 ∙ after_done h5))
      (set_cursor-HasCursor event page.cursor.after page.cursor.next u.scopes scopes changed)

stops :
    {A : Type 0} (b : Bool) (e : Failure) (rest : Unit {0} → Db Tables A) (t : Tables)
    → b ≡ true
    → resume (raise_if b e t) rest ≡ failed e t
unfolding raise_if resume
stops true e rest t p = refl
stops false e rest t p = cc

page_differs-some :
    (page : FeedPage) (c : PacketIssuanceScope)
    → (c.site_feed_cursor == page.cursor.after) ≡ false
    → page_differs page (some c) ≡ true
unfolding page_differs
page_differs-some page c h = ground (arith, h)

page_differs-HasCursor :
    (event : String) (page : FeedPage) (scopes : List PacketIssuanceScope)
    → (page.cursor.next == page.cursor.after) ≡ false
    → HasCursor event page.cursor.next scopes
    → page_differs page (find_scope event scopes) ≡ true
unfolding HasCursor
page_differs-HasCursor event page scopes moves (c, found, at) =
    let moved : (c.site_feed_cursor == page.cursor.after) ≡ false =
      ap (λ x. x == page.cursor.after) at ∙ moves in
    ap (page_differs page) found ∙ page_differs-some page c moved

-- A page whose cursor moves on is applied once: after it has been applied, applying it again fails with
-- `packet_feed_cursor_changed` and leaves the tables as they are.
pub apply_packet_feed_page-once :
    (env : External) (event : String) (page : FeedPage) (s t : Tables)
    (applications : List PacketFeedApplication)
    → (page.cursor.next == page.cursor.after) ≡ false
    → apply_packet_feed_page env event page s ≡ done applications t
    → apply_packet_feed_page env event page t ≡ failed (message "packet_feed_cursor_changed") t
unfolding apply_packet_feed_page within_tx apply_page resume
apply_packet_feed_page-once env event page s t applications moves h =
    let cursor = apply_page-HasCursor env event page s t applications (commit-done s _ h) in
    ap (commit t) (
      stops _ (message "packet_feed_cursor_changed") _ t
        (page_differs-HasCursor event page t.scopes moves cursor))
