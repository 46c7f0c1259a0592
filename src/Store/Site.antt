-- ===== src/Store/Site.antt =====
-- What the desk keeps of the site: the last authenticated rows, the actions of the site feed, its cursor
-- and the rebases on a new snapshot, of internal/infrastructure/sqlite/packet_issuance_store.go.
use mathlib.Core.Option.{map as map_option}
use chrono_desk.Packet.Validate.{validate_registration}
use chrono_desk.Store.Tables.{
  PacketIssuanceScope, RebaseRow, SiteFeedRow, SiteRegistrationRow, Tables,
}
use chrono_desk.Packet.Model.{Registration, is_err}
use chrono_desk.Store.Db.{◌>>=◌, ◌>>◌, Db, constraint, execute, message, or_raise, query, raise_if}
use chrono_desk.Prelude.{
  [], Bool, List, Option, String, all, any, false, if◌then◌else◌, is_some, ltb, none, not, some,
  suc, true, ℕ, ◌&&◌, ◌++◌, ◌||◌, ◌∷◌,
}
use chrono_desk.Prelude.Classes.{string_eq, nat_eq, bool_eq, ◌==◌}

-- `PacketSiteRegistrationRecord`; `none` is a record that is not found.
pub record PacketSiteRegistrationRecord : Type 0 where
  pub value : Registration
  pub deleted : Bool

unfoldable pub find_site_row :
    String → String → List SiteRegistrationRow → Option SiteRegistrationRow
find_site_row event id [] = none
find_site_row event id (r ∷ rs) =
    if r.event_id == event && r.registration_id == id then some r else find_site_row event id rs

site_record : SiteRegistrationRow → PacketSiteRegistrationRecord
site_record r = record { value = r.value; deleted = r.deleted }

unfoldable pub find_packet_site_registration :
    String → String → Db Tables (Option PacketSiteRegistrationRecord)
unfolding find_site_row site_record
find_packet_site_registration event id =
    query λ s. map_option site_record (find_site_row event id s.site_registrations)

-- `NOT EXISTS` of a row of the desk without a row of the site.
unfoldable pub packet_site_baseline_complete : String → Db Tables Bool
unfolding find_site_row
packet_site_baseline_complete event = query λ s.
    all
      (λ r.
        not (r.event_id == event)
        || is_some (find_site_row event r.registration_id s.site_registrations))
      s.registrations

-- `INSERT ... ON CONFLICT(event_id,registration_id) DO UPDATE`
unfoldable pub put_site_row :
    SiteRegistrationRow → List SiteRegistrationRow → List SiteRegistrationRow
put_site_row row [] = row ∷ []
put_site_row row (r ∷ rs) =
    if r.event_id == row.event_id && r.registration_id == row.registration_id
    then row ∷ rs
    else r ∷ put_site_row row rs

-- The statement of both writers, with its reference to the event.
unfoldable pub write_site_row : String → Registration → Bool → Db Tables (Unit {0})
unfolding validate_registration put_site_row
write_site_row event row gone = do
  raise_if (is_err (validate_registration row) || not (row.event_id == event))
      (message "invalid packet site registration")
  known ← query (λ s. any (λ e. e.id == event) s.events)
  raise_if (not known) constraint
  execute λ s. record s {
    site_registrations =
        put_site_row
          (record { event_id = event; registration_id = row.id; value = row; deleted = gone })
          s.site_registrations;
  }

unfoldable pub put_packet_site_registration : String → Option Registration → Db Tables (Unit {0})
unfolding write_site_row
put_packet_site_registration event row = do
  value ← or_raise row (message "packet site deletion requires previous value")
  write_site_row event value false

unfoldable pub delete_packet_site_registration : String → Registration → Db Tables (Unit {0})
unfolding write_site_row
delete_packet_site_registration event previous = write_site_row event previous true

-- `UPDATE packet_issuance_scopes SET site_feed_cursor=? WHERE event_id=? AND site_feed_cursor=?`
unfoldable pub set_cursor :
    String → String → String → List PacketIssuanceScope → Option (List PacketIssuanceScope)
set_cursor event expected next [] = none
set_cursor event expected next (c ∷ cs) =
    if c.event_id == event
    then (if c.site_feed_cursor == expected
        then some (record c { site_feed_cursor = next } ∷ cs)
        else none)
    else map_option (λ rest. c ∷ rest) (set_cursor event expected next cs)

unfoldable pub advance_packet_site_cursor : String → String → String → Db Tables (Unit {0})
unfolding set_cursor
advance_packet_site_cursor event expected next = do
  changed ← query (λ s. set_cursor event expected next s.scopes)
  scopes ← or_raise changed (message "packet_feed_cursor_changed")
  execute λ s. record s { scopes = scopes }

unfoldable pub find_site_action : String → List SiteFeedRow → Option SiteFeedRow
find_site_action id [] = none
find_site_action id (r ∷ rs) = if r.action_id == id then some r else find_site_action id rs

unfoldable pub find_packet_site_feed_action : String → Db Tables (Option SiteFeedRow)
unfolding find_site_action
find_packet_site_feed_action id = query λ s. find_site_action id s.site_feed_actions

same_site_action : SiteFeedRow → SiteFeedRow → Bool
same_site_action r x =
    x.action_id == r.action_id || (x.event_id == r.event_id && x.site_sequence == r.site_sequence)

allowed_application : String → Bool
allowed_application a = a == "applied" || a == "observed" || a == "review"

-- With the keys, the check and the reference of packet_issuance_site_feed_actions.
unfoldable pub save_packet_site_feed_action : SiteFeedRow → Db Tables (Unit {0})
unfolding same_site_action allowed_application
save_packet_site_feed_action r = do
  taken ← query (λ s. any (same_site_action r) s.site_feed_actions)
  known ← query (λ s. any (λ e. e.id == r.event_id) s.events)
  raise_if (taken || not known || not (allowed_application r.application)) constraint
  execute λ s. record s { site_feed_actions = s.site_feed_actions ++ (r ∷ []) }

unfoldable pub count_rebases : String → List RebaseRow → ℕ
count_rebases event [] = 0
count_rebases event (r ∷ rs) =
    let rest = count_rebases event rs in if r.event_id == event then suc rest else rest

unfoldable pub save_packet_snapshot_rebase : RebaseRow → Db Tables (Unit {0})
unfolding count_rebases
save_packet_snapshot_rebase r = do
  count ← query (λ s. count_rebases r.event_id s.rebases)
  raise_if (not (ltb count 64)) (message "packet_snapshot_rebase_limit")
  known ← query (λ s. any (λ e. e.id == r.event_id) s.events)
  raise_if (not known) constraint
  execute λ s. record s { rebases = s.rebases ++ (r ∷ []) }

set_baseline :
    String
    → String
    → String
    → String
    → String
    → List PacketIssuanceScope
    → Option (List PacketIssuanceScope)
set_baseline event baseline next_baseline cursor next_cursor [] = none
set_baseline event baseline next_baseline cursor next_cursor (c ∷ cs) =
    if c.event_id == event
    then (if c.baseline_id == baseline && c.site_feed_cursor == cursor
        then some (record c { baseline_id = next_baseline; site_feed_cursor = next_cursor } ∷ cs)
        else none)
    else map_option (λ rest. c ∷ rest)
        (set_baseline event baseline next_baseline cursor next_cursor cs)

unfoldable pub complete_packet_snapshot_rebase :
    String → String → String → String → String → Db Tables (Unit {0})
unfolding set_baseline
complete_packet_snapshot_rebase event baseline next_baseline cursor next_cursor = do
  changed ← query (λ s. set_baseline event baseline next_baseline cursor next_cursor s.scopes)
  scopes ← or_raise changed (message "packet_feed_cursor_changed")
  execute λ s. record s { scopes = scopes }
