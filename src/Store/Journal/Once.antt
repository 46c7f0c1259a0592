-- ===== src/Store/Journal/Once.antt =====
-- The occurrences of an operation in the feed of the desk and its archive
-- (internal/infrastructure/sqlite/packet_issuance_store.go).
use chrono_desk.Prelude.{
  Bool, List, Option, String, [], any, ap, arith, false, ltb, none, refl, some, subst, sym, true, ℕ,
  ◌||◌, ◌∷◌, ◌≡◌, ◌≤◌, or_right, ◌∙◌, or_left, ◌++◌,
}
use chrono_desk.Store.Journal.{
  Call, Later, archive, publish_change, publish_operation, relay, run_call, same, state_of-commit,
  then_called,
}
use chrono_desk.Store.Publish.Append.{append_action-eq-done, appended}
use chrono_desk.Store.Publish.{
  append_action, is_published, publish_packet_operation, publish_packet_server_change,
  relay_packet_site_action, is_withheld, publish_unless, published_row, relay_found, relayed_row,
  server_change_row,
}
use chrono_desk.Store.Feed.Preserved.{
  count, count-append, recorded, recorded-archive_packet_feed_prefix,
}
use chrono_desk.Store.Feed.Numbers.{archived_rows}
use chrono_desk.Store.Tables.{ArchivedRow, FeedRow, Tables}
use chrono_desk.Store.Db.{
  done, after_done, done->>=, raise_if->>=, raise_if-eq-done, resume-eq-done, within_tx, resume,
}
use chrono_desk.Packet.FeedChange.{FeedAction}
use chrono_desk.Packet.Operation.{Operation}
use chrono_desk.Packet.Model.{Change}
use chrono_desk.Prelude.Classes.{string_eq, nat_eq, option_eq, ◌==◌, eq_refl}

recorded-appended :
    (p : FeedRow → Bool) (e : String) (r : FeedRow) (v : ℕ) (s : Tables)
    → recorded p s ≤ recorded p (appended e r v s)
unfolding recorded appended
recorded-appended p e r v s =
    omega (arith, count-append p s.feed_actions (record r { event_id = e; sequence = v } ∷ []))

recorded-append_action :
    (p : FeedRow → Bool) (e : String) (r : FeedRow) (s : Tables) {t : Tables}
    → append_action e r s ≡ done tt t
    → recorded p s ≤ recorded p t
recorded-append_action p e r s h =
    let (head, found, q) = append_action-eq-done e r s h in
    subst (λ x. recorded p s ≤ recorded p x) (sym q) (recorded-appended p e r _ s)

grows : (p : FeedRow → Bool) (s : Tables) {t : Tables} → t ≡ s → recorded p s ≤ recorded p t
grows p s e = subst (λ x. recorded p s ≤ recorded p x) (sym e) (omega arith)

recorded-relay_found :
    (p : FeedRow → Bool) (e : String) (action : FeedAction) (at : ℕ) (found : Option FeedRow)
    (s : Tables) {t : Tables}
    → relay_found e action at found s ≡ done tt t
    → recorded p s ≤ recorded p t
unfolding relay_found
recorded-relay_found p e action at (some r) s h = grows p s (sym (raise_if-eq-done _ _ _ h).1)
recorded-relay_found p e action at none s h = recorded-append_action p e (relayed_row action at) s h

recorded-publish_unless :
    (p : FeedRow → Bool) (skip : Bool) (operation : Operation) (outcome : String)
    (code : Option String) (changes : List Change) (at : ℕ) (s : Tables) {t : Tables}
    → publish_unless skip operation outcome code changes at s ≡ done tt t
    → recorded p s ≤ recorded p t
unfolding publish_unless
recorded-publish_unless p true operation outcome code changes at s h = grows p s (after_done h)
recorded-publish_unless p false operation outcome code changes at s h =
    recorded-append_action p _ (published_row operation outcome code changes at) s h

recorded-run_call :
    (p : FeedRow → Bool) (c : Call) (s : Tables) {t : Tables}
    → run_call c s ≡ done tt t
    → recorded p s ≤ recorded p t
unfolding run_call relay_packet_site_action publish_packet_operation publish_packet_server_change
recorded-run_call p (relay event action at) s h =
    recorded-relay_found p event action at _ s (done->>= _ _ _ h)
recorded-run_call p (publish_operation operation outcome code changes at) s h =
    recorded-publish_unless p _ operation outcome code changes at s (done->>= _ _ _ h)
recorded-run_call p (publish_change event id source_code changes at) s h =
    let row = server_change_row id source_code changes at in
    recorded-append_action p event row s (raise_if->>= _ _ s (λ _. append_action event row) h).1
recorded-run_call p (archive event through at) s {t} h =
    let (r, s1, e1, h1) = resume-eq-done _ _ h in
    let kept = recorded-archive_packet_feed_prefix p event through at s e1 in
    subst (λ x. recorded p s ≤ recorded p x) (sym (after_done h1)) (omega (arith, kept))

recorded-Later : (p : FeedRow → Bool) (s t : Tables) → Later s t → recorded p s ≤ recorded p t
unfolding within_tx
recorded-Later p s t (same u) = omega arith
recorded-Later p s t (then_called u before r c) =
    let ih = recorded-Later p s before r in
    state_of-commit (λ x. recorded p s ≤ recorded p x) before (run_call c before)
      (λ t h. omega (arith, ih, recorded-run_call p c before h)) ih

of_source : String → FeedRow → Bool
of_source id r = r.source_operation_id == some id

any-count : (p : FeedRow → Bool) (rs : List FeedRow) → any p rs ≡ ltb 0 (count p rs)
unfolding count
any-count p [] = refl
any-count p (r ∷ rs) = ground (arith, any-count p rs)

any-archived :
    (p : FeedRow → Bool) (xs : List ArchivedRow) → any (λ a. p a.row) xs ≡ any p (archived_rows xs)
unfolding archived_rows
any-archived p [] = refl
any-archived p (x ∷ xs) = ap (λ b. p x.row || b) (any-archived p xs)

is_published-recorded :
    (id : String) (s : Tables) → is_published id s ≡ ltb 0 (recorded (of_source id) s)
unfolding is_published recorded of_source
is_published-recorded id s =
    ap (λ b. any (of_source id) s.feed_actions || b) (any-archived (of_source id) s.feed_archives)
    ∙ ground (
      arith,
      any-count (of_source id) s.feed_actions,
      any-count (of_source id) (archived_rows s.feed_archives),
    )

published_more :
    (id : String) (s t : Tables)
    → recorded (of_source id) s ≤ recorded (of_source id) t
    → is_published id s ≡ true
    → is_published id t ≡ true
published_more id s t more h =
    is_published-recorded id t ∙ ground (arith, more, sym (is_published-recorded id s) ∙ h)

any-last :
    (p : FeedRow → Bool) (r : FeedRow) (rs : List FeedRow)
    → p r ≡ true
    → any p (rs ++ (r ∷ [])) ≡ true
any-last p r [] h = or_left _ _ h
any-last p r (x ∷ xs) h = or_right _ _ (any-last p r xs h)

publish_unless-is_published :
    (exists : Bool) (operation : Operation) (outcome : String) (code : Option String)
    (changes : List Change) (at : ℕ) (s : Tables) {t : Tables}
    → is_published operation.operation_id s ≡ exists
    → publish_unless exists operation outcome code changes at s ≡ done tt t
    → is_published operation.operation_id t ≡ true
unfolding publish_unless published_row is_published appended of_source
publish_unless-is_published true operation outcome code changes at s e h =
    ap (is_published operation.operation_id) (after_done h) ∙ e
publish_unless-is_published false operation outcome code changes at s e h =
    let row = published_row operation outcome code changes at in
    let (head, found, q) = append_action-eq-done _ row s h in
    ap (is_published operation.operation_id) q
    ∙ or_left _ _ (
        any-last (of_source operation.operation_id) _ s.feed_actions
          (eq_refl (some operation.operation_id)))

-- An operation that has been published, its outcome not withheld from the feed, is not published
-- again: after any further transactions, which may archive it, publishing it succeeds and changes
-- nothing, whatever its outcome is now.
pub publish_packet_operation-once :
    (operation : Operation) (outcome : String) (code : Option String) (changes : List Change)
    (at : ℕ) (s t later : Tables)
    → is_withheld operation.command.type outcome ≡ false
    → publish_packet_operation operation outcome code changes at s ≡ done tt t
    → Later t later
    → (outcome2 : String) (code2 : Option String) (changes2 : List Change) (at2 : ℕ)
    → publish_packet_operation operation outcome2 code2 changes2 at2 later ≡ done tt later
unfolding publish_packet_operation publish_unless resume
publish_packet_operation-once operation outcome code changes at s t later shown h l o2 c2 ch2 at2 =
    let id = operation.operation_id in
    let h1 =
      subst
        (λ b.
          publish_unless (b || is_published id s) operation outcome code changes at s ≡ done tt t)
        shown h in
    let first =
      publish_unless-is_published (is_published id s) operation outcome code changes at s refl h1 in
    let still = published_more id t later (recorded-Later (of_source id) t later l) first in
    let skipped : (is_withheld operation.command.type o2 || is_published id later) ≡ true =
      or_right _ _ still in
    subst (λ b. publish_unless b operation o2 c2 ch2 at2 later ≡ done tt later) (sym skipped) refl
