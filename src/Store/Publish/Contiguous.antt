-- ===== src/Store/Publish/Contiguous.antt =====
-- The sequence numbers under the writers of the feed in
-- internal/infrastructure/sqlite/packet_issuance_store.go.
use chrono_desk.Prelude.{
  Bool, Bool-cases, List, Option, String, [], ap, arith, false, inl, inr, none, refl, some, subst,
  suc, sym, true, ℕ, ◌++◌, ◌+◌, ◌∙◌, ◌∷◌, ◌≡◌,
}
use chrono_desk.Store.Feed.Numbers.{IsContiguous, IsNumbered, last_of, numbers, range, range-append}
use chrono_desk.Store.Publish.Append.{
  append_action-eq-done, appended, first_of-set_last, first_of-with_head, last_of-set_last,
  last_of-set_last-other, last_of-with_head,
}
use chrono_desk.Store.Publish.{
  append_action, publish_packet_operation, publish_packet_server_change, publish_unless,
  relay_found, relay_packet_site_action, with_head, published_row, relayed_row, server_change_row,
}
use chrono_desk.Store.Feed.{find_head, head_of}
use chrono_desk.Store.Tables.{FeedHead, FeedRow, Tables}
use chrono_desk.Store.Db.{after_done, done, done->>=, raise_if->>=, raise_if-eq-done}
use chrono_desk.Packet.FeedChange.{FeedAction}
use chrono_desk.Packet.Operation.{Operation}
use chrono_desk.Packet.Model.{Change}
use chrono_desk.Prelude.Classes.{string_eq, nat_eq, ◌==◌, eq_iff, eq_refl}

numbers-other :
    (e k : String) (r : FeedRow) (rs : List FeedRow)
    → r.event_id ≡ k
    → (k == e) ≡ false
    → numbers e (rs ++ (r ∷ [])) ≡ numbers e rs
unfolding numbers
numbers-other e k r [] p q = rw (p, q) refl
numbers-other e k r (x ∷ xs) p q = ground (arith, numbers-other e k r xs p q)

numbers-own :
    (e : String) (r : FeedRow) (rs : List FeedRow)
    → r.event_id ≡ e
    → numbers e (rs ++ (r ∷ [])) ≡ numbers e rs ++ (r.sequence ∷ [])
unfolding numbers
numbers-own e r [] p = rw (p, eq_refl e) refl
numbers-own e r (x ∷ xs) p = ground (arith, numbers-own e r xs p)

range-snoc :
    (first n next_number : ℕ)
    → next_number ≡ first + n
    → range first n ++ (next_number ∷ []) ≡ range first (suc n)
unfolding range
range-snoc first n m p =
    let e : n + 1 ≡ suc n = omega arith in
    subst (λ x. range first n ++ (x ∷ []) ≡ range first (suc n)) (sym p)
      (subst (λ j. range first n ++ ((first + n) ∷ []) ≡ range first j) e (range-append first n 1))

last_of-found :
    (e : String) (hs : List FeedHead) {h : FeedHead}
    → find_head e (with_head e hs) ≡ some h
    → h.last_sequence ≡ last_of e hs
unfolding last_of head_of
last_of-found e hs {h} p =
    let q : head_of (find_head e (with_head e hs)) ≡ last_of e hs = last_of-with_head e e hs in
    subst (λ o. head_of o ≡ last_of e hs) p q

own_event :
    (e : String) (r : FeedRow) (s : Tables) {h : FeedHead}
    → find_head e (with_head e s.feed_heads) ≡ some h
    → IsContiguous e s
    → IsContiguous e (appended e r (h.last_sequence + 1) s)
unfolding IsContiguous IsNumbered appended
own_event e r s {h} found (k, n, pf, pl, live, old) =
    let last : h.last_sequence ≡ k + n = last_of-found e s.feed_heads found ∙ pl in
    let number_eq : h.last_sequence + 1 ≡ suc k + n = omega (arith, last) in
    (
      k,
      suc n,
      first_of-set_last e e _ _ ∙ first_of-with_head e e _ ∙ pf,
      last_of-set_last e _ _ ∙ omega (arith, last),
      numbers-own e _ s.feed_actions refl
          ∙ ap (λ xs. xs ++ ((h.last_sequence + 1) ∷ [])) live
          ∙ range-snoc (suc k) n _ number_eq,
      old,
    )

other_event :
    (e k : String) (r : FeedRow) (v : ℕ) (s : Tables)
    → (k == e) ≡ false
    → IsContiguous e s
    → IsContiguous e (appended k r v s)
unfolding IsContiguous IsNumbered appended
other_event e k r v s q (j, n, pf, pl, live, old) = (
  j,
  n,
  first_of-set_last e k v _ ∙ first_of-with_head e k _ ∙ pf,
  last_of-set_last-other e k v _ q ∙ last_of-with_head e k _ ∙ pl,
  numbers-other e k _ s.feed_actions refl q ∙ live,
  old,
)

pub append_action-IsContiguous :
    (e k : String) (r : FeedRow) (s : Tables) {t : Tables}
    → append_action k r s ≡ done tt t
    → IsContiguous e s
    → IsContiguous e t
append_action-IsContiguous e k r s h c =
    let (head, found, p) = append_action-eq-done k r s h in
    subst (IsContiguous e) (sym p) (elim (Bool-cases (k == e)) [
      | inl q ↦
          subst (λ x. IsContiguous x (appended k r (head.last_sequence + 1) s)) ((eq_iff k e).0 q)
            (own_event k r s found (subst (λ x. IsContiguous x s) (sym ((eq_iff k e).0 q)) c))
      | inr q ↦ other_event e k r _ s q c
    ])

relay_found-IsContiguous :
    (e k : String) (action : FeedAction) (at : ℕ) (found : Option FeedRow) (s : Tables) {t : Tables}
    → relay_found k action at found s ≡ done tt t
    → IsContiguous e s
    → IsContiguous e t
unfolding relay_found
relay_found-IsContiguous e k action at (some r) s h c =
    subst (IsContiguous e) (raise_if-eq-done _ _ _ h).1 c
relay_found-IsContiguous e k action at none s h c =
    append_action-IsContiguous e k (relayed_row action at) s h c

pub relay_packet_site_action-IsContiguous :
    (e k : String) (action : FeedAction) (at : ℕ) (s : Tables) {t : Tables}
    → relay_packet_site_action k action at s ≡ done tt t
    → IsContiguous e s
    → IsContiguous e t
unfolding relay_packet_site_action
relay_packet_site_action-IsContiguous e k action at s h c =
    relay_found-IsContiguous e k action at _ s (done->>= _ _ _ h) c

publish_unless-IsContiguous :
    (e : String) (skip : Bool) (operation : Operation) (outcome : String) (code : Option String)
    (changes : List Change) (at : ℕ) (s : Tables) {t : Tables}
    → publish_unless skip operation outcome code changes at s ≡ done tt t
    → IsContiguous e s
    → IsContiguous e t
unfolding publish_unless
publish_unless-IsContiguous e true operation outcome code changes at s h c =
    subst (IsContiguous e) (sym (after_done h)) c
publish_unless-IsContiguous e false operation outcome code changes at s h c =
    append_action-IsContiguous e _ (published_row operation outcome code changes at) s h c

pub publish_packet_operation-IsContiguous :
    (e : String) (operation : Operation) (outcome : String) (code : Option String)
    (changes : List Change) (at : ℕ) (s : Tables) {t : Tables}
    → publish_packet_operation operation outcome code changes at s ≡ done tt t
    → IsContiguous e s
    → IsContiguous e t
unfolding publish_packet_operation
publish_packet_operation-IsContiguous e operation outcome code changes at s h c =
    publish_unless-IsContiguous e _ operation outcome code changes at s (done->>= _ _ _ h) c

pub publish_packet_server_change-IsContiguous :
    (e k id source_code : String) (changes : List Change) (at : ℕ) (s : Tables) {t : Tables}
    → publish_packet_server_change k id source_code changes at s ≡ done tt t
    → IsContiguous e s
    → IsContiguous e t
unfolding publish_packet_server_change
publish_packet_server_change-IsContiguous e k id source_code changes at s {t} h c =
    let row = server_change_row id source_code changes at in
    append_action-IsContiguous e k row s (raise_if->>= _ _ s (λ _. append_action k row) h).1 c
