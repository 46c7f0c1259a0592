-- ===== src/Packet/ParseFeed/Contiguous.antt =====
-- Proofs on what `ParseFeedPage` (internal/packetissuance/validation.go) accepts.
use chrono_desk.Packet.Canonical.{write_canonical}
use chrono_desk.Text.Chars.{canonical_cursor_pattern}
use chrono_desk.Packet.FeedChange.{
  FeedAction, FeedPage, feed_cursor, feed_event_id, parse_feed_changes, nonnegative,
}
use chrono_desk.Packet.ParseFeed.{
  parse_kind, parse_feed_action, parse_code, parse_feed_actions, parse_feed_page,
  parse_page_actions,
}
use chrono_desk.Prelude.{
  leb→le, List, String, [], some, ℕ, ◌+◌, ◌∷◌, ◌≡◌, Bool-cases, Option, arith, inl, inr, none,
  subst, Bool, any, ap, false, length, ltb, not, true, ◌||◌, ◌≤◌,
}
use chrono_desk.Prelude.Classes.{string_eq, nat_eq, bool_eq, eq_iff, ◌==◌}
use chrono_desk.Packet.Model.{
  ok, >>=-eq-ok, >>-eq-ok, invalid, or_fail, fail_if-eq-ok, invalid_feed_response, ok-injective,
  or_fail-eq-ok,
}
use chrono_desk.Text.Decimal.{pos, negsuc, parse_int, ℤ}
use chrono_desk.Packet.ParseOperation.{recode, recode-eq-ok}
use chrono_desk.Packet.Json.{
  string_value, null, string, Value, as_array, as_object, get, items_list, as_bool,
}

-- The actions carry the sequence numbers that follow `last`.
abbrev pub Numbered : ℕ → List FeedAction → Type 0
Numbered last [] = Unit
Numbered last (a ∷ rest) =
    (feed_cursor (string (a.sequence)) ≡ some (a.sequence, last + 1)) × Numbered (last + 1) rest

nonnegative-text :
    (t : String) (o : Option ℤ) {s : String} {n : ℕ} → nonnegative t o ≡ some (s, n) → t ≡ s
unfolding nonnegative
nonnegative-text t none h = cc
nonnegative-text t (some (pos m)) h = ground arith
nonnegative-text t (some (negsuc m)) h = cc

feed_cursor-text : (t : String) {s : String} {n : ℕ} → feed_cursor (string t) ≡ some (s, n) → t ≡ s
unfolding feed_cursor
feed_cursor-text t h = elim (Bool-cases (canonical_cursor_pattern t)) [
  | inl e ↦ nonnegative-text t (parse_int 64 t) (rw e at h)
  | inr e ↦ let bad : none ≡ some _ = rw e at h in cc
]

feed_cursor-string :
    (v : Value) {s : String} {n : ℕ}
    → feed_cursor v ≡ some (s, n)
    → feed_cursor (string s) ≡ some (s, n)
unfolding feed_cursor
feed_cursor-string (string t) {s} {n} h =
    subst (λ x. feed_cursor (string x) ≡ some (s, n)) (feed_cursor-text t h) h
feed_cursor-string null h = cc
feed_cursor-string _ h = cc

second_check : (a b c d : Bool) → (a || not b || c || d) ≡ false → b ≡ true
second_check a b c d h = ground arith

cursor_path :
    (cursor : String × ℕ) (s : String) (n : ℕ)
    → cursor.0 ≡ s
    → cursor.1 ≡ n
    → ◌≡◌ {A = String × ℕ} cursor (s, n)
cursor_path cursor s n p q = ground arith

parse_feed_action-sequence :
    (scope_id event_id : String) (expected : ℕ) (value : Value) {action : FeedAction}
    → parse_feed_action scope_id event_id expected value ≡ ok action
    → feed_cursor (string (action.sequence)) ≡ some (action.sequence, expected)
unfolding parse_feed_action
parse_feed_action-sequence scope_id event_id expected value {action} h =
    let (obj, e0, h0) = >>=-eq-ok (or_fail (as_object value) invalid) _ h in
    let (e1, h1) = >>-eq-ok _ _ h0 in
    let (cursor, e2, h2) = >>=-eq-ok (or_fail (feed_cursor (get "sequence" obj)) invalid) _ h1 in
    let (e3, h3) = >>-eq-ok _ _ h2 in
    let (code, e4, h4) = >>=-eq-ok (parse_code (get "code" obj)) _ h3 in
    let (e5, h5) = >>-eq-ok _ _ h4 in
    let (raw, e6, h6) = >>=-eq-ok (or_fail (as_array (get "changes" obj)) invalid) _ h5 in
    let (e7, h7) = >>-eq-ok _ _ h6 in
    let (changes, e8, h8) = >>=-eq-ok (parse_feed_changes event_id [] (items_list raw)) _ h7 in
    let (operation, e9, h9) =
      >>=-eq-ok
        (parse_kind (string_value (get "kind" obj)) (string_value (get "actionId" obj)) scope_id
          (string_value (get "outcome" obj)) changes (get "operation" obj))
        _ h8 in
    let (canonical, e10, h10) = >>=-eq-ok (or_fail (write_canonical value) invalid) _ h9 in
    subst (λ (x : String × ℕ). feed_cursor (string (x.0)) ≡ some x)
      (cursor_path cursor action.sequence expected
        (ap (λ (a : FeedAction). a.sequence) (ok-injective h10))
        ((eq_iff cursor.1 expected).0 (second_check _ _ _ _ (fail_if-eq-ok _ _ e3))))
      (feed_cursor-string (get "sequence" obj) (or_fail-eq-ok _ _ e2))

-- Ids that are all different, and none of them among `seen`.
abbrev pub Fresh : List String → List FeedAction → Type 0
Fresh seen [] = Unit
Fresh seen (a ∷ rest) =
    (any (λ id. id == a.action_id) seen ≡ false) × Fresh (a.action_id ∷ seen) rest

parse_feed_actions-Numbered :
    (scope_id event_id : String) (last : ℕ) (seen : List String) (raw : List Value)
    {actions : List FeedAction}
    → parse_feed_actions scope_id event_id last seen raw ≡ ok actions
    → Numbered last actions × Fresh seen actions
unfolding parse_feed_actions
parse_feed_actions-Numbered scope_id event_id last seen [] {actions} h =
    subst (λ x. Numbered last x × Fresh seen x) (ok-injective h) (tt, tt)
parse_feed_actions-Numbered scope_id event_id last seen (v ∷ rest) {actions} h =
    let (action, e0, h0) =
      >>=-eq-ok (recode invalid_feed_response (parse_feed_action scope_id event_id (last + 1) v)) _
        h in
    let (e1, h1) = >>-eq-ok _ _ h0 in
    let (others, e2, h2) =
      >>=-eq-ok (parse_feed_actions scope_id event_id (last + 1) (action.action_id ∷ seen) rest) _
        h1 in
    let (numbered, fresh) =
      parse_feed_actions-Numbered scope_id event_id (last + 1) (action.action_id ∷ seen) rest e2 in
    let sequence =
      parse_feed_action-sequence scope_id event_id (last + 1) v (recode-eq-ok _ _ e0) in
    subst (λ x. Numbered last x × Fresh seen x) {x = action ∷ others} (ok-injective h2)
      ((sequence, numbered), (fail_if-eq-ok _ _ e1, fresh))

-- What an accepted page says: the cursor's numbers, and the actions that fill the gap between them.
pub record Continues (page : FeedPage) (expected_after : String) : Type 0 where
  pub first : ℕ
  pub last : ℕ
  pub top : ℕ
  pub after_number : feed_cursor (string (page.cursor.after)) ≡ some (page.cursor.after, first)
  pub next_number : feed_cursor (string (page.cursor.next)) ≡ some (page.cursor.next, last)
  pub head_number : feed_cursor (string (page.cursor.head)) ≡ some (page.cursor.head, top)
  pub expected : page.cursor.after ≡ expected_after
  pub no_gap : first + length (page.actions) ≡ last
  pub in_range : last ≤ top
  pub more : page.cursor.has_more ≡ ltb last top
  pub numbered : Numbered first (page.actions)
  pub distinct : Fresh [] (page.actions)

four_checks :
    (a b c d : Bool)
    → (not a || not b || not c || not d) ≡ false
    → (a ≡ true) × (b ≡ true) × (c ≡ true) × (d ≡ true)
four_checks a b c d h = ground arith

first_check : (a b : Bool) → (not a || b) ≡ false → a ≡ true
first_check a b h = ground arith

-- An accepted feed page starts at the expected cursor; its actions carry the sequence numbers from the
-- one after `after` to `next` without a gap, under different ids; and it announces more exactly if
-- `next` is below `head`, which it never passes.
pub parse_feed_page-Continues :
    (decoded : Option Value) (scope_id expected_after : String) {page : FeedPage}
    → parse_feed_page decoded scope_id expected_after ≡ ok page
    → Continues page expected_after
unfolding parse_feed_page parse_page_actions
parse_feed_page-Continues decoded scope_id expected_after {page} h =
    let (root, e0, h0) = >>=-eq-ok (or_fail decoded invalid_feed_response) _ h in
    let (obj, e1, h1) = >>=-eq-ok (or_fail (as_object root) invalid_feed_response) _ h0 in
    let (e2, h2) = >>-eq-ok _ _ h1 in
    let (cursor, e3, h3) =
      >>=-eq-ok (or_fail (as_object (get "cursor" obj)) invalid_feed_response) _ h2 in
    let (e4, h4) = >>-eq-ok _ _ h3 in
    let (after, e5, h5) =
      >>=-eq-ok (or_fail (feed_cursor (get "after" cursor)) invalid_feed_response) _ h4 in
    let (next, e6, h6) =
      >>=-eq-ok (or_fail (feed_cursor (get "next" cursor)) invalid_feed_response) _ h5 in
    let (head, e7, h7) =
      >>=-eq-ok (or_fail (feed_cursor (get "head" cursor)) invalid_feed_response) _ h6 in
    let (more, e8, h8) =
      >>=-eq-ok (or_fail (as_bool (get "hasMore" cursor)) invalid_feed_response) _ h7 in
    let (e9, h9) = >>-eq-ok _ _ h8 in
    let (raw, e10, h10) =
      >>=-eq-ok (or_fail (as_array (get "actions" obj)) invalid_feed_response) _ h9 in
    let (e11, h11) = >>-eq-ok _ _ h10 in
    let (actions, e12, h12) =
      >>=-eq-ok (parse_feed_actions scope_id (feed_event_id scope_id) after.1 [] (items_list raw)) _
        h11 in
    let (e13, h13) = >>-eq-ok _ _ h12 in
    let (start, ordered, bounded, announced) = four_checks _ _ _ _ (fail_if-eq-ok _ _ e9) in
    let (numbers, fresh) =
      parse_feed_actions-Numbered scope_id (feed_event_id scope_id) after.1 [] (items_list raw)
        e12 in
    subst (λ p. Continues p expected_after) (ok-injective h13)
      (record {
        first = after.1;
        last = next.1;
        top = head.1;
        after_number = feed_cursor-string (get "after" cursor) (or_fail-eq-ok _ _ e5);
        next_number = feed_cursor-string (get "next" cursor) (or_fail-eq-ok _ _ e6);
        head_number = feed_cursor-string (get "head" cursor) (or_fail-eq-ok _ _ e7);
        expected = (eq_iff after.0 expected_after).0 start;
        no_gap =
            (eq_iff (after.1 + length actions) next.1).0 (first_check _ _ (fail_if-eq-ok _ _ e13));
        in_range = leb→le next.1 head.1 bounded;
        more = (eq_iff more (ltb next.1 head.1)).0 announced;
        numbered = numbers;
        distinct = fresh;
      })
