-- ===== src/Service/SyncRetry/Bounded.antt =====
-- The end of the loop of `RoundTrip` in internal/service/sync_retry.go.
use chrono_desk.Service.SyncRetry.{
  Answer, Body, Transport, after_reopen, after_wait, no_body, single_use, after_answer, after_body,
  is_final, round_trip, round_trip_from, sync_retry_delay,
}
use chrono_desk.Prelude.{
  Option, String, refl, some, ℕ, ◌+◌, ◌≡◌, ◌≤◌, Bool-cases, arith, if_false, if_true, inl, inr,
  none, subst, suc, sym, zero, ◌<◌,
}
use chrono_desk.Prelude.Classes.{nat_eq}
use chrono_desk.Service.SyncRetry.{failure, response, reopened}

-- There is an answer, in a world that counts at most `n` requests.
unfoldable pub EndsWithin : {W : Type 0} → (W → ℕ) → ℕ → Option (Answer × W) → Type 0
EndsWithin {W} count n result =
    (answer : Answer) × (w : W) × (result ≡ some (answer, w)) × (count w ≤ n)

module _ {W : Type 0} (t : Transport W) (count : W → ℕ)
    (one : (w : W) → count (t.base w).1 ≤ count w + 1)
    (waits : (delay : ℕ) (w : W) → count (t.wait delay w).1 ≤ count w)
    (reopens : (w : W) → count (t.reopen w).1 ≤ count w) where
  weaken :
      (m n : ℕ) (result : Option (Answer × W))
      → m ≤ n
      → EndsWithin count m result
      → EndsWithin count n result
  unfolding EndsWithin
  weaken m n result below (answer, w, p, q) = (answer, w, p, omega (arith, below, q))

  EndsWithin-after_reopen :
      (n : ℕ) (x : Option String × W) (next : W → Option (Answer × W))
      → count x.1 ≤ n
      → EndsWithin count n (next x.1)
      → EndsWithin count n (after_reopen t x next)
  unfolding EndsWithin after_reopen
  EndsWithin-after_reopen n (none, w) next c f = f
  EndsWithin-after_reopen n (some e, w) next c f = (failure e, w, refl, c)

  EndsWithin-after_body :
      (body : Body) (n : ℕ) (w : W) (next : W → Option (Answer × W))
      → count w ≤ n
      → ((v : W) → count v ≤ count w → EndsWithin count n (next v))
      → EndsWithin count n (after_body t body w next)
  unfolding after_body
  EndsWithin-after_body reopened n w next c f =
      let kept = reopens w in
      EndsWithin-after_reopen n (t.reopen w) next (omega (arith, kept, c)) (f (t.reopen w).1 kept)
  EndsWithin-after_body no_body n w next c f = f w (omega arith)
  EndsWithin-after_body single_use n w next c f = f w (omega arith)

  EndsWithin-after_wait :
      (body : Body) (n : ℕ) (x : Option String × W) (next : W → Option (Answer × W))
      → count x.1 ≤ n
      → ((v : W) → count v ≤ count x.1 → EndsWithin count n (next v))
      → EndsWithin count n (after_wait t body x next)
  unfolding EndsWithin after_wait
  EndsWithin-after_wait body n (some e, w) next c f = (failure e, w, refl, c)
  EndsWithin-after_wait body n (none, w) next c f = EndsWithin-after_body body n w next c f

  EndsWithin-after_answer :
      (body : Body) (attempt n : ℕ) (x : Answer × W) (next : W → Option (Answer × W))
      → count x.1 ≤ n
      → ((v : W) → count v ≤ count x.1 → attempt < 3 → EndsWithin count n (next v))
      → EndsWithin count n (after_answer t body attempt x next)
  unfolding EndsWithin after_answer is_final
  EndsWithin-after_answer body attempt n (failure e, w) next c f = (failure e, w, refl, c)
  EndsWithin-after_answer body attempt n (response r, w) next c f =
      let kept = waits (sync_retry_delay t.parse_time r.retry_after (t.now w)) w in
      elim (Bool-cases (is_final body attempt (response r))) [
        | inl final ↦ (response r, w, if_true _ _ _ final, c)
        | inr again ↦ subst (EndsWithin count n) (sym (if_false _ _ _ again)) (
            EndsWithin-after_wait body n _ next (omega (arith, kept, c))
              λ v below. f v (omega (arith, below, kept)) (ground (arith, again)))
      ]

  EndsWithin-round_trip_from :
      (body : Body) (fuel attempt : ℕ) (w : W)
      → attempt + fuel ≡ 3
      → EndsWithin count (count w + suc fuel) (round_trip_from t body (suc fuel) attempt w)
  unfolding round_trip_from
  EndsWithin-round_trip_from body zero attempt w h =
      let asked = one w in
      EndsWithin-after_answer body attempt _ (t.base w) _ asked
        λ v below early. ground (arith, h, early)
  EndsWithin-round_trip_from body (suc fuel) attempt w h =
      let asked = one w in
      EndsWithin-after_answer body attempt _ (t.base w) _ (omega (arith, asked)) λ v below early.
        weaken _ _ _ (omega (arith, asked, below))
          (EndsWithin-round_trip_from body fuel (attempt + 1) v (omega (arith, h)))

  -- Let the transport make one request per call, and let waiting and reopening the body make none. Then
  -- `RoundTrip` ends, whatever the answers are, after at most four requests.
  pub round_trip-EndsWithin :
      (body : Body) (w : W) → EndsWithin count (count w + 4) (round_trip t body w)
  unfolding round_trip
  round_trip-EndsWithin body w = EndsWithin-round_trip_from body 3 0 w refl
