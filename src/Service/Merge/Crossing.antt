-- ===== src/Service/Merge/Crossing.antt =====
-- Proofs on the photos of one cluster of `MergeFinishes` (internal/service/merge.go).
use chrono_desk.Service.Merge.Place.{add_photo-All}
use chrono_desk.Prelude.{
  All, Bool, List, String, [], any, ap, arith, false, ltb, refl, ℕ, ◌++◌, ◌+◌, ◌-◌, ◌||◌, ◌∷◌, ◌≡◌,
  ◌≤◌, ◌⊎◌, All-map, Bool-cases, if◌then◌else◌, inl, inr, not, subst, sym, ◌&&◌, ◌∙◌, leb, leb→le,
  or_parts,
}
use chrono_desk.Prelude.Classes.{Distinct, string_eq, nat_eq, eq_iff, ◌==◌, equal_sym}
use chrono_desk.Service.Merge.{
  Photo, Cluster, items, blocked, join, device_key, add_photo, cluster_photos, clusters_of,
  insert_asc, merge_window_ms, new_cluster, sort_asc,
}

abbrev pub devices : List Photo → List String
devices [] = []
devices (p ∷ ps) = device_key p ∷ devices ps

-- A photo that a cluster with this anchor and this number may hold.
abbrev pub Fits : ℕ → Cluster → Photo → Type 0
Fits window c p =
    (c.anchor ≤ p.time_ms) × (p.time_ms ≤ c.anchor + window) × ((p.bib ≡ "") ⊎ (p.bib ≡ c.bib))

pub record IsCrossing (window : ℕ) (c : Cluster) : Type 0 where
  pub all_fit : All (Fits window c) (items c)
  pub one_each : Distinct (devices (items c))
  pub known : (d : String) → any (λ x. x == d) c.cams ≡ any (λ x. x == d) (devices (items c))

any-append {ℓ} :
    {A : Type ℓ} (q : A → Bool) (xs ys : List A) → any q (xs ++ ys) ≡ (any q xs || any q ys)
any-append q [] ys = refl
any-append q (x ∷ xs) ys = ground (arith, any-append q xs ys)

devices-append : (xs ys : List Photo) → devices (xs ++ ys) ≡ devices xs ++ devices ys
devices-append [] ys = refl
devices-append (x ∷ xs) ys = ap (λ ds. device_key x ∷ ds) (devices-append xs ys)

Distinct-append :
    (ds : List String) (d : String)
    → Distinct ds
    → any (λ x. x == d) ds ≡ false
    → Distinct (ds ++ (d ∷ []))
Distinct-append [] d hs h = (refl, tt)
Distinct-append (x ∷ ds) d hs h =
    ground (arith, any-append (λ y. y == x) ds (d ∷ []), equal_sym x d, Distinct-append ds d hs.1)

All-append {ℓ κ} :
    {A : Type ℓ} (P : A → Type κ) (xs ys : List A) → All P xs → All P ys → All P (xs ++ ys)
All-append P [] ys h k = k
All-append P (x ∷ xs) ys h k = (h.0, All-append P xs ys h.1 k)

-- The number of the cluster after a photo joins.
abbrev pub joined_bib : String → String → String
joined_bib c p = if c == "" then p else c

bib_kept : (q c p : String) → (q ≡ "") ⊎ (q ≡ c) → (q ≡ "") ⊎ (q ≡ joined_bib c p)
bib_kept q c p h = elim (Bool-cases (c == "")) [
  | inl e ↦ elim h [ inl a ↦ inl a | inr a ↦ inl (a ∙ (eq_iff c "").0 e) ]
  | inr e ↦ elim h [ inl a ↦ inl a | inr a ↦ inr (rw e a) ]
]

bib_joined :
    (c p : String)
    → (not (c == "") && not (p == "") && not (c == p)) ≡ false
    → (p ≡ "") ⊎ (p ≡ joined_bib c p)
bib_joined c p h = elim (Bool-cases (c == "")) [
  | inl e ↦ inr (rw e refl)
  | inr e ↦ elim (Bool-cases (p == "")) [
    | inl a ↦ inl ((eq_iff p "").0 a)
    | inr a ↦ inr (rw e (sym ((eq_iff c p).0 (ground arith))))
  ]
]

Fits-join : (window : ℕ) (c : Cluster) (p q : Photo) → Fits window c q → Fits window (join c p) q
unfolding join
Fits-join window c p q h = let (a, b, n) = h in (a, b, bib_kept q.bib c.bib p.bib n)

join-IsCrossing :
    (window : ℕ) (p : Photo) (c : Cluster)
    → ltb window (p.time_ms - c.anchor) ≡ false
    → blocked c p ≡ false
    → c.anchor ≤ p.time_ms
    → IsCrossing window c
    → IsCrossing window (join c p)
unfolding join blocked
join-IsCrossing window p c near free late h =
    let (other_camera, same_number) = or_parts _ _ free in
    record {
      all_fit =
          All-append (Fits window (join c p)) (items c) (p ∷ [])
            (All-map (Fits window c) (Fits window (join c p)) (Fits-join window c p) (items c)
              h.all_fit)
            ((late, ground arith, bib_joined c.bib p.bib same_number), tt);
      one_each = subst Distinct (sym (devices-append (items c) (p ∷ []))) (
          Distinct-append (devices (items c)) (device_key p) h.one_each
            (sym (h.known (device_key p)) ∙ other_camera));
      known = λ d. ground (
        arith,
        h.known d,
        any-append (λ x. x == d) (devices (items c)) (device_key p ∷ []),
        ap (any (λ x. x == d)) (devices-append (items c) (p ∷ [])),
      );
    }

new_cluster-IsCrossing : (window : ℕ) (p : Photo) → IsCrossing window (new_cluster p)
unfolding new_cluster
new_cluster-IsCrossing window p = record {
  all_fit = ((omega arith, omega arith, inr refl), tt);
  one_each = (refl, tt);
  known = λ d. refl;
}

-- In ascending order of time.
abbrev pub Ascending : List Photo → Type 0
Ascending [] = Unit
Ascending (p ∷ ps) = All (λ q. p.time_ms ≤ q.time_ms) ps × Ascending ps

All-insert_asc :
    (P : Photo → Type 0) (p : Photo) (ps : List Photo) → P p → All P ps → All P (insert_asc p ps)
unfolding insert_asc
All-insert_asc P p [] h hs = (h, tt)
All-insert_asc P p (x ∷ xs) h hs = elim (Bool-cases (leb p.time_ms x.time_ms)) [
  | inl e ↦ rw (e, insert_asc, All) (h, hs)
  | inr e ↦ rw (e, insert_asc, All) (hs.0, All-insert_asc P p xs h hs.1)
]

insert_asc-Ascending : (p : Photo) (ps : List Photo) → Ascending ps → Ascending (insert_asc p ps)
unfolding insert_asc
insert_asc-Ascending p [] h = (tt, tt)
insert_asc-Ascending p (x ∷ xs) h = elim (Bool-cases (leb p.time_ms x.time_ms)) [
  | inl e ↦
      let le = leb→le p.time_ms x.time_ms e in
      rw (e, insert_asc, Ascending)
        (
          (
            le,
            All-map (λ q. x.time_ms ≤ q.time_ms) (λ q. p.time_ms ≤ q.time_ms) (λ q k. omega arith)
                xs h.0,
          ),
          h,
        )
  | inr e ↦
      rw (e, insert_asc, Ascending)
        (
          All-insert_asc (λ q. x.time_ms ≤ q.time_ms) p xs (ground arith) h.0,
          insert_asc-Ascending p xs h.1,
        )
]

sort_asc-Ascending : (ps : List Photo) → Ascending (sort_asc ps)
unfolding sort_asc
sort_asc-Ascending [] = tt
sort_asc-Ascending (p ∷ ps) = insert_asc-Ascending p (sort_asc ps) (sort_asc-Ascending ps)

-- A crossing whose anchor is not later than the photos to come.
abbrev pub Before : ℕ → List Photo → Cluster → Type 0
Before window ps c = IsCrossing window c × All (λ q. c.anchor ≤ q.time_ms) ps

cluster_photos-IsCrossing :
    (window : ℕ) (ps : List Photo) (cs : List Cluster)
    → Ascending ps
    → All (Before window ps) cs
    → All (IsCrossing window) (cluster_photos window ps cs)
unfolding cluster_photos join
cluster_photos-IsCrossing window [] cs a h =
    All-map (Before window []) (IsCrossing window) (λ c k. k.0) cs h
cluster_photos-IsCrossing window (p ∷ ps) cs a h =
    cluster_photos-IsCrossing window ps (add_photo window p cs) a.1 (
      All-map (Before window (p ∷ ps)) (Before window ps) (λ c k. (k.0, k.1.1))
        (add_photo window p cs)
        (add_photo-All (Before window (p ∷ ps)) window p cs
          (λ c near free k. (join-IsCrossing window p c near free k.1.0 k.0, k.1))
          (new_cluster-IsCrossing window p, (omega arith, a.0)) h))

-- Each cluster is one crossing: its photos are not earlier than its anchor and at most the window
-- later, no two are of one device, and a photo with a number has the number of the cluster.
pub clusters_of-IsCrossing :
    (window : ℕ) (photos : List Photo)
    → All (IsCrossing (if window == 0 then merge_window_ms else window)) (clusters_of window photos)
unfolding clusters_of
clusters_of-IsCrossing window photos =
    cluster_photos-IsCrossing (if window == 0 then merge_window_ms else window) (sort_asc photos) []
      (sort_asc-Ascending photos) tt
