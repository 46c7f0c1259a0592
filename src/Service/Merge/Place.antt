-- ===== src/Service/Merge/Place.antt =====
-- Lemmas on the scan for a cluster in `MergeFinishes` (internal/service/merge.go).
use chrono_desk.Prelude.{
  All, Bool-cases, List, Option, Option-cases, [], false, inl, inr, ltb, none, refl, some, subst,
  sym, true, ℕ, ◌-◌, ◌∷◌, ◌≡◌, ◌⊎◌,
}
use chrono_desk.Service.Merge.{Photo, Cluster, add_photo, blocked, join, keep, new_cluster, place}

pub place-empty : (window : ℕ) (p : Photo) {out : List Cluster} → place window p [] ≡ some out → ⊥
unfolding place
place-empty window p h = cc

keep-eq-some :
    (c : Cluster) (o : Option (List Cluster)) {out : List Cluster}
    → keep c o ≡ some out
    → (rest : List Cluster) × (o ≡ some rest) × (out ≡ c ∷ rest)
keep-eq-some c none h = cc
keep-eq-some c (some rest) h = (rest, refl, cc)

pub place-cases :
    (window : ℕ) (p : Photo) (c : Cluster) (cs : List Cluster) {out : List Cluster}
    → place window p (c ∷ cs) ≡ some out
    → (ltb window (p.time_ms - c.anchor) ≡ false)
      × (((blocked c p ≡ true)
            × ((rest : List Cluster) × (place window p cs ≡ some rest) × (out ≡ c ∷ rest)))
          ⊎ ((blocked c p ≡ false) × (out ≡ join c p ∷ cs)))
unfolding place
place-cases window p c cs {out} h = elim (Bool-cases (ltb window (p.time_ms - c.anchor))) [
  | inl stale ↦ let bad : none ≡ some out = rw stale at h in cc
  | inr near ↦ (
    near,
    elim (Bool-cases (blocked c p)) [
      | inl b ↦ inl (b, keep-eq-some c (place window p cs) (rw (near, b) at h))
      | inr b ↦ inr (b, let e : some (join c p ∷ cs) ≡ some out = (rw (near, b) at h) in cc)
    ],
  )
]

-- What holds of all clusters, and of a cluster that takes the photo, holds after the scan.
pub place-All :
    (P : Cluster → Type 0) (window : ℕ) (p : Photo) (cs : List Cluster) {out : List Cluster}
    → ((c : Cluster)
        → ltb window (p.time_ms - c.anchor) ≡ false
        → blocked c p ≡ false
        → P c
        → P (join c p))
    → All P cs
    → place window p cs ≡ some out
    → All P out
place-All P window p [] f hs h = elim (place-empty window p h) [ ]
place-All P window p (c ∷ cs) {out} f hs h =
    let (near, ends) = place-cases window p c cs h in
    elim ends [
      | inl (b, (rest, e, o)) ↦ subst (All P) (sym o) (hs.0, place-All P window p cs f hs.1 e)
      | inr (b, o) ↦ subst (All P) (sym o) (f c near b hs.0, hs.1)
    ]

pub add_photo-All :
    (P : Cluster → Type 0) (window : ℕ) (p : Photo) (cs : List Cluster)
    → ((c : Cluster)
        → ltb window (p.time_ms - c.anchor) ≡ false
        → blocked c p ≡ false
        → P c
        → P (join c p))
    → P (new_cluster p)
    → All P cs
    → All P (add_photo window p cs)
unfolding add_photo
add_photo-All P window p cs f n hs = elim (Option-cases (place window p cs)) [
  | inl e ↦ rw (e, add_photo, All) (n, hs)
  | inr (out, e) ↦ rw (e, add_photo, All) (place-All P window p cs f hs e)
]
