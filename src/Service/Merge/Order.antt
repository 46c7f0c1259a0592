-- ===== src/Service/Merge/Order.antt =====
-- Proofs on the order of the finishes of `MergeFinishes` (internal/service/merge.go).
use chrono_desk.Prelude.{
  All, All-map, Bool-cases, List, [], arith, inl, inr, leb, leb→le, ℕ, ◌∷◌, ◌≤◌,
}
use chrono_desk.Service.Merge.{
  Photo, MergedFinish, insert_desc, merge_finishes, sort_desc, clusters_of, merged_onto,
}

-- In descending order of time.
abbrev pub Descending : List MergedFinish → Type 0
Descending [] = Unit
Descending (f ∷ fs) = All (λ g. g.photo.time_ms ≤ f.photo.time_ms) fs × Descending fs

All-insert_desc :
    (P : MergedFinish → Type 0) (f : MergedFinish) (fs : List MergedFinish)
    → P f
    → All P fs
    → All P (insert_desc f fs)
unfolding insert_desc
All-insert_desc P f [] h hs = (h, tt)
All-insert_desc P f (x ∷ xs) h hs = elim (Bool-cases (leb x.photo.time_ms f.photo.time_ms)) [
  | inl e ↦ rw (e, insert_desc, All) (h, hs)
  | inr e ↦ rw (e, insert_desc, All) (hs.0, All-insert_desc P f xs h hs.1)
]

insert_desc-Descending :
    (f : MergedFinish) (fs : List MergedFinish) → Descending fs → Descending (insert_desc f fs)
unfolding insert_desc
insert_desc-Descending f [] h = (tt, tt)
insert_desc-Descending f (x ∷ xs) h = elim (Bool-cases (leb x.photo.time_ms f.photo.time_ms)) [
  | inl e ↦
      let le = leb→le x.photo.time_ms f.photo.time_ms e in
      rw (e, insert_desc, Descending)
        (
          (
            le,
            All-map (λ g. g.photo.time_ms ≤ x.photo.time_ms)
                (λ g. g.photo.time_ms ≤ f.photo.time_ms) (λ g k. omega arith) xs h.0,
          ),
          h,
        )
  | inr e ↦
      rw (e, insert_desc, Descending)
        (
          All-insert_desc (λ g. g.photo.time_ms ≤ x.photo.time_ms) f xs (ground arith) h.0,
          insert_desc-Descending f xs h.1,
        )
]

sort_desc-Descending : (fs : List MergedFinish) → Descending (sort_desc fs)
unfolding sort_desc
sort_desc-Descending [] = tt
sort_desc-Descending (f ∷ fs) = insert_desc-Descending f (sort_desc fs) (sort_desc-Descending fs)

-- The finishes come newest first.
pub merge_finishes-Descending :
    (photos : List Photo) (window : ℕ) → Descending (merge_finishes photos window)
unfolding merge_finishes
merge_finishes-Descending photos window =
    sort_desc-Descending (merged_onto (clusters_of window photos) [])
