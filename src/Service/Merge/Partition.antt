-- ===== src/Service/Merge/Partition.antt =====
-- Proofs on the number of photos that `MergeFinishes` (internal/service/merge.go) keeps.
use chrono_desk.Prelude.Classes.{◌==◌}
use chrono_desk.Service.Merge.Place.{place-cases, place-empty}
use chrono_desk.Prelude.{
  Bool, List, [], arith, if◌then◌else◌, refl, some, ℕ, ◌++◌, ◌+◌, ◌∷◌, ◌≡◌, inl, inr, Option-cases,
  length, true,
}
use chrono_desk.Service.Merge.{
  Photo, Cluster, items, MergedFinish, insert_asc, insert_desc, join, place, sort_asc, sort_desc,
  add_photo, cluster_photos, clusters_of, merge_cluster, merge_finishes, merge_window_ms,
  merged_onto, new_cluster,
}

-- The photos that satisfy a test.
abbrev pub count : (Photo → Bool) → List Photo → ℕ
count q [] = 0
count q (p ∷ ps) = (if q p then 1 else 0) + count q ps

abbrev pub count_all : (Photo → Bool) → List Cluster → ℕ
count_all q [] = 0
count_all q (c ∷ cs) = count q (items c) + count_all q cs

abbrev pub total : List MergedFinish → ℕ
total [] = 0
total (f ∷ fs) = f.merged_count + total fs

count-append :
    (q : Photo → Bool) (xs ys : List Photo) → count q (xs ++ ys) ≡ count q xs + count q ys
count-append q [] ys = omega arith
count-append q (x ∷ xs) ys = omega (arith, count-append q xs ys)

count-insert_asc :
    (q : Photo → Bool) (p : Photo) (ps : List Photo) → count q (insert_asc p ps) ≡ count q (p ∷ ps)
unfolding insert_asc
count-insert_asc q p [] = refl
count-insert_asc q p (x ∷ xs) = ground (arith, count-insert_asc q p xs)

count-sort_asc : (q : Photo → Bool) (ps : List Photo) → count q (sort_asc ps) ≡ count q ps
unfolding sort_asc
count-sort_asc q [] = refl
count-sort_asc q (p ∷ ps) = omega (arith, count-insert_asc q p (sort_asc ps), count-sort_asc q ps)

count-join :
    (q : Photo → Bool) (c : Cluster) (p : Photo)
    → count q (items (join c p)) ≡ count q (p ∷ []) + count q (items c)
unfolding join
count-join q c p = omega (arith, count-append q c.more (p ∷ []))

count_all-place :
    (q : Photo → Bool) (window : ℕ) (p : Photo) (cs : List Cluster) {out : List Cluster}
    → place window p cs ≡ some out
    → count_all q out ≡ count q (p ∷ []) + count_all q cs
count_all-place q window p [] h = elim (place-empty window p h) [ ]
count_all-place q window p (c ∷ cs) {out} h = elim (place-cases window p c cs h).1 [
  | inl (b, (rest, e, o)) ↦ rw o (omega (arith, count_all-place q window p cs e))
  | inr (b, o) ↦ rw o (omega (arith, count-join q c p))
]

total-insert_desc :
    (f : MergedFinish) (fs : List MergedFinish)
    → total (insert_desc f fs) ≡ f.merged_count + total fs
unfolding insert_desc
total-insert_desc f [] = refl
total-insert_desc f (x ∷ xs) = ground (arith, total-insert_desc f xs)

total-sort_desc : (fs : List MergedFinish) → total (sort_desc fs) ≡ total fs
unfolding sort_desc
total-sort_desc [] = refl
total-sort_desc (f ∷ fs) = omega (arith, total-insert_desc f (sort_desc fs), total-sort_desc fs)

count_all-add_photo :
    (q : Photo → Bool) (window : ℕ) (p : Photo) (cs : List Cluster)
    → count_all q (add_photo window p cs) ≡ count q (p ∷ []) + count_all q cs
unfolding add_photo new_cluster
count_all-add_photo q window p cs = elim (Option-cases (place window p cs)) [
  | inl e ↦ rw (e, add_photo, count_all) (omega arith)
  | inr (out, e) ↦ rw (e, add_photo, count_all) (count_all-place q window p cs e)
]

count_all-cluster_photos :
    (q : Photo → Bool) (window : ℕ) (ps : List Photo) (cs : List Cluster)
    → count_all q (cluster_photos window ps cs) ≡ count q ps + count_all q cs
unfolding cluster_photos
count_all-cluster_photos q window [] cs = omega arith
count_all-cluster_photos q window (p ∷ ps) cs = omega (
  arith,
  count_all-cluster_photos q window ps (add_photo window p cs),
  count_all-add_photo q window p cs,
)

-- The clusters partition the photos: for every test, as many photos in the clusters satisfy it as in
-- the input, so that each photo is in one cluster, as often as it was given.
pub count_all-clusters_of :
    (q : Photo → Bool) (window : ℕ) (photos : List Photo)
    → count_all q (clusters_of window photos) ≡ count q photos
unfolding clusters_of
count_all-clusters_of q window photos = omega (
  arith,
  count_all-cluster_photos q (if window == 0 then merge_window_ms else window) (sort_asc photos) [],
  count-sort_asc q photos,
)

abbrev every : Photo → Bool
every p = true

count-every : (ps : List Photo) → count every ps ≡ length ps
count-every [] = refl
count-every (p ∷ ps) = omega (arith, count-every ps)

total-merged_onto :
    (cs : List Cluster) (out : List MergedFinish)
    → total (merged_onto cs out) ≡ count_all every cs + total out
unfolding merged_onto merge_cluster
total-merged_onto [] out = omega arith
total-merged_onto (c ∷ cs) out =
    omega (arith, total-merged_onto cs (merge_cluster c ∷ out), count-every (items c))

-- The counts of the finishes add up to the number of photos.
pub total-merge_finishes :
    (photos : List Photo) (window : ℕ) → total (merge_finishes photos window) ≡ length photos
unfolding merge_finishes
total-merge_finishes photos window = omega (
  arith,
  total-sort_desc (merged_onto (clusters_of window photos) []),
  total-merged_onto (clusters_of window photos) [],
  count_all-clusters_of every window photos,
  count-every photos,
)
