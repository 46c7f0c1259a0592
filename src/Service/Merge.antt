-- ===== src/Service/Merge.antt =====
-- internal/service/merge.go: `MergeFinishes` and `mergeCluster`, on the photos of
-- internal/infrastructure/sqlite. Times are Unix milliseconds, not negative; a window of 0 stands for
-- every window that is not positive. The list of clusters is kept newest first, the order of the scan.
pub mod Place
pub mod Partition
pub mod Crossing
pub mod Order
use chrono_desk.Prelude.{
  Bool, List, Option, String, [], any, if◌then◌else◌, leb, length, ltb, none, not, some, ℕ, ◌&&◌,
  ◌++◌, ◌-◌, ◌||◌, ◌∷◌,
}
use chrono_desk.Prelude.Classes.{string_eq, nat_eq, ◌==◌}

pub record Photo : Type 0 where
  pub id : String
  pub source_id : String
  pub camera_label : String
  pub time_ms : ℕ
  pub bib : String
  pub bib_source : String
  pub best_photo_url : String
  pub frames : String

pub record MergedFinish : Type 0 where
  pub photo : Photo
  pub cams : List String
  pub merged_count : ℕ

-- `items[0]` is `first`, since no cluster is empty.
pub record Cluster : Type 0 where
  pub first : Photo
  pub more : List Photo
  pub cams : List String
  pub anchor : ℕ
  pub bib : String

abbrev pub merge_window_ms : ℕ
merge_window_ms = 1200

abbrev pub items : Cluster → List Photo
items c = c.first ∷ c.more

unfoldable pub device_key : Photo → String
device_key p = if not (p.source_id == "") then p.source_id else p.camera_label

-- `sort.SliceStable` by ascending time.
unfoldable pub insert_asc : Photo → List Photo → List Photo
insert_asc p [] = p ∷ []
insert_asc p (x ∷ xs) =
    let rest = insert_asc p xs in if leb p.time_ms x.time_ms then p ∷ x ∷ xs else x ∷ rest

unfoldable pub sort_asc : List Photo → List Photo
unfolding insert_asc
sort_asc [] = []
sort_asc (p ∷ ps) = insert_asc p (sort_asc ps)

-- The two tests that leave a cluster out: the camera has contributed, or the numbers conflict.
unfoldable pub blocked : Cluster → Photo → Bool
unfolding device_key
blocked c p =
    any (λ dev. dev == device_key p) c.cams
    || (not (c.bib == "") && not (p.bib == "") && not (c.bib == p.bib))

unfoldable pub join : Cluster → Photo → Cluster
unfolding device_key
join c p = record c {
  more = c.more ++ (p ∷ []);
  cams = device_key p ∷ c.cams;
  bib = if c.bib == "" then p.bib else c.bib;
}

abbrev pub keep : Cluster → Option (List Cluster) → Option (List Cluster)
keep c none = none
keep c (some cs) = some (c ∷ cs)

-- The scan for the cluster that takes the photo; `none` if there is none.
unfoldable pub place : ℕ → Photo → List Cluster → Option (List Cluster)
place window p [] = none
place window p (c ∷ cs) =
    let rest = place window p cs in
    if ltb window (p.time_ms - c.anchor)
    then none
    else if blocked c p
    then keep c rest
    else some (join c p ∷ cs)

unfoldable pub new_cluster : Photo → Cluster
unfolding device_key
new_cluster p = record {
  first = p;
  more = [];
  cams = device_key p ∷ [];
  anchor = p.time_ms;
  bib = p.bib;
}

unfoldable pub add_photo : ℕ → Photo → List Cluster → List Cluster
unfolding place new_cluster
add_photo window p cs = elim (place window p cs) [ none ↦ new_cluster p ∷ cs | some out ↦ out ]

-- The loop over the photos in ascending order.
unfoldable pub cluster_photos : ℕ → List Photo → List Cluster → List Cluster
unfolding add_photo
cluster_photos window [] cs = cs
cluster_photos window (p ∷ ps) cs = cluster_photos window ps (add_photo window p cs)

-- The clusters that the photos of an event form.
unfoldable pub clusters_of : ℕ → List Photo → List Cluster
unfolding cluster_photos sort_asc
clusters_of window photos =
    cluster_photos (if window == 0 then merge_window_ms else window) (sort_asc photos) []

-- The newest photo, the first of those.
newest : Photo → List Photo → Photo
newest rep [] = rep
newest rep (p ∷ ps) = newest (if ltb rep.time_ms p.time_ms then p else rep) ps

-- The first photo with a number that was set by hand.
confirmed : Photo → List Photo → Photo
confirmed rep [] = rep
confirmed rep (p ∷ ps) =
    let rest = confirmed rep ps in if p.bib_source == "manual" && not (p.bib == "") then p else rest

camera_labels : List String → List Photo → List String
camera_labels seen [] = []
camera_labels seen (p ∷ ps) =
    if not (p.camera_label == "") && not (any (λ s. s == p.camera_label) seen)
    then p.camera_label ∷ camera_labels (p.camera_label ∷ seen) ps
    else camera_labels seen ps

unfoldable pub merge_cluster : Cluster → MergedFinish
unfolding newest confirmed camera_labels
merge_cluster c = record {
  photo = confirmed (newest c.first (items c)) (items c);
  cams = camera_labels [] (items c);
  merged_count = length (items c);
}

-- `sort.SliceStable` by descending time.
unfoldable pub insert_desc : MergedFinish → List MergedFinish → List MergedFinish
insert_desc f [] = f ∷ []
insert_desc f (x ∷ xs) =
    let rest = insert_desc f xs in
    if leb x.photo.time_ms f.photo.time_ms then f ∷ x ∷ xs else x ∷ rest

unfoldable pub sort_desc : List MergedFinish → List MergedFinish
unfolding insert_desc
sort_desc [] = []
sort_desc (f ∷ fs) = insert_desc f (sort_desc fs)

-- The clusters, oldest first, made finishes.
unfoldable pub merged_onto : List Cluster → List MergedFinish → List MergedFinish
unfolding merge_cluster
merged_onto [] out = out
merged_onto (c ∷ cs) out = merged_onto cs (merge_cluster c ∷ out)

unfoldable pub merge_finishes : List Photo → ℕ → List MergedFinish
unfolding clusters_of merged_onto sort_desc
merge_finishes photos window = sort_desc (merged_onto (clusters_of window photos) [])
