-- ===== src/Packet/Reserves.antt =====
-- internal/packetissuance/reserve_origins.go. A map is the list of its entries, the newest first.
pub mod Sound
use chrono_desk.Prelude.{
  Bool, List, Option, String, [], if◌then◌else◌, none, not, some, ◌&&◌, ◌++◌, ◌||◌, ◌∷◌,
}
use chrono_desk.Prelude.Classes.{string_eq, ◌==◌}
use chrono_desk.Packet.Model.{Registration}
use chrono_desk.Packet.Rows.{find_row}

pub record ReserveOrigin : Type 0 where
  pub registration_id : String
  pub bib : String
  pub epc : String
  pub race_id : String

-- The first loop's map of the rows.
unfoldable pub current_map : List Registration → List Registration → List Registration
current_map acc [] = acc
current_map acc (row ∷ rows) = current_map (row ∷ acc) rows

-- The candidates that the first loop adds: the rows of the reserve that have a number.
unfoldable pub reserve_candidates : List Registration → List ReserveOrigin
reserve_candidates [] = []
reserve_candidates (row ∷ rows) =
    let rest = reserve_candidates rows in
    if row.reserve && not (row.bib == "")
    then record { registration_id = row.id; bib = row.bib; epc = row.epc; race_id = row.race_id }
      ∷ rest
    else rest

unfoldable pub origin_matches : Registration → ReserveOrigin → Bool
origin_matches row origin =
    not (origin.bib == "")
    && row.epc == origin.epc
    && (row.bib == origin.bib || (row.bib == "" && not (row.epc == "")))

-- The second loop.
unfoldable pub match_origins :
    List Registration
    → List (String × ReserveOrigin)
    → List ReserveOrigin
    → List (String × ReserveOrigin)
unfolding find_row origin_matches
match_origins current matched [] = matched
match_origins current matched (origin ∷ rest) =
    match_origins current
      (elim (find_row origin.registration_id current) [
        | none ↦ matched
        | some row ↦ if origin_matches row origin then (row.id, origin) ∷ matched else matched
      ])
      rest

unfoldable pub find_origin : String → List (String × ReserveOrigin) → Option ReserveOrigin
find_origin id [] = none
find_origin id ((key, origin) ∷ rest) = if key == id then some origin else find_origin id rest

unfoldable pub collect_origins :
    List (String × ReserveOrigin) → List Registration → List ReserveOrigin
unfolding find_origin
collect_origins matched [] = []
collect_origins matched (row ∷ rows) =
    let rest = collect_origins matched rows in
    elim (find_origin row.id matched) [ none ↦ rest | some origin ↦ origin ∷ rest ]

unfoldable pub matching_reserve_origins :
    List Registration → List ReserveOrigin → List ReserveOrigin
unfolding current_map reserve_candidates match_origins collect_origins
matching_reserve_origins rows candidates =
    collect_origins (match_origins (current_map [] rows) [] (candidates ++ reserve_candidates rows))
      rows
