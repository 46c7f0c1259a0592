-- ===== src/Packet/Reserves/Sound.antt =====
-- Proofs on `MatchingReserveOrigins` (internal/packetissuance/reserve_origins.go).
use chrono_desk.Prelude.{
  All, Bool-cases, List, Option-cases, String, [], arith, inl, inr, length, some, some-injective,
  subst, true, ◌++◌, ◌∷◌, ◌≡◌, ◌≤◌, Bool, false, not, refl, sym, ◌&&◌, ◌||◌, ◌∙◌, ◌≢◌, ◌⊎◌,
}
use chrono_desk.Prelude.Classes.{string_eq, ◌==◌, eq_iff}
use chrono_desk.Packet.Model.{Registration}
use chrono_desk.Packet.Rows.{find_row}
use chrono_desk.Packet.Reserves.{
  ReserveOrigin, current_map, origin_matches, match_origins, find_origin, collect_origins,
  matching_reserve_origins, reserve_candidates,
}

-- The row that the origin names has its EPC, and its number or, with an EPC, no number. The origin has a
-- number.
unfoldable pub HasRow : List Registration → ReserveOrigin → Type 0
HasRow current origin =
    (row : Registration) × (find_row origin.registration_id current ≡ some row)
    × (origin.bib ≢ "")
    × (row.epc ≡ origin.epc)
    × ((row.bib ≡ origin.bib) ⊎ ((row.bib ≡ "") × (row.epc ≢ "")))

not_empty : (s : String) → (s == "") ≡ false → s ≢ ""
not_empty s h e = let bad : true ≡ false = sym ((eq_iff s "").1 e) ∙ h in cc

origin_parts :
    (a b c d e : Bool)
    → (not a && b && (c || (d && not e))) ≡ true
    → (a ≡ false) × (b ≡ true) × ((c ≡ true) ⊎ ((d ≡ true) × (e ≡ false)))
origin_parts false true true d e h = (refl, refl, inl refl)
origin_parts false true false true false h = (refl, refl, inr (refl, refl))
origin_parts false true false true true h = cc
origin_parts false true false false e h = cc
origin_parts false false c d e h = cc
origin_parts true b c d e h = cc

origin_matches-HasRow :
    (current : List Registration) (row : Registration) (origin : ReserveOrigin)
    → find_row origin.registration_id current ≡ some row
    → origin_matches row origin ≡ true
    → HasRow current origin
unfolding origin_matches HasRow
origin_matches-HasRow current row origin found h =
    let (a, b, c) =
      origin_parts (origin.bib == "") (row.epc == origin.epc) (row.bib == origin.bib)
        (row.bib == "") (row.epc == "") h in
    (
      row,
      found,
      not_empty origin.bib a,
      (eq_iff row.epc origin.epc).0 b,
      elim c [
        | inl same ↦ inl ((eq_iff row.bib origin.bib).0 same)
        | inr (none_left, tagged) ↦ inr ((eq_iff row.bib "").0 none_left, not_empty row.epc tagged)
      ],
    )

match_origins-All :
    (current : List Registration) (matched : List (String × ReserveOrigin))
    (candidates : List ReserveOrigin)
    → All (λ (e : String × ReserveOrigin). HasRow current e.1) matched
    → All
        (λ (e : String × ReserveOrigin). HasRow current e.1)
        (match_origins current matched candidates)
unfolding match_origins
match_origins-All current matched [] h = h
match_origins-All current matched (origin ∷ rest) h =
    elim (Option-cases (find_row origin.registration_id current)) [
      | inl e ↦ rw (e, match_origins, All) (match_origins-All current matched rest h)
      | inr (row, e) ↦ elim (Bool-cases (origin_matches row origin)) [
        | inl m ↦
            rw (e, m, match_origins, All)
              (match_origins-All current ((row.id, origin) ∷ matched) rest
                (origin_matches-HasRow current row origin e m, h))
        | inr m ↦ rw (e, m, match_origins, All) (match_origins-All current matched rest h)
      ]
    ]

find_origin-All :
    (P : ReserveOrigin → Type 0) (id : String) (matched : List (String × ReserveOrigin))
    {origin : ReserveOrigin}
    → All (λ (e : String × ReserveOrigin). P e.1) matched
    → find_origin id matched ≡ some origin
    → P origin
unfolding find_origin
find_origin-All P id [] h e = cc
find_origin-All P id ((key, o) ∷ rest) {origin} h e = elim (Bool-cases (key == id)) [
  | inl k ↦ let same : some o ≡ some origin = rw k at e in subst P (some-injective same) h.0
  | inr k ↦ find_origin-All P id rest h.1 (rw k at e)
]

collect_origins-All :
    (P : ReserveOrigin → Type 0) (matched : List (String × ReserveOrigin))
    (rows : List Registration)
    → All (λ (e : String × ReserveOrigin). P e.1) matched
    → All P (collect_origins matched rows)
unfolding collect_origins
collect_origins-All P matched [] h = tt
collect_origins-All P matched (row ∷ rows) h = elim (Option-cases (find_origin row.id matched)) [
  | inl e ↦ rw (e, collect_origins, All) (collect_origins-All P matched rows h)
  | inr (o, e) ↦
      rw (e, collect_origins, All)
        (find_origin-All P row.id matched h e, collect_origins-All P matched rows h)
]

length-collect_origins :
    (matched : List (String × ReserveOrigin)) (rows : List Registration)
    → length (collect_origins matched rows) ≤ length rows
unfolding collect_origins
length-collect_origins matched [] = omega arith
length-collect_origins matched (row ∷ rows) = ground (arith, length-collect_origins matched rows)

-- `MatchingReserveOrigins` returns no more origins than there are rows. Each has a number and names a
-- current row that has its EPC and its number or, with an EPC that is not empty, no number.
pub matching_reserve_origins-HasRow :
    (rows : List Registration) (candidates : List ReserveOrigin)
    → All (HasRow (current_map [] rows)) (matching_reserve_origins rows candidates)
      × (length (matching_reserve_origins rows candidates) ≤ length rows)
unfolding matching_reserve_origins
matching_reserve_origins-HasRow rows candidates =
    let matched = match_origins (current_map [] rows) [] (candidates ++ reserve_candidates rows) in
    (
      collect_origins-All (HasRow (current_map [] rows)) matched rows
          (match_origins-All (current_map [] rows) [] (candidates ++ reserve_candidates rows) tt),
      length-collect_origins matched rows,
    )
