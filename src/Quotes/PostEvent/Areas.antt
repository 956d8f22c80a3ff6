-- ===== src/Quotes/PostEvent/Areas.antt =====
-- The outdoor areas of a post-event request: a set, however the list names them.
use hestiva_os.Base.{◌≡◌, refl, arith, ℕ, ◌+◌, not, ◌&&◌, List, [], ◌∷◌, if◌then◌else◌, sum_by}
use hestiva_os.Base.Eq.{contains, dedupe_from}
use hestiva_os.Quotes.PostEvent.{
  OutdoorArea, patio, balcony, braai_area, garden_entertainment_area, outdoor_half_hours,
  outdoor_total, area_eq,
}

-- What one kind of area adds, if the list names it and `seen` does not.
abbrev part : List OutdoorArea → List OutdoorArea → OutdoorArea → ℕ
part seen areas a = if contains areas a && not (contains seen a) then outdoor_half_hours a else 0

abbrev parts : List OutdoorArea → List OutdoorArea → ℕ
parts seen areas =
    part seen areas patio
    + part seen areas balcony
    + part seen areas braai_area
    + part seen areas garden_entertainment_area

sum_by-dedupe_from :
    (seen areas : List OutdoorArea)
    → sum_by outdoor_half_hours (dedupe_from seen areas) ≡ parts seen areas
unfolding dedupe_from
sum_by-dedupe_from seen [] = refl
sum_by-dedupe_from seen (patio ∷ areas) =
    ground (arith, sum_by-dedupe_from seen areas, sum_by-dedupe_from (patio ∷ seen) areas)
sum_by-dedupe_from seen (balcony ∷ areas) =
    ground (arith, sum_by-dedupe_from seen areas, sum_by-dedupe_from (balcony ∷ seen) areas)
sum_by-dedupe_from seen (braai_area ∷ areas) =
    ground (arith, sum_by-dedupe_from seen areas, sum_by-dedupe_from (braai_area ∷ seen) areas)
sum_by-dedupe_from seen (garden_entertainment_area ∷ areas) = ground (
  arith,
  sum_by-dedupe_from seen areas,
  sum_by-dedupe_from (garden_entertainment_area ∷ seen) areas,
)

abbrev pub named : List OutdoorArea → OutdoorArea → ℕ
named areas a = if contains areas a then outdoor_half_hours a else 0

-- The areas add up kind by kind, each kind once.
pub outdoor_total_lem :
    (areas : List OutdoorArea)
    → outdoor_total areas
      ≡ named areas patio
        + named areas balcony
        + named areas braai_area
        + named areas garden_entertainment_area
unfolding outdoor_total
outdoor_total_lem areas = ground (arith, sum_by-dedupe_from [] areas)
