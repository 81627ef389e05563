-- ===== src/Scores/Tests.antt =====
-- A concrete score report: two dimensions, in the other order.
use mathlib.Core.List.{Memᴰ}
use ai_recruitment.Common.{◌≡◌, refl, List, [], ◌∷◌, map, length}
use ai_recruitment.Common.Text.{codes, text_eq, strip, rstrip, lstrip, is_space}
use ai_recruitment.Scores.{
  Dimension, ScoreItem, ScoreList, ScoreSnapshot, first_truthy, dicts, named, listed_items,
  snapshot_dimensions, key, has_name, all_distinct, all_named, validate_names,
  validate_score_against_snapshot, order_dimensions_by_snapshot,
}
use ai_recruitment.Scores.Ordering.{validated-ordered}

abbrev skills : Dimension
skills = record { name = codes "skills"; score = 80; weight = 60 }

abbrev teamwork : Dimension
teamwork = record { name = codes "teamwork "; score = 70; weight = 40 }

abbrev report : List ScoreItem
report = ScoreItem.dict teamwork ∷ ScoreItem.not_dict ∷ ScoreItem.dict skills ∷ []

abbrev snapshot : ScoreSnapshot
snapshot = record {
  dimensions = ScoreList.items (
      ScoreItem.dict (record skills { score = 0 })
      ∷ ScoreItem.dict (record { name = codes "teamwork"; score = 0; weight = 40 })
      ∷ []);
  dimensions_json = ScoreList.nothing;
}

validated-ordered_example :
    (map key (order_dimensions_by_snapshot report snapshot)
      ≡ map key (snapshot_dimensions snapshot))
    × (length (order_dimensions_by_snapshot report snapshot) ≡ length (dicts report))
    × Memᴰ skills (order_dimensions_by_snapshot report snapshot)
unfolding validate_score_against_snapshot validate_names snapshot_dimensions first_truthy
    listed_items dicts named key has_name all_distinct all_named text_eq strip rstrip lstrip
    is_space
validated-ordered_example =
    validated-ordered report snapshot skills refl (Memᴰ.tail (Memᴰ.head refl))
