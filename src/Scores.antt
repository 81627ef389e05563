-- ===== src/Scores.antt =====
-- The dimensions of a score report (backend/app/services/score_validation.py). A name is
-- `str(item.get("name") or "")`; scores and weights are opaque numbers here.
pub mod Ordering
mod Tests
use ai_recruitment.Common.{
  ℕ, Bool, true, false, not, ◌&&◌, ◌||◌, ◌==◌, Option, none, some, List, [], ◌∷◌, any, length,
  Result, ok, err, if◌then◌else◌,
}
use ai_recruitment.Common.Text.{Text, text_eq, is_empty, strip}

pub record Dimension : Type 0 where
  pub name : Text
  pub score : ℕ
  pub weight : ℕ

-- An entry of a list of dimensions.
pub data ScoreItem : Type 0 where
  not_dict : ScoreItem
  dict : Dimension → ScoreItem

-- A value of the snapshot: falsy, a list, or another value.
pub data ScoreList : Type 0 where
  nothing other : ScoreList
  items : List ScoreItem → ScoreList

pub record ScoreSnapshot : Type 0 where
  pub dimensions : ScoreList
  pub dimensions_json : ScoreList

-- `a or b`
unfoldable pub first_truthy : ScoreList → ScoreList → ScoreList
first_truthy ScoreList.nothing b = b
first_truthy ScoreList.other b = ScoreList.other
first_truthy (ScoreList.items []) b = b
first_truthy (ScoreList.items (x ∷ xs)) b = ScoreList.items (x ∷ xs)

-- `[item for item in items if isinstance(item, dict)]`
unfoldable pub dicts : List ScoreItem → List Dimension
dicts [] = []
dicts (ScoreItem.not_dict ∷ xs) = dicts xs
dicts (ScoreItem.dict d ∷ xs) = d ∷ dicts xs

-- `[item for item in items if item.get("name")]`
unfoldable pub named : List Dimension → List Dimension
named [] = []
named (d ∷ ds) = let rest = named ds in if is_empty d.name then rest else d ∷ rest

unfoldable pub listed_items : ScoreList → List ScoreItem
listed_items ScoreList.nothing = []
listed_items ScoreList.other = []
listed_items (ScoreList.items xs) = xs

-- `snapshot_dimensions`
unfoldable pub snapshot_dimensions : ScoreSnapshot → List Dimension
unfolding first_truthy listed_items dicts named
snapshot_dimensions snapshot =
    named (dicts (listed_items (first_truthy snapshot.dimensions snapshot.dimensions_json)))

unfoldable pub key : Dimension → Text
key d = strip d.name

-- Whether a dimension has the name.
unfoldable pub has_name : Text → List Dimension → Bool
has_name name ds = any (λ d. text_eq (key d) name) ds

-- `len(names) == len(set(names))`
unfoldable pub all_distinct : List Dimension → Bool
unfolding has_name
all_distinct [] = true
all_distinct (d ∷ ds) = not (has_name (key d) ds) && all_distinct ds

-- Every name of the first list is in the second.
unfoldable pub all_named : List Dimension → List Dimension → Bool
unfolding has_name
all_named [] es = true
all_named (d ∷ ds) es = has_name (key d) es && all_named ds es

-- `ScoreOutputInvalidError`, by message.
pub data ScoreError : Type 0 where
  no_dimensions duplicate_names name_mismatch count_mismatch : ScoreError

abbrev pub none_expected : List Dimension → Bool
none_expected [] = true
none_expected (d ∷ ds) = false

-- `validate_score_against_snapshot`, once both lists are read.
unfoldable pub validate_names : (actual expected : List Dimension) → Result ScoreError (Unit {0})
unfolding all_distinct all_named
validate_names actual expected =
    if none_expected expected
    then err ScoreError.no_dimensions
    else if not (all_distinct actual)
    then err ScoreError.duplicate_names
    else if not (all_named actual expected) || not (all_named expected actual)
    then err ScoreError.name_mismatch
    else if not (length actual == length expected)
    then err ScoreError.count_mismatch
    else ok tt

-- `validate_score_against_snapshot`
unfoldable pub validate_score_against_snapshot :
    List ScoreItem → ScoreSnapshot → Result ScoreError (Unit {0})
unfolding validate_names snapshot_dimensions dicts
validate_score_against_snapshot normalized snapshot =
    validate_names (dicts normalized) (snapshot_dimensions snapshot)

-- `by_name.get(name)`: the last dimension of a name stays.
unfoldable pub by_name : Text → List Dimension → Option Dimension
by_name name [] = none
by_name name (d ∷ ds) = elim (by_name name ds) [
  | some e ↦ some e
  | none ↦ (if text_eq (key d) name then some d else none)
]

-- The loop of `order_dimensions_by_snapshot`.
unfoldable pub order_by : List Dimension → List Dimension → List Dimension
unfolding by_name
order_by dims [] = []
order_by dims (e ∷ es) =
    let rest = order_by dims es in elim (by_name (key e) dims) [ some d ↦ d ∷ rest | none ↦ rest ]

-- `order_dimensions_by_snapshot`
unfoldable pub order_dimensions_by_snapshot : List ScoreItem → ScoreSnapshot → List Dimension
unfolding order_by dicts snapshot_dimensions
order_dimensions_by_snapshot dimensions snapshot =
    order_by (dicts dimensions) (snapshot_dimensions snapshot)
