-- ===== src/Scores/Ordering.antt =====
-- A report that passes validation is put in the order of its snapshot, and nothing is lost
-- (backend/app/services/score_validation.py).
use mathlib.Core.List.{Memᴰ}
use ai_recruitment.Common.{
  ◌≡◌, refl, sym, ap, inl, inr, true, false, none, some, List, [], ◌∷◌, map, length, ok, Bool-cases,
  Option-cases, arith,
}
use ai_recruitment.Common.Text.{Text, text_eq, text_eq_iff}
use ai_recruitment.Scores.{
  Dimension, ScoreItem, ScoreSnapshot, dicts, snapshot_dimensions, key, has_name, all_distinct,
  all_named, validate_names, validate_score_against_snapshot, by_name, order_by,
  order_dimensions_by_snapshot,
}

-- What is found has the name.
by_name-key :
    (name : Text) (d : Dimension) (ds : List Dimension) → by_name name ds ≡ some d → key d ≡ name
unfolding by_name
by_name-key name d [] h = ground (arith, h)
by_name-key name d (e ∷ ds) h = elim (Option-cases (by_name name ds)) [
  | inr (x, f) ↦ by_name-key name d ds (ground (arith, f, h))
  | inl n ↦ elim (Bool-cases (text_eq (key e) name)) [
    | inl y ↦
        let same : e ≡ d = ground (arith, n, y, h) in rw (sym same) ((text_eq_iff (key e) name).0 y)
    | inr m ↦ ground (arith, n, m, h)
  ]
]

-- A name that no dimension has is not found.
has_name-by_name :
    (name : Text) (ds : List Dimension) → by_name name ds ≡ none → has_name name ds ≡ false
unfolding has_name by_name
has_name-by_name name [] h = refl
has_name-by_name name (e ∷ ds) h = elim (Option-cases (by_name name ds)) [
  | inr (x, f) ↦ ground (arith, f, h)
  | inl n ↦ ground (arith, n, h, has_name-by_name name ds n)
]

by_name-none :
    (name : Text) (ds : List Dimension) → has_name name ds ≡ false → by_name name ds ≡ none
unfolding has_name by_name
by_name-none name [] h = refl
by_name-none name (e ∷ ds) h = ground (arith, h, by_name-none name ds)

-- Ordering keeps the names of the snapshot.
order_by-names :
    (ds es : List Dimension) → all_named es ds ≡ true → map key (order_by ds es) ≡ map key es
unfolding all_named order_by
order_by-names ds [] h = refl
order_by-names ds (e ∷ es) h = elim (Option-cases (by_name (key e) ds)) [
  | inl n ↦ ground (arith, h, has_name-by_name (key e) ds n)
  | inr (d, f) ↦
      ground (arith, f, by_name-key (key e) d ds f, order_by-names ds es (ground (arith, h)))
]

Memᴰ-has_name : (d : Dimension) (ds : List Dimension) → Memᴰ d ds → has_name (key d) ds ≡ true
unfolding has_name
Memᴰ-has_name d [] m = elim m [ ]
Memᴰ-has_name d (e ∷ ds) (Memᴰ.head same) =
    ground (arith, same, (text_eq_iff (key d) (key d)).1 refl)
Memᴰ-has_name d (e ∷ ds) (Memᴰ.tail m) = ground (arith, Memᴰ-has_name d ds m)

-- Among distinct names each dimension is found by its own.
by_name_self :
    (d : Dimension) (ds : List Dimension)
    → all_distinct ds ≡ true
    → Memᴰ d ds
    → by_name (key d) ds ≡ some d
unfolding all_distinct by_name
by_name_self d [] h m = elim m [ ]
by_name_self d (e ∷ ds) h (Memᴰ.head same) =
    let fresh : has_name (key d) ds ≡ false = ground (arith, h, same) in
    ground (arith, same, by_name-none (key d) ds fresh, (text_eq_iff (key d) (key d)).1 refl)
by_name_self d (e ∷ ds) h (Memᴰ.tail m) = ground (arith, by_name_self d ds (ground (arith, h)) m)

all_named-has_name :
    (d : Dimension) (ds es : List Dimension)
    → all_named ds es ≡ true
    → Memᴰ d ds
    → has_name (key d) es ≡ true
unfolding all_named
all_named-has_name d [] es h m = elim m [ ]
all_named-has_name d (e ∷ ds) es h (Memᴰ.head same) = rw same (ground (arith, h))
all_named-has_name d (e ∷ ds) es h (Memᴰ.tail m) = all_named-has_name d ds es (ground (arith, h)) m

order_by_found :
    (d : Dimension) (ds : List Dimension) (e : Dimension) (es : List Dimension)
    → by_name (key e) ds ≡ some d
    → order_by ds (e ∷ es) ≡ d ∷ order_by ds es
unfolding order_by
order_by_found d ds e es f = ground (arith, f)

order_by_skipped :
    (ds : List Dimension) (e : Dimension) (es : List Dimension)
    → by_name (key e) ds ≡ none
    → order_by ds (e ∷ es) ≡ order_by ds es
unfolding order_by
order_by_skipped ds e es n = ground (arith, n)

order_by_later :
    (d : Dimension) (ds : List Dimension) (e : Dimension) (es : List Dimension)
    → Memᴰ d (order_by ds es)
    → Memᴰ d (order_by ds (e ∷ es))
order_by_later d ds e es m = elim (Option-cases (by_name (key e) ds)) [
  | inl n ↦ rw (order_by_skipped ds e es n) m
  | inr (x, f) ↦ rw (order_by_found x ds e es f) (Memᴰ.tail m)
]

-- A dimension that is found by a name that is listed is among the ordered ones.
order_by-Memᴰ :
    (d : Dimension) (ds es : List Dimension)
    → by_name (key d) ds ≡ some d
    → has_name (key d) es ≡ true
    → Memᴰ d (order_by ds es)
unfolding has_name
order_by-Memᴰ d ds [] f h = ground (arith, h)
order_by-Memᴰ d ds (e ∷ es) f h = elim (Bool-cases (text_eq (key e) (key d))) [
  | inl y ↦
      let same : key e ≡ key d = (text_eq_iff (key e) (key d)).0 y in
      rw (order_by_found d ds e es (ground (arith, same, f))) (Memᴰ.head refl)
  | inr n ↦ order_by_later d ds e es (order_by-Memᴰ d ds es f (ground (arith, h, n)))
]

length-keys : (ds : List Dimension) → length (map key ds) ≡ length ds
length-keys [] = refl
length-keys (d ∷ ds) = ground (arith, length-keys ds)

-- What validation has looked at.
validate_names-ok :
    (actual expected : List Dimension)
    → validate_names actual expected ≡ ok tt
    → (all_distinct actual ≡ true)
      × (all_named actual expected ≡ true)
      × (all_named expected actual ≡ true)
      × (length actual ≡ length expected)
unfolding validate_names
validate_names-ok actual expected h =
    (ground (arith, h), ground (arith, h), ground (arith, h), ground (arith, h))

-- If a score report passes validation, ordering it gives the names of the snapshot, in the order
-- there, as many dimensions as the report has, and each of the report's dimensions among them.
pub validated-ordered :
    (report : List ScoreItem) (snapshot : ScoreSnapshot) (d : Dimension)
    → validate_score_against_snapshot report snapshot ≡ ok tt
    → Memᴰ d (dicts report)
    → (map key (order_dimensions_by_snapshot report snapshot)
        ≡ map key (snapshot_dimensions snapshot))
      × (length (order_dimensions_by_snapshot report snapshot) ≡ length (dicts report))
      × Memᴰ d (order_dimensions_by_snapshot report snapshot)
unfolding validate_score_against_snapshot order_dimensions_by_snapshot
validated-ordered report snapshot d h m =
    let ds = dicts report in
    let es = snapshot_dimensions snapshot in
    let v = validate_names-ok ds es h in
    let names = order_by-names ds es v.2 in
    (
      names,
      omega (arith, length-keys (order_by ds es), length-keys es, ap (λ x. length x) names, v.3),
      order_by-Memᴰ d ds es (by_name_self d ds v.0 m) (all_named-has_name d ds es v.1 m),
    )
