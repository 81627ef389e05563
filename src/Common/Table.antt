-- ===== src/Common/Table.antt =====
-- A database table: rows by primary key, in insertion order.
use ai_recruitment.Common.{
  ℕ, ◌+◌, ◌≤◌, ◌≡◌, refl, Bool, true, Option, none, some, List, [], ◌∷◌, arith, ◌==◌, if◌then◌else◌,
  bit,
}

abbrev pub Table {ℓ} : Type ℓ → Type ℓ
Table V = List (ℕ × V)

module _ {ℓ} {V : Type ℓ} where
  -- `session.get`, or a `select` by primary key
  unfoldable pub lookup : ℕ → Table V → Option V
  lookup k [] = none
  lookup k ((j, v) ∷ t) = if j == k then some v else lookup k t

  -- Writes a row back, or adds a new one at the end.
  unfoldable pub put : ℕ → V → Table V → Table V
  put k v [] = (k, v) ∷ []
  put k v ((j, w) ∷ t) = if j == k then (j, v) ∷ t else (j, w) ∷ put k v t

  -- `select count(*)` of the rows that pass a test
  unfoldable pub count : (V → Bool) → Table V → ℕ
  count p [] = 0
  count p ((j, v) ∷ t) = bit (p v) + count p t

  -- The first row that passes a test, with its key.
  unfoldable pub find_row : (V → Bool) → Table V → Option (ℕ × V)
  find_row p [] = none
  find_row p ((j, v) ∷ t) = if p v then some (j, v) else find_row p t

  -- `select` of every row that passes a test
  unfoldable pub rows : (V → Bool) → Table V → List (ℕ × V)
  rows p [] = []
  rows p ((j, v) ∷ t) = let rest = rows p t in if p v then (j, v) ∷ rest else rest

  -- `update … where` over the whole table
  unfoldable pub update_rows : (V → V) → Table V → Table V
  update_rows f [] = []
  update_rows f ((j, v) ∷ t) = (j, f v) ∷ update_rows f t

  pub lookup-put :
      (j k : ℕ) (v : V) (t : Table V)
      → lookup j (put k v t) ≡ (if k == j then some v else lookup j t)
  unfolding lookup put
  lookup-put j k v [] = refl
  lookup-put j k v ((i, w) ∷ t) = ground (arith, lookup-put j k v t)

  pub lookup-put_self : (k : ℕ) (v : V) (t : Table V) → lookup k (put k v t) ≡ some v
  lookup-put_self k v t = ground (arith, lookup-put k k v t)

  -- Overwriting a row changes a count by the two rows alone.
  pub count-put :
      (p : V → Bool) (k : ℕ) (v old : V) (t : Table V)
      → lookup k t ≡ some old
      → count p (put k v t) + bit (p old) ≡ count p t + bit (p v)
  unfolding lookup put count
  count-put p k v old [] h = ground arith
  count-put p k v old ((i, w) ∷ t) h = ground (arith, count-put p k v old t)

  pub count-put_new :
      (p : V → Bool) (k : ℕ) (v : V) (t : Table V)
      → lookup k t ≡ none
      → count p (put k v t) ≡ count p t + bit (p v)
  unfolding lookup put count
  count-put_new p k v [] h = ground arith
  count-put_new p k v ((i, w) ∷ t) h = ground (arith, count-put_new p k v t)

  pub find_row-none : (p : V → Bool) (t : Table V) → find_row p t ≡ none → count p t ≡ 0
  unfolding find_row count
  find_row-none p [] h = refl
  find_row-none p ((i, w) ∷ t) h = ground (arith, find_row-none p t)

  -- A new row is found, if it is the only one that passes.
  pub find_row-put_new :
      (p : V → Bool) (k : ℕ) (v : V) (t : Table V)
      → lookup k t ≡ none
      → find_row p t ≡ none
      → p v ≡ true
      → find_row p (put k v t) ≡ some (k, v)
  unfolding lookup put find_row
  find_row-put_new p k v [] h f e = ground arith
  find_row-put_new p k v ((i, w) ∷ t) h f e = ground (arith, find_row-put_new p k v t)

  -- A row that is overwritten alike is found no more than before.
  pub find_row-put_same :
      (p : V → Bool) (k : ℕ) (v old : V) (t : Table V)
      → lookup k t ≡ some old
      → find_row p t ≡ none
      → p v ≡ p old
      → find_row p (put k v t) ≡ none
  unfolding lookup put find_row
  find_row-put_same p k v old [] e n h = ground arith
  find_row-put_same p k v old ((i, w) ∷ t) e n h = ground (arith, find_row-put_same p k v old t)

  -- A row that passes a test is counted.
  pub count_pos :
      (p : V → Bool) (k : ℕ) (v : V) (t : Table V)
      → lookup k t ≡ some v
      → p v ≡ true
      → 1 ≤ count p t
  unfolding lookup count
  count_pos p k v [] e h = ground arith
  count_pos p k v ((i, w) ∷ t) e h = ground (arith, count_pos p k v t)
