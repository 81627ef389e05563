-- ===== src/AiTasks/Numbering.antt =====
-- The numbers of a task's attempts, under the moves of AiTasks/Moves.antt.
use ai_recruitment.Common.{
  ℕ, ◌+◌, ◌≡◌, ◌≢◌, ◌∙◌, refl, inl, inr, ◌&&◌, ◌==◌, ltb, leb, none, some, List, [], ◌∷◌, ◌++◌, bit,
  if◌then◌else◌, Bool-cases, arith,
}
use ai_recruitment.Common.Table.{
  Table, lookup, put, count, update_rows, lookup-put, count-put, count-put_new,
}
use ai_recruitment.AiTasks.{AiTask, AiTaskAttempt, recovered_attempt}
use ai_recruitment.AiTasks.Worker.{max_attempt_no, has_number}
use ai_recruitment.AiTasks.Moves.{Ledger, Ends, Move, TaskChange}

-- The attempts of a task are numbered from 1 to a given number, each number once.
pub record Numbers (k : ℕ) (attempts : Table AiTaskAttempt) (last : ℕ) : Type 0 where
  pub highest : max_attempt_no k attempts ≡ last
  pub once : (n : ℕ) → count (has_number k n) attempts ≡ bit (ltb 0 n && leb n last)

-- A task counts its attempts, and one without a row has none.
unfoldable pub IsNumbered : ℕ → Ledger → Type 0
IsNumbered k l =
    ((t : AiTask) → lookup k l.tasks ≡ some t → Numbers k l.attempts t.attempt_count)
    × (lookup k l.tasks ≡ none → Numbers k l.attempts 0)

max_attempt_no-put :
    (k j : ℕ) (a a' : AiTaskAttempt) (t : Table AiTaskAttempt)
    → lookup j t ≡ some a
    → a'.task_id ≡ a.task_id
    → a'.attempt_no ≡ a.attempt_no
    → max_attempt_no k (put j a' t) ≡ max_attempt_no k t
unfolding max_attempt_no lookup put
max_attempt_no-put k j a a' [] e p q = ground (arith, e)
max_attempt_no-put k j a a' ((i, b) ∷ t) e p q =
    ground (arith, e, p, q, max_attempt_no-put k j a a' t)

max_attempt_no-put_new :
    (k j : ℕ) (a : AiTaskAttempt) (t : Table AiTaskAttempt)
    → lookup j t ≡ none
    → max_attempt_no k (put j a t) ≡ (
        if a.task_id == k && ltb (max_attempt_no k t) a.attempt_no
        then a.attempt_no
        else max_attempt_no k t)
unfolding max_attempt_no lookup put
max_attempt_no-put_new k j a [] e = refl
max_attempt_no-put_new k j a ((i, b) ∷ t) e = ground (arith, e, max_attempt_no-put_new k j a t)

max_attempt_no-recovered :
    (now id k : ℕ) (t : Table AiTaskAttempt)
    → max_attempt_no k (update_rows (recovered_attempt now id) t) ≡ max_attempt_no k t
unfolding max_attempt_no update_rows recovered_attempt
max_attempt_no-recovered now id k [] = refl
max_attempt_no-recovered now id k ((j, a) ∷ t) = ground (arith, max_attempt_no-recovered now id k t)

count-recovered_same :
    (now id k n : ℕ) (t : Table AiTaskAttempt)
    → count (has_number k n) (update_rows (recovered_attempt now id) t) ≡ count (has_number k n) t
unfolding count update_rows recovered_attempt
count-recovered_same now id k n [] = refl
count-recovered_same now id k n ((j, a) ∷ t) = ground (arith, count-recovered_same now id k n t)

-- An attempt that ends keeps its number.
pub end-Numbers :
    (k j m : ℕ) (a a' : AiTaskAttempt) (t : Table AiTaskAttempt)
    → lookup j t ≡ some a
    → Ends a a'
    → Numbers k t m
    → Numbers k (put j a' t) m
end-Numbers k j m a a' t f d h = record {
  highest = max_attempt_no-put k j a a' t f d.same_task d.same_no ∙ h.highest;
  once =
      λ n. ground (arith, count-put (has_number k n) j a' a t f, d.same_task, d.same_no, h.once n);
}

recover-Numbers :
    (now id k m : ℕ) (t : Table AiTaskAttempt)
    → Numbers k t m
    → Numbers k (update_rows (recovered_attempt now id) t) m
recover-Numbers now id k m t h = record {
  highest = max_attempt_no-recovered now id k t ∙ h.highest;
  once = λ n. count-recovered_same now id k n t ∙ h.once n;
}

-- The next attempt of a task takes the next number.
pub start-Numbers :
    (k j m : ℕ) (a : AiTaskAttempt) (t : Table AiTaskAttempt)
    → lookup j t ≡ none
    → a.task_id ≡ k
    → a.attempt_no ≡ max_attempt_no k t + 1
    → Numbers k t m
    → Numbers k (put j a t) (max_attempt_no k t + 1)
start-Numbers k j m a t e i n h = record {
  highest = ground (arith, max_attempt_no-put_new k j a t e, i, n);
  once = λ p. ground (arith, count-put_new (has_number k p) j a t e, i, n, h.once p, h.highest);
}

start-Numbers_other :
    (k j m : ℕ) (a : AiTaskAttempt) (t : Table AiTaskAttempt)
    → lookup j t ≡ none
    → a.task_id ≢ k
    → Numbers k t m
    → Numbers k (put j a t) m
start-Numbers_other k j m a t e i h = record {
  highest = ground (arith, max_attempt_no-put_new k j a t e, i, h.highest);
  once = λ p. ground (arith, count-put_new (has_number k p) j a t e, i, h.once p);
}

-- What a move must show of the task it is about, and of the others.
put-IsNumbered :
    (k id : ℕ) (t t' : AiTask) (l : Ledger) (attempts : Table AiTaskAttempt) (claimed : List ℕ)
    → lookup id l.tasks ≡ some t
    → IsNumbered k l
    → (k ≢ id → (m : ℕ) → Numbers k l.attempts m → Numbers k attempts m)
    → (k ≡ id → Numbers k l.attempts t.attempt_count → Numbers k attempts t'.attempt_count)
    → IsNumbered k (record { tasks = put id t' l.tasks; attempts = attempts; claimed = claimed })
unfolding IsNumbered
put-IsNumbered k id t t' l attempts claimed e (h, g) other own = elim (Bool-cases (id == k)) [
  | inl y ↦
      let x : k ≡ id = ground (arith, y) in
      (
        λ v q.
            let w : v ≡ t' = ground (arith, q, lookup-put k id t' l.tasks, y) in
            rw w (own x (h t (rw x e))),
        λ q. ground (arith, q, lookup-put k id t' l.tasks, y),
      )
  | inr n ↦
      let x : k ≢ id = λ z. ground (arith, z, n) in
      (
        λ v q. other x v.attempt_count (h v (ground (arith, q, lookup-put k id t' l.tasks, n))),
        λ q. other x 0 (g (ground (arith, q, lookup-put k id t' l.tasks, n))),
      )
]

create-IsNumbered :
    (k id : ℕ) (t' : AiTask) (l : Ledger)
    → lookup id l.tasks ≡ none
    → t'.attempt_count ≡ 0
    → IsNumbered k l
    → IsNumbered k (record l { tasks = put id t' l.tasks })
unfolding IsNumbered
create-IsNumbered k id t' l e c (h, g) = (
  λ v q. elim (Bool-cases (id == k)) [
    | inl y ↦
        let x : k ≡ id = ground (arith, y) in
        let w : v ≡ t' = ground (arith, q, lookup-put k id t' l.tasks, y) in rw (w, c) (g (rw x e))
    | inr n ↦ h v (ground (arith, q, lookup-put k id t' l.tasks, n))
  ],
  λ q. g (ground (arith, q, lookup-put k id t' l.tasks)),
)

Move-IsNumbered : (k : ℕ) {l l' : Ledger} → Move l l' → IsNumbered k l → IsNumbered k l'
unfolding IsNumbered
Move-IsNumbered k {l} (Move.create id t' e p c m) h = create-IsNumbered k id t' l e m h
Move-IsNumbered k {l} (Move.claim id t t' e p u s c) h =
    put-IsNumbered k id t t' l l.attempts (id ∷ l.claimed) e h (λ x m w. w)
      (λ x w. rw u.same_count w)
Move-IsNumbered k {l} (Move.start id j t t' a before behind o e n y s c m i w r) h =
    put-IsNumbered k id t t' l (put j a l.attempts) (before ++ behind) e h
      (λ x b v. start-Numbers_other k j b a l.attempts n (λ z. ground (arith, z, x, i)) v)
      (λ x v. rw (m, x) (start-Numbers id j t.attempt_count a l.attempts n i w (rw (← x) v)))
Move-IsNumbered k {l} (Move.settle id j t t' a a' e f i p r u d s c b) h =
    put-IsNumbered k id t t' l (put j a' l.attempts) l.claimed e h
      (λ x m w. end-Numbers k j m a a' l.attempts f d w)
      (λ x w. rw u.same_count (end-Numbers k j t.attempt_count a a' l.attempts f d w))
Move-IsNumbered k {l} (Move.late id j t t' a a' e f i p u d s c) h =
    put-IsNumbered k id t t' l (put j a' l.attempts) l.claimed e h
      (λ x m w. end-Numbers k j m a a' l.attempts f d w)
      (λ x w. rw u.same_count (end-Numbers k j t.attempt_count a a' l.attempts f d w))
Move-IsNumbered k {l} (Move.steer id t t' e p u s c) h =
    put-IsNumbered k id t t' l l.attempts l.claimed e h (λ x m w. w) (λ x w. rw u.same_count w)
Move-IsNumbered k {l} (Move.recover now id t t' o e p u s c) h =
    put-IsNumbered k id t t' l (update_rows (recovered_attempt now id) l.attempts) l.claimed e h
      (λ x m w. recover-Numbers now id k m l.attempts w)
      (λ x w. rw u.same_count (recover-Numbers now id k t.attempt_count l.attempts w))
Move-IsNumbered k (Move.abandon id before behind o) h = h
Move-IsNumbered k Move.rest h = h

pub TaskChange-IsNumbered :
    (k : ℕ) {l l' : Ledger} → TaskChange l l' → IsNumbered k l → IsNumbered k l'
TaskChange-IsNumbered k (TaskChange.by m) h = Move-IsNumbered k m h
TaskChange-IsNumbered k {l} (TaskChange.overwrite id j t t' a a' e f i u d) h =
    put-IsNumbered k id t t' l (put j a' l.attempts) l.claimed e h
      (λ x m w. end-Numbers k j m a a' l.attempts f d w)
      (λ x w. rw u.same_count (end-Numbers k j t.attempt_count a a' l.attempts f d w))
