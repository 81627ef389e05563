-- ===== src/AiTasks/Soundness.antt =====
-- Invariants of the moves of AiTasks/Moves.antt, for one task: who runs, and how often.
use ai_recruitment.Common.{
  ℕ, ◌+◌, ◌≤◌, ◌≡◌, ◌≢◌, refl, inl, inr, true, ◌==◌, none, some, List, [], ◌∷◌, ◌++◌, bit,
  occurrences, occurrences-insert, Bool-cases, arith,
}
use ai_recruitment.Common.Table.{
  Table, lookup, put, count, update_rows, lookup-put, count-put, count-put_new, count_pos,
}
use ai_recruitment.AiTasks.{AiTask, AiTaskAttempt, is_pending, is_running, recovered_attempt}
use ai_recruitment.AiTasks.Worker.{ai_task_max_attempts}
use ai_recruitment.AiTasks.Recovery.{runs_for, count-recovered_attempt}
use ai_recruitment.AiTasks.Moves.{
  Ledger, Move, create, claim, start, settle, late, steer, recover, abandon, rest,
}

-- A task has at most one running attempt or claim under way, and only while it runs; attempts and
-- claim of its cycle, and the attempt that a pending task still has to get, are within the limit.
pub record Sound (k : ℕ) (l : Ledger) (t : AiTask) : Type 0 where
  pub one_run : count (runs_for k) l.attempts + occurrences k l.claimed ≤ bit (is_running t.status)
  pub in_limit :
      t.cycle_attempt_count + occurrences k l.claimed + bit (is_pending t.status)
      ≤ ai_task_max_attempts

-- A task with a row is sound, and one without has nothing that runs.
unfoldable pub IsSound : ℕ → Ledger → Type 0
IsSound k l =
    ((t : AiTask) → lookup k l.tasks ≡ some t → Sound k l t)
    × (lookup k l.tasks ≡ none → count (runs_for k) l.attempts + occurrences k l.claimed ≡ 0)

count-recovered_le :
    (now id k : ℕ) (t : Table AiTaskAttempt)
    → count (runs_for k) (update_rows (recovered_attempt now id) t) ≤ count (runs_for k) t
unfolding count update_rows recovered_attempt
count-recovered_le now id k [] = omega arith
count-recovered_le now id k ((j, a) ∷ t) = ground (arith, count-recovered_le now id k t)

-- What a move must show of the task it is about, and of the others.
put-IsSound :
    (k id : ℕ) (t t' : AiTask) (l : Ledger) (attempts : Table AiTaskAttempt) (claimed : List ℕ)
    → lookup id l.tasks ≡ some t
    → IsSound k l
    → (k ≢ id
        → (count (runs_for k) attempts ≤ count (runs_for k) l.attempts)
          × (occurrences k claimed ≡ occurrences k l.claimed))
    → (k ≡ id
        → Sound k l t
        → Sound k (record { tasks = put id t' l.tasks; attempts = attempts; claimed = claimed }) t')
    → IsSound k (record { tasks = put id t' l.tasks; attempts = attempts; claimed = claimed })
unfolding IsSound
put-IsSound k id t t' l attempts claimed e (h, g) other own = (
  λ v q. elim (Bool-cases (id == k)) [
    | inl y ↦
        let x : k ≡ id = ground (arith, y) in
        let w : v ≡ t' = ground (arith, q, lookup-put k id t' l.tasks, y) in
        rw w (own x (h t (rw x e)))
    | inr n ↦
        let x : k ≢ id = λ z. ground (arith, z, n) in
        let f : lookup k l.tasks ≡ some v = ground (arith, q, lookup-put k id t' l.tasks, n) in
        let s = h v f in
        record {
          one_run = omega (arith, s.one_run, (other x).0, (other x).1);
          in_limit = omega (arith, s.in_limit, (other x).1);
        }
  ],
  λ q. elim (Bool-cases (id == k)) [
    | inl y ↦ ground (arith, q, lookup-put k id t' l.tasks, y)
    | inr n ↦
        let x : k ≢ id = λ z. ground (arith, z, n) in
        let f : lookup k l.tasks ≡ none = ground (arith, q, lookup-put k id t' l.tasks, n) in
        omega (arith, g f, (other x).0, (other x).1)
  ],
)

create-IsSound :
    (k id : ℕ) (t' : AiTask) (l : Ledger)
    → lookup id l.tasks ≡ none
    → is_pending t'.status ≡ true
    → t'.cycle_attempt_count ≡ 0
    → IsSound k l
    → IsSound k (record l { tasks = put id t' l.tasks })
unfolding IsSound
create-IsSound k id t' l e p c (h, g) = (
  λ v q. elim (Bool-cases (id == k)) [
    | inl y ↦
        let x : k ≡ id = ground (arith, y) in
        let w : v ≡ t' = ground (arith, q, lookup-put k id t' l.tasks, y) in
        let n = g (rw x e) in
        rw w (record { one_run = omega (arith, n); in_limit = ground (arith, n, c) })
    | inr n ↦
        let s = h v (ground (arith, q, lookup-put k id t' l.tasks, n)) in
        record { one_run = s.one_run; in_limit = s.in_limit }
  ],
  λ q. g (ground (arith, q, lookup-put k id t' l.tasks)),
)

pub Move-IsSound : (k : ℕ) {l l' : Ledger} → Move l l' → IsSound k l → IsSound k l'
unfolding IsSound
Move-IsSound k {l} (create id t' e p c m) h = create-IsSound k id t' l e p c h
Move-IsSound k {l} (claim id t t' e p u s c) h =
    put-IsSound k id t t' l l.attempts (id ∷ l.claimed) e h (λ n. (omega arith, ground (arith, n)))
      (λ x v. record {
        one_run = ground (arith, v.one_run, v.in_limit, p, s, x);
        in_limit = ground (arith, v.one_run, v.in_limit, p, s, x, c);
      })
Move-IsSound k {l} (start id j t t' a before behind o e n y s c m i w r) h =
    let f = count-put_new (runs_for k) j a l.attempts n in
    let g : occurrences k l.claimed ≡ bit (id == k) + occurrences k (before ++ behind) =
      rw o (occurrences-insert k id before behind) in
    put-IsSound k id t t' l (put j a l.attempts) (before ++ behind) e h
      (λ z. (ground (arith, f, i, z), ground (arith, g, z)))
      (λ x v. record {
        one_run = ground (arith, v.one_run, f, g, i, r, s, x);
        in_limit = ground (arith, v.in_limit, g, s, c, x);
      })
Move-IsSound k {l} (settle id j t t' a a' e f i p r u d s c b) h =
    let g = count-put (runs_for k) j a' a l.attempts f in
    put-IsSound k id t t' l (put j a' l.attempts) l.claimed e h
      (λ z. (ground (arith, g, i, d.same_task, z), refl))
      (λ x v. record {
        one_run = ground (arith, v.one_run, g, i, p, r, s, d.same_task, d.over, x);
        in_limit =
            let own : runs_for k a ≡ true = ground (arith, i, x, r) in
            let n = count_pos (runs_for k) j a l.attempts f own in
            elim (Bool-cases (is_pending t'.status)) [
              | inl y ↦ ground (arith, b y, y, c, n, v.one_run, p)
              | inr y ↦ ground (arith, y, c, n, v.one_run, v.in_limit, p)
            ];
      })
Move-IsSound k {l} (late id j t t' a a' e f i p u d s c) h =
    let g = count-put (runs_for k) j a' a l.attempts f in
    put-IsSound k id t t' l (put j a' l.attempts) l.claimed e h
      (λ z. (ground (arith, g, d.over), refl))
      (λ x v. record {
        one_run = ground (arith, v.one_run, g, d.over, s);
        in_limit = ground (arith, v.in_limit, s, c);
      })
Move-IsSound k {l} (steer id t t' e p u s c) h =
    put-IsSound k id t t' l l.attempts l.claimed e h (λ z. (omega arith, refl))
      (λ x v. record {
        one_run = ground (arith, v.one_run, p, s);
        in_limit =
            let none_claimed : occurrences k l.claimed ≡ 0 = ground (arith, v.one_run, p) in
            ground (arith, none_claimed, c (ground (arith, v.in_limit, none_claimed)));
      })
Move-IsSound k {l} (recover now id t t' o e p u s c) h =
    put-IsSound k id t t' l (update_rows (recovered_attempt now id) l.attempts) l.claimed e h
      (λ z. (count-recovered_le now id k l.attempts, refl))
      (λ x v. record {
        one_run = ground (arith, count-recovered_attempt now id l.attempts, o, x, s);
        in_limit = ground (arith, v.in_limit, s, c, p);
      })
Move-IsSound k {l} (abandon id before behind o) h =
    let g : occurrences k l.claimed ≡ bit (id == k) + occurrences k (before ++ behind) =
      rw o (occurrences-insert k id before behind) in
    (
      λ t e.
          let v = h.0 t e in
          record { one_run = omega (arith, v.one_run, g); in_limit = omega (arith, v.in_limit, g) },
      λ n. omega (arith, h.1 n, g),
    )
Move-IsSound k rest h = h
