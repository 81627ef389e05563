-- ===== src/Interviews/Schedule/Overlap.antt =====
-- When two interview schedules collide (backend/app/services/interview_conflicts.py).
use ai_recruitment.Common.{
  ℕ, ◌≡◌, ◌≤◌, ◌<◌, ◌↔◌, inl, inr, Bool, true, Option, ok, leb, arith, Bool-cases,
}
use ai_recruitment.Common.Text.{Text}
use ai_recruitment.Interviews.Schedule.{DateTime, intervals_overlap, validate_schedule_window}

-- A window that is accepted is not empty.
validate_schedule_window-order :
    (known : Text → Bool) (start_at end_at : DateTime) (name : Option Text) (w : ℕ × ℕ × Text)
    → validate_schedule_window known start_at end_at name ≡ ok w
    → w.0 < w.1
unfolding validate_schedule_window
validate_schedule_window-order known start_at end_at name w h = ground arith

overlap_from :
    (a b c d : ℕ)
    → a < b
    → c < d
    → intervals_overlap a b c d ≡ true
    → (t : ℕ) × (a ≤ t) × (t < b) × (c ≤ t) × (t < d)
unfolding intervals_overlap
overlap_from a b c d p q h = elim (Bool-cases (leb a c)) [
  | inl e ↦ (c, ground arith, ground arith, ground arith, ground arith)
  | inr e ↦ (a, ground arith, ground arith, ground arith, ground arith)
]

-- Two windows that `validate_schedule_window` has accepted overlap exactly if some instant lies in
-- both, where a window holds its start and not its end.
pub intervals_overlap_iff :
    (known : Text → Bool) (start_at end_at start_at' end_at' : DateTime) (name name' : Option Text)
    (w w' : ℕ × ℕ × Text)
    → validate_schedule_window known start_at end_at name ≡ ok w
    → validate_schedule_window known start_at' end_at' name' ≡ ok w'
    → (intervals_overlap w.0 w.1 w'.0 w'.1 ≡ true)
      ↔ ((t : ℕ) × (w.0 ≤ t) × (t < w.1) × (w'.0 ≤ t) × (t < w'.1))
unfolding intervals_overlap
intervals_overlap_iff known start_at end_at start_at' end_at' name name' w w' h h' =
    let p = validate_schedule_window-order known start_at end_at name w h in
    let q = validate_schedule_window-order known start_at' end_at' name' w' h' in
    (overlap_from w.0 w.1 w'.0 w'.1 p q, λ (t, a, b, c, d). ground arith)
