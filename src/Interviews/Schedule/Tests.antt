-- ===== src/Interviews/Schedule/Tests.antt =====
-- Concrete schedules.
use ai_recruitment.Common.{ℕ, ◌≡◌, ◌≤◌, ◌<◌, ◌↔◌, refl, true, some}
use ai_recruitment.Common.Text.{codes, text_eq, strip}
use ai_recruitment.Interviews.Schedule.{
  DateTime, intervals_overlap, validate_iana_timezone, validate_schedule_window,
}
use ai_recruitment.Interviews.Schedule.Overlap.{intervals_overlap_iff}

intervals_overlap_iff_example :
    (intervals_overlap 100 200 150 300 ≡ true)
    ↔ ((t : ℕ) × (100 ≤ t) × (t < 200) × (150 ≤ t) × (t < 300))
unfolding validate_schedule_window validate_iana_timezone strip text_eq
intervals_overlap_iff_example =
    intervals_overlap_iff (text_eq (codes "Asia/Shanghai")) (DateTime.aware 100)
      (DateTime.aware 200) (DateTime.aware 150) (DateTime.aware 300) (some (codes " Asia/Shanghai"))
      (some (codes "Asia/Shanghai")) (100, 200, codes "Asia/Shanghai")
      (150, 300, codes "Asia/Shanghai") refl refl
