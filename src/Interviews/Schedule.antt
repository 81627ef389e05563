-- ===== src/Interviews/Schedule.antt =====
-- backend/app/services/interview_conflicts.py. Instants are seconds in UTC.
pub mod Overlap
mod Tests
use ai_recruitment.Common.{
  ℕ, Bool, true, false, not, ◌&&◌, Option, none, some, ltb, leb, if◌then◌else◌, Result, ok, err, [],
}
use ai_recruitment.Common.Text.{Text, is_empty, strip}

-- A `datetime`: an instant, or a naive one without a time zone.
pub data DateTime : Type 0 where
  naive aware : ℕ → DateTime

-- The `ValueError`s, by message.
pub data ScheduleError : Type 0 where
  timezone_required invalid_timezone end_not_later : ScheduleError

unfoldable pub intervals_overlap : ℕ → ℕ → ℕ → ℕ → Bool
intervals_overlap existing_start existing_end requested_start requested_end =
    ltb existing_start requested_end && ltb requested_start existing_end

unfoldable pub ensure_aware : DateTime → Result ScheduleError ℕ
ensure_aware (DateTime.naive t) = err timezone_required
ensure_aware (DateTime.aware t) = ok t

-- `timezone_name or ""`, without the white space around it
zone_name : Option Text → Text
unfolding strip
zone_name none = []
zone_name (some name) = strip name

-- `validate_iana_timezone`, given the names that `ZoneInfo` knows
unfoldable pub validate_iana_timezone : (Text → Bool) → Option Text → Result ScheduleError Text
unfolding zone_name
validate_iana_timezone known name =
    if is_empty (zone_name name)
    then err timezone_required
    else if known (zone_name name)
    then ok (zone_name name)
    else err invalid_timezone

-- The comparison of `validate_schedule_window`.
check_order :
    Result ScheduleError ℕ → Result ScheduleError ℕ → Text → Result ScheduleError (ℕ × ℕ × Text)
check_order (err e) finish zone = err e
check_order (ok s) (err e) zone = err e
check_order (ok s) (ok t) zone = if leb t s then err end_not_later else ok (s, t, zone)

unfoldable pub validate_schedule_window :
    (Text → Bool) → DateTime → DateTime → Option Text → Result ScheduleError (ℕ × ℕ × Text)
unfolding ensure_aware check_order
validate_schedule_window known start_at end_at name = elim (validate_iana_timezone known name) [
  | ok zone ↦ check_order (ensure_aware start_at) (ensure_aware end_at) zone
  | err e ↦ err e
]
