-- ===== src/Interviews.antt =====
-- Interview rounds: the status machine of backend/app/services/interview_state.py and the schedule
-- checks of backend/app/services/interview_conflicts.py.
pub mod State
pub mod Schedule
