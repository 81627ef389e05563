-- ===== src/Interviews/State/Tests.antt =====
-- Concrete runs of the status machine.
use ai_recruitment.Common.{◌≡◌, ◌&&◌, ◌||◌, is_some}
use ai_recruitment.Interviews.State.{
  InterviewStatus, Action, transition, allowed_actions_for_status,
}
use ai_recruitment.Interviews.State.Lifecycle.{
  offers, changes_status, is_late_cancel, transition_iff,
}

transition_iff_example :
    is_some (transition Action.start InterviewStatus.confirmed)
    ≡ (changes_status Action.start
        && offers Action.start (allowed_actions_for_status InterviewStatus.confirmed))
      || is_late_cancel Action.start InterviewStatus.confirmed
transition_iff_example = transition_iff Action.start InterviewStatus.confirmed
