-- ===== src/Interviews/State.antt =====
-- backend/app/services/interview_state.py, with the statuses of backend/app/models/interview.py.
pub mod Lifecycle
mod Tests
use ai_recruitment.Common.{
  ℕ, Bool, true, false, ◌==◌, Option, none, some, List, [], ◌∷◌, keep, Result, ok, err,
  if◌then◌else◌,
}

pub data InterviewStatus : Type 0 where
  draft scheduled confirmed in_progress pending_transcript : InterviewStatus
  completed cancelled ended_abnormally : InterviewStatus

pub data Action : Type 0 where
  edit schedule reschedule cancel start finish complete end_abnormally : Action
  generate_invitation view_invitation confirm_invitation generate_cancellation : Action

pub data InterviewStateError : Type 0 where
  illegal_transition : InterviewStateError

-- The place of a status in the order of declaration, and of an action: for comparing them.
abbrev pub status_tag : InterviewStatus → ℕ
status_tag InterviewStatus.draft = 0
status_tag InterviewStatus.scheduled = 1
status_tag InterviewStatus.confirmed = 2
status_tag InterviewStatus.in_progress = 3
status_tag InterviewStatus.pending_transcript = 4
status_tag InterviewStatus.completed = 5
status_tag InterviewStatus.cancelled = 6
status_tag InterviewStatus.ended_abnormally = 7

abbrev pub action_tag : Action → ℕ
action_tag Action.edit = 0
action_tag Action.schedule = 1
action_tag Action.reschedule = 2
action_tag Action.cancel = 3
action_tag Action.start = 4
action_tag Action.finish = 5
action_tag Action.complete = 6
action_tag Action.end_abnormally = 7
action_tag Action.generate_invitation = 8
action_tag Action.view_invitation = 9
action_tag Action.confirm_invitation = 10
action_tag Action.generate_cancellation = 11

-- `_TRANSITIONS.get((action, current))`
unfoldable pub transition : Action → InterviewStatus → Option InterviewStatus
transition Action.schedule InterviewStatus.draft = some scheduled
transition Action.confirm_invitation InterviewStatus.scheduled = some confirmed
transition Action.start InterviewStatus.scheduled = some in_progress
transition Action.start InterviewStatus.confirmed = some in_progress
transition Action.finish InterviewStatus.in_progress = some pending_transcript
transition Action.complete InterviewStatus.pending_transcript = some completed
transition Action.cancel InterviewStatus.draft = some cancelled
transition Action.cancel InterviewStatus.scheduled = some cancelled
transition Action.cancel InterviewStatus.confirmed = some cancelled
transition Action.cancel InterviewStatus.in_progress = some cancelled
transition Action.end_abnormally InterviewStatus.in_progress = some ended_abnormally
transition _ _ = none

-- `_ACTIONS_BY_STATUS` behind `allowed_actions_for_status`
unfoldable pub allowed_actions_for_status : InterviewStatus → List Action
allowed_actions_for_status InterviewStatus.draft = edit ∷ schedule ∷ cancel ∷ []
allowed_actions_for_status InterviewStatus.scheduled =
    edit ∷ reschedule ∷ cancel ∷ start ∷ generate_invitation ∷ view_invitation ∷ confirm_invitation
    ∷ []
allowed_actions_for_status InterviewStatus.confirmed =
    edit ∷ reschedule ∷ cancel ∷ start ∷ view_invitation ∷ []
allowed_actions_for_status InterviewStatus.in_progress = finish ∷ end_abnormally ∷ []
allowed_actions_for_status InterviewStatus.pending_transcript = complete ∷ []
allowed_actions_for_status InterviewStatus.completed = []
allowed_actions_for_status InterviewStatus.cancelled = generate_cancellation ∷ view_invitation ∷ []
allowed_actions_for_status InterviewStatus.ended_abnormally = []

-- `action in EXECUTE_ACTIONS`
unfoldable pub is_execute : Action → Bool
is_execute Action.start = true
is_execute Action.finish = true
is_execute Action.end_abnormally = true
is_execute Action.view_invitation = true
is_execute _ = false

-- `next_status`
unfoldable pub next_status : InterviewStatus → Action → Result InterviewStateError InterviewStatus
unfolding transition
next_status current action = elim (transition action current) [
  | none ↦ err illegal_transition
  | some s ↦ ok s
]

-- `assert_transition`
unfoldable pub assert_transition :
    InterviewStatus → InterviewStatus → Action → Result InterviewStateError (Unit {0})
unfolding transition
assert_transition current target action = elim (transition action current) [
  | none ↦ err illegal_transition
  | some s ↦ (if status_tag s == status_tag target then ok tt else err illegal_transition)
]

-- `filter_actions_for_actor`
unfoldable pub filter_actions_for_actor : InterviewStatus → Bool → Bool → List Action
unfolding allowed_actions_for_status is_execute
filter_actions_for_actor status can_manage can_execute =
    if can_manage
    then allowed_actions_for_status status
    else if can_execute
    then keep is_execute (allowed_actions_for_status status)
    else []
