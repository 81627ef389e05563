-- ===== src/Interviews/State/Lifecycle.antt =====
-- How the tables and checks of a round's status agree: backend/app/services/interview_state.py.
use ai_recruitment.Common.{
  ◌≡◌, ◌↔◌, Bool, true, false, ◌&&◌, ◌||◌, ◌==◌, List, any, is_some, ok, arith,
}
use ai_recruitment.Interviews.State.{
  InterviewStatus, Action, action_tag, transition, next_status, assert_transition,
  allowed_actions_for_status, filter_actions_for_actor, is_execute,
}

-- `action in actions`
abbrev pub offers : Action → List Action → Bool
offers a actions = any (λ b. action_tag b == action_tag a) actions

-- The actions that change a round's status.
abbrev pub changes_status : Action → Bool
changes_status Action.schedule = true
changes_status Action.cancel = true
changes_status Action.start = true
changes_status Action.finish = true
changes_status Action.complete = true
changes_status Action.end_abnormally = true
changes_status Action.confirm_invitation = true
changes_status _ = false

-- Cancelling a round that is in progress: legal, but not listed.
abbrev pub is_late_cancel : Action → InterviewStatus → Bool
is_late_cancel Action.cancel InterviewStatus.in_progress = true
is_late_cancel _ _ = false

-- The two tables of the module agree: a status change is legal exactly where the action is listed
-- for the status, but for cancelling a round in progress, which is legal and not listed.
pub transition_iff :
    (a : Action) (s : InterviewStatus)
    → is_some (transition a s)
      ≡ (changes_status a && offers a (allowed_actions_for_status s)) || is_late_cancel a s
unfolding transition allowed_actions_for_status
transition_iff a s = ground arith

-- `assert_transition` accepts a target exactly if `next_status` computes it.
assert_transition_iff :
    (current target : InterviewStatus) (a : Action)
    → (assert_transition current target a ≡ ok tt) ↔ (next_status current a ≡ ok target)
unfolding assert_transition next_status
assert_transition_iff current target a = (λ h. ground arith, λ h. ground arith)

-- An actor is offered an action exactly if the status lists it and the actor may manage the round,
-- or may execute it and the action is one of execution.
pub filter_actions_for_actor_iff :
    (a : Action) (s : InterviewStatus) (can_manage can_execute : Bool)
    → offers a (filter_actions_for_actor s can_manage can_execute)
      ≡ offers a (allowed_actions_for_status s) && (can_manage || (can_execute && is_execute a))
unfolding filter_actions_for_actor allowed_actions_for_status is_execute
filter_actions_for_actor_iff a s can_manage can_execute = ground arith
