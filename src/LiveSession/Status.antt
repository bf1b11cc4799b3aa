-- ===== src/LiveSession/Status.antt =====
-- The life cycle of a live session.
use aieas_backend.Prelude.{
  ℕ, String, Bool, true, false, ◌||◌, ◌&&◌, ◌==◌, str_eq, if◌then◌else◌, ◌≡◌,
}

pub data LiveSessionStatus : Type 0 where
  draft scheduled live ended cancelled : LiveSessionStatus
  other_session_status : String → LiveSessionStatus

abbrev session_code : LiveSessionStatus → ℕ
session_code draft = 0
session_code scheduled = 1
session_code live = 2
session_code ended = 3
session_code cancelled = 4
session_code (other_session_status _) = 5

abbrev session_text : LiveSessionStatus → String
session_text (other_session_status s) = s
session_text _ = ""

unfoldable pub session_status_eq : LiveSessionStatus → LiveSessionStatus → Bool
session_status_eq a b = session_code a == session_code b && str_eq (session_text a) (session_text b)

-- CanTransitionLiveSession
unfoldable pub can_transition_live_session : LiveSessionStatus → LiveSessionStatus → Bool
unfolding session_status_eq
can_transition_live_session from to = if session_status_eq from to then true else elim from [
  | draft ↦
      session_status_eq to scheduled || session_status_eq to live || session_status_eq to cancelled
  | scheduled ↦
      session_status_eq to draft || session_status_eq to live || session_status_eq to cancelled
  | live ↦ session_status_eq to ended
  | _ ↦ false
]

-- Changes that the function allows, one after another.
pub data Changes (a : LiveSessionStatus) : LiveSessionStatus → Type 0 where
  here : Changes a a
  next :
      {b c : LiveSessionStatus} → Changes a b → can_transition_live_session b c ≡ true → Changes a c
