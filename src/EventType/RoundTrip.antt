-- ===== src/EventType/RoundTrip.antt =====
-- The two maps of event types against each other.
use mathlib.Core.Option
use sendingnetwork_ios.Common.{
  String, ◌≡◌, refl, ◌⊎◌, inl, inr, true, some, arith, is_some, ◌≢◌, Option-cases,
}
use sendingnetwork_ios.EventType.{
  EventType, room_name, custom, space_order, event_type, event_type_string,
}

back :
    (t : EventType)
    → Option.map event_type (event_type_string t) ≡ Option.map (λ _. t) (event_type_string t)
unfolding event_type event_type_string
back room_name = refl
back _ = refl

known : (t : EventType) → (is_some (event_type_string t) ≡ true) ⊎ (t ≡ space_order) ⊎ (t ≡ custom)
unfolding event_type_string
known space_order = inr (inl refl)
known custom = inr (inr refl)
known _ = inl refl

-- Every type but `space_order` and `custom` has a text, and `event_type` reads the type back from it.
pub event_type-event_type_string :
    (t : EventType)
    → t ≢ space_order
    → t ≢ custom
    → (s : String) × (event_type_string t ≡ some s) × (event_type s ≡ t)
event_type-event_type_string t h k = elim (Option-cases (event_type_string t)) [
  | inl e ↦ absurd (ground (arith, known t))
  | inr (s, e) ↦ (s, e, ground (arith, back t))
]
