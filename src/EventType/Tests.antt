-- ===== src/EventType/Tests.antt =====
-- The maps of event types at one type.
use sendingnetwork_ios.Common.{String, ◌≡◌, some}
use sendingnetwork_ios.EventType.{room_member, event_type, event_type_string}
use sendingnetwork_ios.EventType.RoundTrip.{event_type-event_type_string}

event_type-event_type_string_example :
    (s : String) × (event_type_string room_member ≡ some s) × (event_type s ≡ room_member)
event_type-event_type_string_example = event_type-event_type_string room_member (λ e. cc) (λ e. cc)
