-- ===== src/Models/EventLists/RoundTrip.antt =====
-- What is read back of a list of events.
use sendingnetwork_ios.Common.{ℕ, String, Option, none, some, List, [], ◌∷◌, ◌≡◌, refl, ap}
use sendingnetwork_ios.Json.{elements-items}
use sendingnetwork_ios.Json.Setters.{returned, models_from_json, set_models, made}
use sendingnetwork_ios.Json.Writers.{as_array}
use sendingnetwork_ios.Json.ReadBack.{AreThere, model_list_back}
use sendingnetwork_ios.Models.Events.{Event, event_from_json, event_json}
use sendingnetwork_ios.Models.Events.RoundTrip.{IsReadEvent, event_from_json-event_json}
use sendingnetwork_ios.Models.EventLists.{events_json, events_from_json}

-- An event that was read by `now`, with a sender.
abbrev pub IsRead : (now : ℕ) → Event → Type 0
IsRead now e = (sender : String) × IsReadEvent now sender e

-- A list of events as it is read: nil, or at least one event.
abbrev pub IsReadList : (now : ℕ) → Option (List Event) → Type 0
IsReadList now = AreThere (IsRead now)

event_back :
    (now : ℕ) (e : Event)
    → IsRead now e
    → made (event_from_json now) (event_json now e) ≡ returned (some e)
event_back now e h = rw (event_from_json-event_json now h.0 e h.1) refl

nothing_back :
    (now : ℕ) → set_models none (made (event_from_json now)) (as_array (some [])) ≡ returned none
unfolding set_models as_array models_from_json
nothing_back now = ap (models_from_json (made (event_from_json now))) (elements-items [])

pub events_from_json-events_json :
    (now : ℕ) (o : Option (List Event))
    → IsReadList now o
    → events_from_json now (events_json now o) ≡ returned o
unfolding events_from_json
events_from_json-events_json now none h = nothing_back now
events_from_json-events_json now (some []) h = absurd h
events_from_json-events_json now (some (e ∷ es)) h =
    model_list_back (made (event_from_json now)) (event_json now) (IsRead now) (event_back now) e es
      h
