-- ===== src/Models/Events/RoundTrip.antt =====
-- What is read back of an event that MXEvent.m writes to JSON.
use sendingnetwork_ios.Common.{
  ℕ, String, Option, none, some, ◌≡◌, refl, ◌≤◌, ◌⊎◌, inl, inr, eqb, arith, Bool-cases, sym,
}
use sendingnetwork_ios.Common.Dict.{Dict, lookup}
use sendingnetwork_ios.EventType.{EventType}
use sendingnetwork_ios.Json.{Json, text}
use sendingnetwork_ios.Json.Setters.{returned, set_string, set_model, made, unsigned_value}
use sendingnetwork_ios.Json.ReadBack.{IfThere, model_back}
use sendingnetwork_ios.Json.Writers.{
  json_laws, set_unsigned-as_unsigned, as_text, as_unsigned, as_model, IsWord,
}
use sendingnetwork_ios.Models.Relations.{
  EventRelations, event_relations_from_json, event_relations_json,
}
use sendingnetwork_ios.Models.Relations.RoundTrip.{IsReadRelations, NamesReplaced, relations_back}
use sendingnetwork_ios.Models.Events.{
  Event, EventUnsignedData, sent, event_from_json, event_json, set_age, as_age, undefined_timestamp,
  event_unsigned_data_from_json, event_unsigned_data_json, finalise_content, event_type_of,
  presence_sender,
}

-- A time stamp that was taken from an age: undefined, or not later than now.
abbrev pub IsPast : (now ts : ℕ) → Type 0
IsPast now ts = (ts ≡ undefined_timestamp) ⊎ ((ts ≤ now) × IsWord now)

-- Unsigned data as they are read.
abbrev pub IsReadUnsigned : (now : ℕ) → EventUnsignedData → Type 0
IsReadUnsigned now u = IsPast now u.age_local_ts × IfThere IsReadRelations u.relations

-- Unsigned data whose replacement, if they have one, names its event.
abbrev pub NamesReplacement : EventUnsignedData → Type 0
NamesReplacement u = IfThere (λ r. IfThere NamesReplaced r.replace) u.relations

set_age-as_age : (now ts : ℕ) → IsPast now ts → set_age now (as_age now ts) ≡ ts
unfolding as_unsigned unsigned_value
set_age-as_age now ts h = elim (Bool-cases (eqb ts undefined_timestamp)) [
  | inl no_age ↦ rw no_age (ground arith)
  | inr aged ↦ rw aged (ground arith)
]

aggregated_back :
    (o : Option EventRelations)
    → IfThere IsReadRelations o
    → IfThere (λ r. IfThere NamesReplaced r.replace) o
    → set_model none event_relations_from_json (as_model event_relations_json o) ≡ returned o
unfolding set_model
aggregated_back none h named = refl
aggregated_back (some r) h named =
    model_back event_relations_from_json event_relations_json
      (λ r. IsReadRelations r × IfThere NamesReplaced r.replace) (λ r h. relations_back r h.0 h.1)
      (some r) (h, named)

unsigned_back :
    (now : ℕ) (u : EventUnsignedData)
    → IsReadUnsigned now u × NamesReplacement u
    → made (event_unsigned_data_from_json now) (event_unsigned_data_json now u) ≡ returned (some u)
unfolding event_unsigned_data_from_json event_unsigned_data_json lookup
unsigned_back now u h =
    simp (json_laws, set_age-as_age now u.age_local_ts h.0.0, aggregated_back u.relations h.0.1 h.1)
      refl

-- What holds of every event with a sender that `event_from_json` has returned by `now`, if its
-- replacement, where it has one, names its event.
pub record IsReadEvent (now : ℕ) (sender : String) (e : Event) : Type 0 where
  pub has_sender : e.sender ≡ some (text sender)
  pub is_sent : e.sent_state ≡ sent
  pub is_typed : event_type_of e.wire_type ≡ e.wire_event_type
  pub content_is_final : finalise_content e.wire_content ≡ e.wire_content
  pub prev_content_is_final : finalise_content e.prev_content ≡ e.prev_content
  pub timestamp_is_word : IsWord e.origin_server_ts
  pub age_is_past : IsPast now e.age_local_ts
  pub unsigned_is_read : IfThere (λ u. IsReadUnsigned now u × NamesReplacement u) e.unsigned_data

sender_read :
    (s : String) (type : EventType) (content : Option (Dict Json))
    → presence_sender (set_string none (some (text s))) type content ≡ some (text s)
unfolding set_string as_text
sender_read s type content = refl

-- An event with a sender that was read is read again from the JSON that it makes, if no time passes
-- in between.
pub event_from_json-event_json :
    (now : ℕ) (sender : String) (e : Event)
    → IsReadEvent now sender e
    → event_from_json now (event_json now e) ≡ returned e
unfolding event_from_json event_json lookup
event_from_json-event_json now sender e h =
    simp
      (
        json_laws,
        set_age-as_age now e.age_local_ts h.age_is_past,
        set_unsigned-as_unsigned 0 e.origin_server_ts h.timestamp_is_word,
        model_back (made (event_unsigned_data_from_json now)) (event_unsigned_data_json now)
            (λ u. IsReadUnsigned now u × NamesReplacement u) (unsigned_back now) e.unsigned_data
            h.unsigned_is_read,
        h.has_sender,
        h.is_typed,
        h.content_is_final,
        h.prev_content_is_final,
        sender_read,
      )
      (λ i. returned (record e { sender = sym h.has_sender i; sent_state = sym h.is_sent i }))
