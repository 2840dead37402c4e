-- ===== src/Models/Events/Reading.antt =====
-- What holds of every event that MXEvent.m reads from JSON.
use sendingnetwork_ios.Common.{
  ℕ, String, true, false, Option, none, some, ◌≡◌, refl, inl, inr, arith, subst, ap, ◌∙◌,
}
use sendingnetwork_ios.Common.Int.{pos, negsuc}
use sendingnetwork_ios.Common.Dict.{Dict, lookup, remove, lookup-remove_same}
use sendingnetwork_ios.Json.{
  Json, Number, integer, boolean, null, text, number, array, dictionary, remove_null_values_in_json,
}
use sendingnetwork_ios.Json.Nulls.{
  remove_null_values_in_json-remove, remove_null_values_in_json-remove_null_values_in_json,
}
use sendingnetwork_ios.Json.Setters.{
  Outcome, raised, returned, ◌>>=◌, set_string, set_dictionary, set_unsigned, unsigned_value,
  set_model, made,
}
use sendingnetwork_ios.Json.ReadBack.{IfThere, Returns, Returns->>=, set_model-IfThere}
use sendingnetwork_ios.Models.Relations.{EventRelations, event_relations_from_json}
use sendingnetwork_ios.Models.Relations.RoundTrip.{
  IsReadRelations, event_relations_from_json-IsReadRelations,
}
use sendingnetwork_ios.Json.Writers.{IsWord, as_text}
use sendingnetwork_ios.Models.Events.{
  Event, EventUnsignedData, event_with, event_from_json, event_json, set_age,
  event_unsigned_data_from_json, finalise_content, wire_content_fixing_non_string_msgtypes,
  text_or_gone,
}
use sendingnetwork_ios.Models.Events.RoundTrip.{
  IsPast, IsReadUnsigned, NamesReplacement, IsReadEvent, event_from_json-event_json,
}

unsigned_value-IsWord : (n : Number) → IsWord (unsigned_value n)
unfolding unsigned_value
unsigned_value-IsWord (integer (pos n)) = omega arith
unsigned_value-IsWord (integer (negsuc n)) = omega arith
unsigned_value-IsWord (boolean true) = omega arith
unsigned_value-IsWord (boolean false) = omega arith

set_unsigned-IsWord : (o : Option Json) → IsWord (set_unsigned 0 o)
unfolding set_unsigned
set_unsigned-IsWord none = omega arith
set_unsigned-IsWord (some null) = omega arith
set_unsigned-IsWord (some (text s)) = omega arith
set_unsigned-IsWord (some (number n)) = unsigned_value-IsWord n
set_unsigned-IsWord (some (array xs)) = omega arith
set_unsigned-IsWord (some (dictionary f)) = omega arith

set_age-IsPast : (now : ℕ) (o : Option Json) → IsWord now → IsPast now (set_age now o)
set_age-IsPast now none h = inl refl
set_age-IsPast now (some null) h = inl refl
set_age-IsPast now (some (text s)) h = inl refl
set_age-IsPast now (some (number n)) h = inr (omega arith, h)
set_age-IsPast now (some (array xs)) h = inl refl
set_age-IsPast now (some (dictionary f)) h = inl refl

event_unsigned_data_from_json-IsReadUnsigned :
    (now : ℕ) (d : Dict Json)
    → IsWord now
    → Returns (IfThere (IsReadUnsigned now)) (made (event_unsigned_data_from_json now) d)
unfolding event_unsigned_data_from_json
event_unsigned_data_from_json-IsReadUnsigned now d h =
    by_relations (set_model none event_relations_from_json (lookup "m.relations" d)) (
      set_model-IfThere IsReadRelations event_relations_from_json
        event_relations_from_json-IsReadRelations (lookup "m.relations" d))
  where
    by_relations :
        (m : Outcome (Option EventRelations))
        → Returns (IfThere IsReadRelations) m
        → Returns (IfThere (IsReadUnsigned now)) (do
          u ← do
            relations ← m
            returned (record {
              age_local_ts = set_age now (lookup "age" d);
              replaces_state = set_string none (lookup "replaces_state" d);
              prev_sender = set_string none (lookup "prev_sender" d);
              prev_content = set_dictionary none (lookup "prev_content" d);
              redacted_because = set_dictionary none (lookup "redacted_because" d);
              transaction_id = set_string none (lookup "transaction_id" d);
              invite_room_state = set_dictionary none (lookup "invite_room_state" d);
              relations = relations;
            })
          returned (some u))
    by_relations raised r = tt
    by_relations (returned relations) r = (set_age-IsPast now (lookup "age" d) h, r)

removed_again :
    (d : Dict Json)
    → remove_null_values_in_json d ≡ d
    → finalise_content (some (remove "msgtype" d)) ≡ some (remove "msgtype" d)
unfolding finalise_content wire_content_fixing_non_string_msgtypes
removed_again d clean =
    let e : remove_null_values_in_json (remove "msgtype" d) ≡ remove "msgtype" d =
      remove_null_values_in_json-remove "msgtype" d ∙ ap (remove "msgtype") clean in
    rw (e, lookup-remove_same "msgtype" "msgtype" d refl) refl

fixed_again :
    (o : Option Json) (d : Dict Json)
    → lookup "msgtype" d ≡ o
    → remove_null_values_in_json d ≡ d
    → finalise_content (some (text_or_gone o d)) ≡ some (text_or_gone o d)
unfolding finalise_content wire_content_fixing_non_string_msgtypes
fixed_again none d at clean = rw (clean, at) refl
fixed_again (some (text s)) d at clean = rw (clean, at) refl
fixed_again (some null) d at clean = removed_again d clean
fixed_again (some (number n)) d at clean = removed_again d clean
fixed_again (some (array xs)) d at clean = removed_again d clean
fixed_again (some (dictionary f)) d at clean = removed_again d clean

pub finalise_content-finalise_content :
    (o : Option (Dict Json)) → finalise_content (finalise_content o) ≡ finalise_content o
unfolding finalise_content wire_content_fixing_non_string_msgtypes
finalise_content-finalise_content none = refl
finalise_content-finalise_content (some d) =
    fixed_again (lookup "msgtype" (remove_null_values_in_json d)) (remove_null_values_in_json d)
      refl (remove_null_values_in_json-remove_null_values_in_json d)

both :
    (now : ℕ) (o : Option EventUnsignedData)
    → IfThere (IsReadUnsigned now) o
    → IfThere NamesReplacement o
    → IfThere (λ u. IsReadUnsigned now u × NamesReplacement u) o
both now none h named = tt
both now (some u) h named = (h, named)

event_with-IsReadEvent :
    (now : ℕ) (sender : String) (json : Dict Json) (o : Option EventUnsignedData)
    → IsWord now
    → lookup "sender" json ≡ some (text sender)
    → IfThere (IsReadUnsigned now) o
    → IfThere NamesReplacement o
    → IsReadEvent now sender (event_with now json o)
unfolding set_string as_text
event_with-IsReadEvent now sender json o h at unsigned named = record {
  has_sender = rw at refl;
  is_sent = refl;
  is_typed = refl;
  content_is_final =
      finalise_content-finalise_content (set_dictionary none (lookup "content" json));
  prev_content_is_final =
      finalise_content-finalise_content (set_dictionary none (lookup "prev_content" json));
  timestamp_is_word = set_unsigned-IsWord (lookup "origin_server_ts" json);
  age_is_past = set_age-IsPast now (lookup "age" json) h;
  unsigned_is_read = both now o unsigned named;
}

event_from_json-Returns :
    (now : ℕ) (sender : String) (json : Dict Json)
    → IsWord now
    → lookup "sender" json ≡ some (text sender)
    → Returns
        (λ e. IfThere NamesReplacement e.unsigned_data → IsReadEvent now sender e)
        (event_from_json now json)
unfolding event_from_json
event_from_json-Returns now sender json h at =
    Returns->>= (IfThere (IsReadUnsigned now))
      (λ e. IfThere NamesReplacement e.unsigned_data → IsReadEvent now sender e)
      (set_model none (made (event_unsigned_data_from_json now)) (lookup "unsigned" json))
      (λ o. returned (event_with now json o))
      (set_model-IfThere (IsReadUnsigned now) (made (event_unsigned_data_from_json now))
        (λ d. event_unsigned_data_from_json-IsReadUnsigned now d h) (lookup "unsigned" json))
      (λ o unsigned named. event_with-IsReadEvent now sender json o h at unsigned named)

-- An event that was read, with a sender and with a replacement, if any, that names its event.
pub event_from_json-IsReadEvent :
    (now : ℕ) (sender : String) (json : Dict Json) (e : Event)
    → IsWord now
    → lookup "sender" json ≡ some (text sender)
    → event_from_json now json ≡ returned e
    → IfThere NamesReplacement e.unsigned_data
    → IsReadEvent now sender e
event_from_json-IsReadEvent now sender json e h at read named =
    subst (Returns (λ e'. IfThere NamesReplacement e'.unsigned_data → IsReadEvent now sender e'))
      read (event_from_json-Returns now sender json h at) named

-- JSON of an event that has no relation of a thread.
abbrev pub WithoutThread : Dict Json → Type 0
WithoutThread json =
    IfThere
      (λ unsigned.
        IfThere (λ relations. lookup "m.thread" relations ≡ none)
          (set_dictionary none (lookup "m.relations" unsigned)))
      (set_dictionary none (lookup "unsigned" json))

-- An event is read from JSON with a sender and without the relation of a thread, written and read
-- again, all at one time that fits 64 bits: if the first reading raises nothing, and its replacement
-- relation, where it has one, names the replaced event, the second reading raises nothing either and
-- gives the same event.
pub event_from_json-event_json-event_from_json :
    (now : ℕ) (sender : String) (json : Dict Json) (e : Event)
    → IsWord now
    → lookup "sender" json ≡ some (text sender)
    → WithoutThread json
    → event_from_json now json ≡ returned e
    → IfThere NamesReplacement e.unsigned_data
    → event_from_json now (event_json now e) ≡ returned e
event_from_json-event_json-event_from_json now sender json e h at plain read named =
    event_from_json-event_json now sender e
      (event_from_json-IsReadEvent now sender json e h at read named)
