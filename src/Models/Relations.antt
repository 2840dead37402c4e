-- ===== src/Models/Relations.antt =====
-- SDNSDK/JSONModels/Event: the relations that are aggregated in the unsigned data of an event, of
-- MXEventRelations, MXEventAnnotationChunk, MXEventAnnotation, MXEventReferenceChunk,
-- MXEventReference and MXEventReplace. The relation of a thread (m.thread, MXEventRelationThread),
-- which holds an event in its turn, is left out.
pub mod RoundTrip
use sendingnetwork_ios.Common.{
  ℕ, String, Bool, false, Option, none, some, List, [], is_some, ◌||◌, if◌then◌else◌,
}
use sendingnetwork_ios.Common.Int.{pos}
use sendingnetwork_ios.Common.Dict.{Dict, lookup}
use sendingnetwork_ios.Json.{Json}
use sendingnetwork_ios.Json.Setters.{
  Outcome, returned, ◌>>=◌, word, set_string, set_boolean, set_integer, set_model, set_models,
  perhaps,
}
use sendingnetwork_ios.Json.Writers.{
  put, as_model, models_json, as_text, as_array, as_boolean, as_unsigned,
}

-- MXJSONModelSetInteger of a count, which is an NSUInteger
unfoldable pub set_count : Option Json → ℕ
set_count o = word (set_integer (pos 0) o)

pub record EventAnnotation : Type 0 where
  pub type : String
  pub key : String
  pub count : ℕ

abbrev pub event_annotation : Option String → Option String → ℕ → Option EventAnnotation
event_annotation (some type) (some key) count =
    some (record { type = type; key = key; count = count })
event_annotation _ _ count = none

unfoldable pub event_annotation_from_json : Dict Json → Option EventAnnotation
event_annotation_from_json json =
    event_annotation (set_string none (lookup "type" json)) (set_string none (lookup "key" json))
      (set_count (lookup "count" json))

unfoldable pub event_annotation_json : EventAnnotation → Dict Json
event_annotation_json a =
    put "count" (as_unsigned a.count)
      (put "key" (as_text (some a.key)) (put "type" (as_text (some a.type)) []))

pub record EventAnnotationChunk : Type 0 where
  pub chunk : List EventAnnotation
  pub count : ℕ
  pub limited : Bool

abbrev pub annotation_chunk :
    Dict Json → Option (List EventAnnotation) → Option EventAnnotationChunk
annotation_chunk json none = none
annotation_chunk json (some annotations) = some (record {
  chunk = annotations;
  count = set_count (lookup "count" json);
  limited = set_boolean false (lookup "limited" json);
})

unfoldable pub event_annotation_chunk_from_json : Dict Json → Outcome (Option EventAnnotationChunk)
event_annotation_chunk_from_json json = do
  annotations ← set_models none (perhaps event_annotation_from_json) (lookup "chunk" json)
  returned (annotation_chunk json annotations)

unfoldable pub event_annotation_chunk_json : EventAnnotationChunk → Dict Json
event_annotation_chunk_json c = put "limited" (as_boolean c.limited) (
    put "count" (as_unsigned c.count)
      (put "chunk" (as_array (some (models_json event_annotation_json c.chunk))) []))

pub record EventReference : Type 0 where
  pub event_id : String
  pub type : Option String

abbrev pub event_reference : Option String → Option String → Option EventReference
event_reference none type = none
event_reference (some event_id) type = some (record { event_id = event_id; type = type })

unfoldable pub event_reference_from_json : Dict Json → Option EventReference
event_reference_from_json json =
    event_reference (set_string none (lookup "event_id" json))
      (set_string none (lookup "type" json))

unfoldable pub event_reference_json : EventReference → Dict Json
event_reference_json r = put "type" (as_text r.type) (put "event_id" (as_text (some r.event_id)) [])

pub record EventReferenceChunk : Type 0 where
  pub chunk : List EventReference
  pub count : ℕ
  pub limited : Bool

abbrev pub reference_chunk : Dict Json → Option (List EventReference) → Option EventReferenceChunk
reference_chunk json none = none
reference_chunk json (some references) = some (record {
  chunk = references;
  count = set_count (lookup "count" json);
  limited = set_boolean false (lookup "limited" json);
})

unfoldable pub event_reference_chunk_from_json : Dict Json → Outcome (Option EventReferenceChunk)
event_reference_chunk_from_json json = do
  references ← set_models none (perhaps event_reference_from_json) (lookup "chunk" json)
  returned (reference_chunk json references)

unfoldable pub event_reference_chunk_json : EventReferenceChunk → Dict Json
event_reference_chunk_json c = put "limited" (as_boolean c.limited) (
    put "count" (as_unsigned c.count)
      (put "chunk" (as_array (some (models_json event_reference_json c.chunk))) []))

pub record EventReplace : Type 0 where
  pub event_id : Option String

unfoldable pub event_replace_from_json : Dict Json → Option EventReplace
event_replace_from_json json =
    if is_some (lookup "event_id" json)
    then some (record { event_id = set_string none (lookup "event_id" json) })
    else none

unfoldable pub event_replace_json : EventReplace → Dict Json
event_replace_json r = put "event_id" (as_text r.event_id) []

-- All but the thread.
pub record EventRelations : Type 0 where
  pub annotation : Option EventAnnotationChunk
  pub reference : Option EventReferenceChunk
  pub replace : Option EventReplace

abbrev pub event_relations :
    Option EventAnnotationChunk
    → Option EventReferenceChunk
    → Option EventReplace
    → Option EventRelations
event_relations annotation reference replace =
    if is_some annotation || is_some reference || is_some replace
    then some (record { annotation = annotation; reference = reference; replace = replace })
    else none

unfoldable pub event_relations_from_json : Dict Json → Outcome (Option EventRelations)
event_relations_from_json json = do
  annotation ← set_model none event_annotation_chunk_from_json (lookup "m.annotation" json)
  reference ← set_model none event_reference_chunk_from_json (lookup "m.reference" json)
  replace ← set_model none (perhaps event_replace_from_json) (lookup "m.replace" json)
  returned (event_relations annotation reference replace)

unfoldable pub event_relations_json : EventRelations → Dict Json
event_relations_json r = put "m.replace" (as_model event_replace_json r.replace) (
    put "m.reference" (as_model event_reference_chunk_json r.reference)
      (put "m.annotation" (as_model event_annotation_chunk_json r.annotation) []))
