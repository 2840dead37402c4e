-- ===== src/Models/Relations/RoundTrip.antt =====
-- What is read of the relations of an event, and what is read back of them.
use sendingnetwork_ios.Common.{
  ℕ, ◌^◌, ◌%◌, String, Bool, true, Option, none, some, List, [], ◌∷◌, is_some, ◌||◌, ◌≡◌, refl, ap,
  arith, sym, Bool-cases, inl, inr,
}
use sendingnetwork_ios.Common.Int.{ℤ, pos, negsuc}
use sendingnetwork_ios.Common.Dict.{Dict, lookup}
use sendingnetwork_ios.Json.{Json}
use sendingnetwork_ios.Json.Setters.{
  Outcome, raised, returned, word, integer_value, set_integer, set_string, set_model, set_models,
  perhaps,
}
use sendingnetwork_ios.Json.Writers.{json_laws, as_text, as_unsigned, IsWord, lookup-put}
use sendingnetwork_ios.Json.ReadBack.{
  IfThere, AreThere, Returns, Returns->>=, model_back, model_list_back, set_models-AreThere,
  set_model-IfThere,
}
use sendingnetwork_ios.Models.Relations.{
  set_count, EventAnnotation, event_annotation, event_annotation_from_json, event_annotation_json,
  EventAnnotationChunk, annotation_chunk, event_annotation_chunk_from_json,
  event_annotation_chunk_json, EventReference, event_reference_from_json, event_reference_json,
  EventReferenceChunk, reference_chunk, event_reference_chunk_from_json, event_reference_chunk_json,
  EventReplace, event_replace_from_json, event_replace_json, EventRelations, event_relations,
  event_relations_from_json, event_relations_json,
}

word-IsWord : (n : ℤ) → IsWord (word n)
word-IsWord (pos n) = omega arith
word-IsWord (negsuc n) = omega arith

set_count-as_unsigned : (n : ℕ) → IsWord n → set_count (as_unsigned n) ≡ n
unfolding set_count as_unsigned set_integer integer_value
set_count-as_unsigned n h = let e : n % 2 ^ 64 ≡ n = omega arith in rw e (ground arith)

-- A count that fits 64 bits.
abbrev pub IsAnnotation : EventAnnotation → Type 0
IsAnnotation a = IsWord a.count

annotation_back :
    (a : EventAnnotation)
    → IsAnnotation a
    → perhaps event_annotation_from_json (event_annotation_json a) ≡ returned (some a)
unfolding event_annotation_from_json event_annotation_json lookup
annotation_back a h = simp (json_laws, set_count-as_unsigned a.count h) refl

event_annotation-IsAnnotation :
    (type key : Option String) (o : Option Json)
    → IfThere IsAnnotation (event_annotation type key (set_count o))
unfolding set_count
event_annotation-IsAnnotation none key o = tt
event_annotation-IsAnnotation (some type) none o = tt
event_annotation-IsAnnotation (some type) (some key) o = word-IsWord _

event_annotation_from_json-IsAnnotation :
    (d : Dict Json) → IfThere IsAnnotation (event_annotation_from_json d)
unfolding event_annotation_from_json
event_annotation_from_json-IsAnnotation d =
    event_annotation-IsAnnotation (set_string none (lookup "type" d)) _ (lookup "count" d)

-- At least one of them, and a count that fits 64 bits.
abbrev pub IsAnnotationChunk : EventAnnotationChunk → Type 0
IsAnnotationChunk c = AreThere IsAnnotation (some c.chunk) × IsWord c.count

annotation_chunk_back :
    (c : EventAnnotationChunk)
    → IsAnnotationChunk c
    → event_annotation_chunk_from_json (event_annotation_chunk_json c) ≡ returned (some c)
unfolding event_annotation_chunk_from_json event_annotation_chunk_json lookup
annotation_chunk_back c h = by_chunk c.chunk c.count c.limited h.0 h.1
  where
    by_chunk :
        (xs : List EventAnnotation) (n : ℕ) (b : Bool)
        → AreThere IsAnnotation (some xs)
        → IsWord n
        → event_annotation_chunk_from_json
            (event_annotation_chunk_json (record { chunk = xs; count = n; limited = b }))
          ≡ returned (some (record { chunk = xs; count = n; limited = b }))
    by_chunk [] n b at h = absurd at
    by_chunk (x ∷ xs) n b at h =
        simp
          (
            json_laws,
            model_list_back (perhaps event_annotation_from_json) event_annotation_json IsAnnotation
                annotation_back x xs at,
            set_count-as_unsigned n h,
          )
          refl

set_annotation_chunk :
    (json : Dict Json) (o : Option (List EventAnnotation))
    → AreThere IsAnnotation o
    → IfThere IsAnnotationChunk (annotation_chunk json o)
unfolding set_count
set_annotation_chunk json none h = tt
set_annotation_chunk json (some []) h = absurd h
set_annotation_chunk json (some (x ∷ xs)) h = (h, word-IsWord _)

event_annotation_chunk_from_json-IsAnnotationChunk :
    (json : Dict Json) → Returns (IfThere IsAnnotationChunk) (event_annotation_chunk_from_json json)
unfolding event_annotation_chunk_from_json
event_annotation_chunk_from_json-IsAnnotationChunk json =
    Returns->>= (AreThere IsAnnotation) (IfThere IsAnnotationChunk)
      (set_models none (perhaps event_annotation_from_json) (lookup "chunk" json))
      (λ o. returned (annotation_chunk json o))
      (set_models-AreThere IsAnnotation event_annotation_from_json
        event_annotation_from_json-IsAnnotation (lookup "chunk" json))
      (λ o h. set_annotation_chunk json o h)

-- Any reference can be read back.
abbrev pub IsReference : EventReference → Type 0
IsReference r = Unit

reference_back :
    (r : EventReference)
    → IsReference r
    → perhaps event_reference_from_json (event_reference_json r) ≡ returned (some r)
unfolding event_reference_from_json event_reference_json lookup
reference_back r h = simp json_laws refl

any-IsReference : (o : Option EventReference) → IfThere IsReference o
any-IsReference none = tt
any-IsReference (some r) = tt

event_reference_from_json-IsReference :
    (d : Dict Json) → IfThere IsReference (event_reference_from_json d)
event_reference_from_json-IsReference d = any-IsReference (event_reference_from_json d)

-- At least one of them, and a count that fits 64 bits.
abbrev pub IsReferenceChunk : EventReferenceChunk → Type 0
IsReferenceChunk c = AreThere IsReference (some c.chunk) × IsWord c.count

reference_chunk_back :
    (c : EventReferenceChunk)
    → IsReferenceChunk c
    → event_reference_chunk_from_json (event_reference_chunk_json c) ≡ returned (some c)
unfolding event_reference_chunk_from_json event_reference_chunk_json lookup
reference_chunk_back c h = by_chunk c.chunk c.count c.limited h.0 h.1
  where
    by_chunk :
        (xs : List EventReference) (n : ℕ) (b : Bool)
        → AreThere IsReference (some xs)
        → IsWord n
        → event_reference_chunk_from_json
            (event_reference_chunk_json (record { chunk = xs; count = n; limited = b }))
          ≡ returned (some (record { chunk = xs; count = n; limited = b }))
    by_chunk [] n b at h = absurd at
    by_chunk (x ∷ xs) n b at h =
        simp
          (
            json_laws,
            model_list_back (perhaps event_reference_from_json) event_reference_json IsReference
                reference_back x xs at,
            set_count-as_unsigned n h,
          )
          refl

set_reference_chunk :
    (json : Dict Json) (o : Option (List EventReference))
    → AreThere IsReference o
    → IfThere IsReferenceChunk (reference_chunk json o)
unfolding set_count
set_reference_chunk json none h = tt
set_reference_chunk json (some []) h = absurd h
set_reference_chunk json (some (x ∷ xs)) h = (h, word-IsWord _)

event_reference_chunk_from_json-IsReferenceChunk :
    (json : Dict Json) → Returns (IfThere IsReferenceChunk) (event_reference_chunk_from_json json)
unfolding event_reference_chunk_from_json
event_reference_chunk_from_json-IsReferenceChunk json =
    Returns->>= (AreThere IsReference) (IfThere IsReferenceChunk)
      (set_models none (perhaps event_reference_from_json) (lookup "chunk" json))
      (λ o. returned (reference_chunk json o))
      (set_models-AreThere IsReference event_reference_from_json
        event_reference_from_json-IsReference (lookup "chunk" json))
      (λ o h. set_reference_chunk json o h)

-- A replacement that names its event.
abbrev pub NamesReplaced : EventReplace → Type 0
NamesReplaced r = (event_id : String) × (r.event_id ≡ some event_id)

replace_back :
    (r : EventReplace)
    → NamesReplaced r
    → perhaps event_replace_from_json (event_replace_json r) ≡ returned (some r)
unfolding event_replace_from_json event_replace_json lookup as_text set_string
replace_back r (event_id, at) =
    simp (lookup-put, at) (ap (λ o. returned (some (record { event_id = o }))) (sym at))

-- Relations as they are read: at least one, chunks that are not empty, and counts of 64 bits.
pub record IsReadRelations (r : EventRelations) : Type 0 where
  pub annotation_is_read : IfThere IsAnnotationChunk r.annotation
  pub reference_is_read : IfThere IsReferenceChunk r.reference
  pub is_related : (is_some r.annotation || is_some r.reference || is_some r.replace) ≡ true

pub relations_back :
    (r : EventRelations)
    → IsReadRelations r
    → IfThere NamesReplaced r.replace
    → event_relations_from_json (event_relations_json r) ≡ returned (some r)
unfolding event_relations_from_json event_relations_json lookup
relations_back r h named =
    simp
      (
        lookup-put,
        model_back event_annotation_chunk_from_json event_annotation_chunk_json IsAnnotationChunk
            annotation_chunk_back r.annotation h.annotation_is_read,
        model_back event_reference_chunk_from_json event_reference_chunk_json IsReferenceChunk
            reference_chunk_back r.reference h.reference_is_read,
        model_back (perhaps event_replace_from_json) event_replace_json NamesReplaced replace_back
            r.replace named,
        h.is_related,
      )
      refl

relations_there :
    (annotation : Option EventAnnotationChunk) (reference : Option EventReferenceChunk)
    (replace : Option EventReplace)
    → IfThere IsAnnotationChunk annotation
    → IfThere IsReferenceChunk reference
    → IfThere IsReadRelations (event_relations annotation reference replace)
relations_there annotation reference replace a r =
    elim (Bool-cases (is_some annotation || is_some reference || is_some replace)) [
      | inl there ↦
          rw there (record { annotation_is_read = a; reference_is_read = r; is_related = there })
      | inr gone ↦ rw gone tt
    ]

pub event_relations_from_json-IsReadRelations :
    (json : Dict Json) → Returns (IfThere IsReadRelations) (event_relations_from_json json)
unfolding event_relations_from_json
event_relations_from_json-IsReadRelations json =
    Returns->>= (IfThere IsAnnotationChunk) (IfThere IsReadRelations)
      (set_model none event_annotation_chunk_from_json (lookup "m.annotation" json)) _
      (set_model-IfThere IsAnnotationChunk event_annotation_chunk_from_json
        event_annotation_chunk_from_json-IsAnnotationChunk (lookup "m.annotation" json))
      (λ annotation a.
        Returns->>= (IfThere IsReferenceChunk) (IfThere IsReadRelations)
          (set_model none event_reference_chunk_from_json (lookup "m.reference" json)) _
          (set_model-IfThere IsReferenceChunk event_reference_chunk_from_json
            event_reference_chunk_from_json-IsReferenceChunk (lookup "m.reference" json))
          (λ reference r.
            Returns->>= (λ o. Unit) (IfThere IsReadRelations)
              (set_model none (perhaps event_replace_from_json) (lookup "m.replace" json)) _
              (anything
                (set_model none (perhaps event_replace_from_json) (lookup "m.replace" json)))
              (λ replace u. relations_there annotation reference replace a r)))
  where
    anything : (m : Outcome (Option EventReplace)) → Returns (λ o. Unit) m
    anything raised = tt
    anything (returned o) = tt
