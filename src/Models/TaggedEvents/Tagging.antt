-- ===== src/Models/TaggedEvents/Tagging.antt =====
-- What tagging and untagging an event do to the tags that are read, of MXTaggedEvents.m.
use sendingnetwork_ios.Common.{
  String, Bool, true, false, Option, none, some, [], ◌∷◌, ◌≡◌, refl, ap, sym, ◌∙◌, ◌==◌, ◌&&◌,
  arith, eq_iff, eq_refl, if◌then◌else◌,
}
use sendingnetwork_ios.Common.Dict.{Dict, lookup, insert, remove, lookup-insert, lookup-remove}
use sendingnetwork_ios.Json.{
  Json, null, text, number, array, dictionary, fields, entries, entries-fields,
}
use sendingnetwork_ios.Json.Setters.{Outcome, raised, returned, ◌>>=◌, subscripted}
use sendingnetwork_ios.Models.TaggedEvents.{
  TaggedEventInfo, tagged_event_info_json, TaggedEvents, tag_event, untag_event, untag_in,
  without_event, or_new,
}

-- What is read of an event under a tag.
abbrev entry_in : String → Option Json → Option Json
entry_in event_id (some (dictionary f)) = lookup event_id (entries f)
entry_in event_id _ = none

abbrev pub entry_of : String → String → TaggedEvents → Option Json
entry_of event_id tag t = entry_in event_id (lookup tag (or_new t.tags))

abbrev pub info_json : TaggedEventInfo → Json
info_json info = dictionary (fields (tagged_event_info_json info))

abbrev with_event : String → TaggedEventInfo → Dict Json → Dict Json
with_event event_id info d = insert event_id (info_json info) d

abbrev got : Outcome (Dict Json) → Dict Json
got raised = []
got (returned d) = d

got_entry :
    (other : String) (v : Option Json) → lookup other (got (subscripted v)) ≡ entry_in other v
unfolding lookup
got_entry other none = refl
got_entry other (some (dictionary f)) = refl
got_entry other (some null) = refl
got_entry other (some (text s)) = refl
got_entry other (some (number n)) = refl
got_entry other (some (array xs)) = refl

-- What is read of an event after the dictionary under a tag was written, or removed when empty.
entry_in-insert :
    (other u tag : String) (d tags : Dict Json)
    → entry_in other (lookup u (insert tag (dictionary (fields d)) tags))
      ≡ (if tag == u then lookup other d else entry_in other (lookup u tags))
entry_in-insert other u tag d tags =
    ap (entry_in other) (lookup-insert tag u (dictionary (fields d)) tags) ∙ either (tag == u)
  where
    either :
        (b : Bool)
        → entry_in other (if b then some (dictionary (fields d)) else lookup u tags)
          ≡ (if b then lookup other d else entry_in other (lookup u tags))
    either true = ap (lookup other) (entries-fields d)
    either false = refl

entry_in-without_event :
    (other u tag : String) (d tags : Dict Json)
    → entry_in other (lookup u (without_event tag d tags))
      ≡ (if tag == u then lookup other d else entry_in other (lookup u tags))
unfolding lookup
entry_in-without_event other u tag (e ∷ d) tags = entry_in-insert other u tag (e ∷ d) tags
entry_in-without_event other u tag [] tags =
    ap (entry_in other) (lookup-remove tag u tags) ∙ either (tag == u)
  where
    either :
        (b : Bool)
        → entry_in other (if b then none else lookup u tags)
          ≡ (if b then none else entry_in other (lookup u tags))
    either true = refl
    either false = refl

-- Whether an event stands under a tag or not, it is read as before when its entry was written and
-- removed, and the rest is untouched.
written_and_removed :
    (same_tag : Bool) (event_id other : String) (v : Json) (d : Dict Json) (o p : Option Json)
    → (same_tag ≡ true → lookup other d ≡ o)
    → (if same_tag
        then lookup other (remove event_id (insert event_id v d))
        else if same_tag
        then p
        else o)
      ≡ (if same_tag && event_id == other then none else o)
written_and_removed true event_id other v d o p h = ground (
  arith,
  h refl,
  lookup-remove event_id other (insert event_id v d),
  lookup-insert event_id other v d,
)
written_and_removed false event_id other v d o p h = refl

tag_event_lem :
    (event_id tag : String) (info : TaggedEventInfo) (t : TaggedEvents) (d : Dict Json)
    → subscripted (lookup tag (or_new t.tags)) ≡ returned d
    → tag_event event_id info tag t
      ≡ returned (record {
        tags = some (insert tag (dictionary (fields (with_event event_id info d))) (or_new t.tags));
      })
unfolding tag_event
tag_event_lem event_id tag info t d h = rw h refl

untag_in_lem :
    (event_id tag : String) (tags d : Dict Json)
    → lookup tag tags ≡ some (dictionary (fields d))
    → untag_in event_id tag (some tags)
      ≡ returned (record { tags = some (without_event tag (remove event_id d) tags) })
untag_in_lem event_id tag tags d h = rw h (
    ap (λ e. returned (record { tags = some (without_event tag (remove event_id e) tags) }))
      (entries-fields d))

-- Where the tag of an event can be written, tagging the event and untagging it succeeds, takes the
-- event's entry under that tag away, whatever it was before, and leaves every other entry alone.
pub untag_event-tag_event :
    (event_id tag : String) (info : TaggedEventInfo) (t : TaggedEvents) (d : Dict Json)
    → subscripted (lookup tag (or_new t.tags)) ≡ returned d
    → (s : TaggedEvents) × ((do
      tagged ← tag_event event_id info tag t
      untag_event event_id tag tagged)
        ≡ returned s)
      × ((other u : String)
          → entry_of other u s
            ≡ (if (tag == u) && (event_id == other) then none else entry_of other u t))
unfolding untag_event
untag_event-tag_event event_id tag info t d h =
    let tags = or_new t.tags in
    let written = with_event event_id info d in
    let tags' = insert tag (dictionary (fields written)) tags in
    (
      record { tags = some (without_event tag (remove event_id written) tags') },
      ap (λ r. do tagged ← r; untag_event event_id tag tagged)
            (tag_event_lem event_id tag info t d h)
          ∙ untag_in_lem event_id tag tags' written
              (lookup-insert tag tag (dictionary (fields written)) tags ∙ rw (eq_refl tag) refl),
      λ other u.
          entry_in-without_event other u tag (remove event_id written) tags'
          ∙ ap (λ e. if tag == u then lookup other (remove event_id written) else e)
              (entry_in-insert other u tag written tags)
          ∙ written_and_removed (tag == u) event_id other (info_json info) d (entry_of other u t)
              (lookup other written)
              (λ same.
                ap (λ r. lookup other (got r)) (sym h)
                ∙ got_entry other (lookup tag tags)
                ∙ ap (λ k. entry_in other (lookup k tags)) ((eq_iff tag u).0 same)),
    )
