-- ===== src/RoomStore/Index.antt =====
-- The index of MXMemoryRoomStore.m against its messages.
use sendingnetwork_ios.Common.{
  ℕ, zero, suc, String, true, false, ◌≡◌, refl, sym, ap, subst, ◌∙◌, ◌↔◌, ◌⊎◌, Option, none, some,
  List, [], ◌∷◌, equal_ids, equal_ids_sound, length, get_elem?, set, arith, Bool-cases,
  Option-cases, inl, inr, ◌==◌, eq_iff, In, In-append, is_some,
}
use sendingnetwork_ios.Common.Dict.{Dict, lookup, insert, lookup-insert}
use sendingnetwork_ios.RoomStore.{
  Event, RoomStore, TimelineDirection, forwards, backwards, init, store_event, replace_event,
  replace_below, remove_all_messages, index_event, add_event, event_with_event_id,
}

-- The index finds messages only, under their ids, and finds one for every id of a message.
pub record Indexes (messages : List Event) (index : Dict Event) : Type 0 where
  pub sound :
      (k : String) (e : Event) → lookup k index ≡ some e → In e messages × (e.event_id ≡ some k)
  pub complete :
      (k : String) (e : Event)
      → In e messages
      → e.event_id ≡ some k
      → is_some (lookup k index) ≡ true

abbrev pub IsIndexed : RoomStore → Type 0
IsIndexed s = Indexes s.messages s.messages_by_event_ids

-- An event comes into the array, and takes the place of one with its id if it takes a place.
record Enters (event : Event) (before after : List Event) : Type 0 where
  entered : In event after
  no_other : (e : Event) → In e after → (event ≡ e) ⊎ In e before
  replaced_only : (e : Event) → In e before → In e after ⊎ (e.event_id ≡ event.event_id)

written :
    (j k : String) (new : Event) (index : Dict Event) (e : Event)
    → (j == k) ≡ true
    → lookup k (insert j new index) ≡ some e
    → new ≡ e
written j k new index e same h = ground (arith, lookup-insert j k new index)

unwritten :
    (j k : String) (new : Event) (index : Dict Event)
    → (j == k) ≡ false
    → lookup k index ≡ lookup k (insert j new index)
unwritten j k new index other = ground (arith, lookup-insert j k new index)

index_event-Indexes :
    (event : Event) (id : Option String) (before after : List Event) (index : Dict Event)
    → event.event_id ≡ id
    → Enters event before after
    → Indexes before index
    → Indexes after (index_event id event index)
index_event-Indexes event none before after index at m v = record {
  sound = λ k e h. elim (m.replaced_only e (v.sound k e h).0) [
    | inl still ↦ (still, (v.sound k e h).1)
    | inr same ↦ absurd (ground (arith, v.sound k e h, same, at))
  ];
  complete = λ k e h id. elim (m.no_other e h) [
    | inl same ↦ absurd (ground (arith, subst (λ x. x.event_id ≡ none) same at))
    | inr old ↦ v.complete k e old id
  ];
}
index_event-Indexes event (some j) before after index at m v = record {
  sound = λ k e h. elim (Bool-cases (j == k)) [
    | inl same ↦
        let found : event ≡ e = written j k event index e same h in
        (
          subst (λ x. In x after) found m.entered,
          ground (arith, (eq_iff j k).0 same, subst (λ x. x.event_id ≡ some j) found at),
        )
    | inr other ↦
        let old = v.sound k e (unwritten j k event index other ∙ h) in
        elim (m.replaced_only e old.0) [
          | inl still ↦ (still, old.1)
          | inr same ↦ absurd (ground (arith, eq_iff j k, other, old.1, same, at))
        ]
  ];
  complete = λ k e h id. elim (Bool-cases (j == k)) [
    | inl same ↦ ground (arith, lookup-insert j k event index, same)
    | inr other ↦ elim (m.no_other e h) [
      | inl same ↦
          absurd (ground (arith, eq_iff j k, other, id, subst (λ x. x.event_id ≡ some j) same at))
      | inr old ↦ ap is_some (sym (unwritten j k event index other)) ∙ v.complete k e old id
    ]
  ];
}

store_event-Enters :
    (event : Event) (direction : TimelineDirection) (messages : List Event)
    → Enters event messages (add_event event direction messages)
store_event-Enters event forwards messages = record {
  entered = (In-append event messages (event ∷ [])).1 (inr (inl refl));
  no_other = λ e h. elim ((In-append e messages (event ∷ [])).0 h) [
    | inl old ↦ inr old
    | inr (inl new) ↦ inl new
    | inr (inr nothing) ↦ absurd nothing
  ];
  replaced_only = λ e h. inl ((In-append e messages (event ∷ [])).1 (inl h));
}
store_event-Enters event backwards messages = record {
  entered = inl refl;
  no_other = λ e h. h;
  replaced_only = λ e h. inl (inr h);
}

set-Enters :
    (event an_event : Event) (i : ℕ) (messages : List Event)
    → get_elem? messages i ≡ some an_event
    → an_event.event_id ≡ event.event_id
    → Enters event messages (set messages i event)
set-Enters event an_event i [] at id = absurd (cc)
set-Enters event an_event zero (x ∷ xs) at id = record {
  entered = inl refl;
  no_other = λ e h. elim h [ inl new ↦ inl new | inr old ↦ inr (inr old) ];
  replaced_only = λ e h. elim h [
    | inl same ↦ inr (ap (λ y. y.event_id) (sym same) ∙ ground arith)
    | inr old ↦ inl (inr old)
  ];
}
set-Enters event an_event (suc i) (x ∷ xs) at id =
    let rest = set-Enters event an_event i xs at id in
    record {
      entered = inr rest.entered;
      no_other = λ e h. elim h [
        | inl first ↦ inr (inl first)
        | inr more ↦ elim (rest.no_other e more) [ inl new ↦ inl new | inr old ↦ inr (inr old) ]
      ];
      replaced_only = λ e h. elim h [
        | inl first ↦ inl (inl first)
        | inr more ↦ elim (rest.replaced_only e more) [
          | inl still ↦ inl (inr still)
          | inr same ↦ inr same
        ]
      ];
    }

pub init-IsIndexed : IsIndexed init
unfolding lookup
init-IsIndexed = record { sound = λ k e h. absurd (cc); complete = λ k e h id. absurd h }

store_event-IsIndexed :
    (event : Event) (direction : TimelineDirection) (s : RoomStore)
    → IsIndexed s
    → IsIndexed (store_event event direction s)
unfolding store_event
store_event-IsIndexed event direction s v =
    index_event-Indexes event event.event_id s.messages (add_event event direction s.messages)
      s.messages_by_event_ids refl (store_event-Enters event direction s.messages) v

replace_below-IsIndexed :
    (index : ℕ) (event : Event) (s : RoomStore)
    → IsIndexed s
    → IsIndexed (replace_below index event s)
unfolding replace_below
replace_below-IsIndexed zero event s v = v
replace_below-IsIndexed (suc index) event s v = elim (Option-cases (get_elem? s.messages index)) [
  | inl out ↦ rw (out, replace_below) (replace_below-IsIndexed index event s v)
  | inr (an_event, at) ↦ elim (Bool-cases (equal_ids an_event.event_id event.event_id)) [
    | inl same ↦
        rw (at, replace_below, same)
          (index_event-Indexes event event.event_id s.messages (set s.messages index event)
            s.messages_by_event_ids refl
            (set-Enters event an_event index s.messages at
              (equal_ids_sound an_event.event_id event.event_id same))
            v)
    | inr other ↦ rw (at, replace_below, other) (replace_below-IsIndexed index event s v)
  ]
]

-- The calls that change the messages of a room.
pub data Call : Type 0 where
  stores : Event → TimelineDirection → Call
  replaces : Event → Call
  removes_all : Call

unfoldable pub step : RoomStore → Call → RoomStore
step s (stores event direction) = store_event event direction s
step s (replaces event) = replace_event event s
step s removes_all = remove_all_messages s

unfoldable pub run : RoomStore → List Call → RoomStore
unfolding step
run s [] = s
run s (call ∷ calls) = run (step s call) calls

pub step-IsIndexed : (s : RoomStore) (call : Call) → IsIndexed s → IsIndexed (step s call)
unfolding step replace_event remove_all_messages lookup
step-IsIndexed s (stores event direction) v = store_event-IsIndexed event direction s v
step-IsIndexed s (replaces event) v = replace_below-IsIndexed (length s.messages) event s v
step-IsIndexed s removes_all v = record {
  sound = λ k e h. absurd (cc);
  complete = λ k e h id. absurd h;
}

kept : (s : RoomStore) (calls : List Call) → IsIndexed s → IsIndexed (run s calls)
unfolding run
kept s [] v = v
kept s (call ∷ calls) v = kept (step s call) calls (step-IsIndexed s call v)

-- After any calls on a new room store, an event that the lookup by an id returns is a stored
-- message with that id.
pub run-event_with_event_id :
    (calls : List Call) (k : String) (e : Event)
    → event_with_event_id k (run init calls) ≡ some e
    → In e (run init calls).messages × (e.event_id ≡ some k)
unfolding event_with_event_id
run-event_with_event_id calls k e h = (kept init calls init-IsIndexed).sound k e h

pub event_exists :
    (s : RoomStore) (k : String)
    → IsIndexed s
    → (is_some (event_with_event_id k s) ≡ true)
      ↔ ((e : Event) × In e s.messages × (e.event_id ≡ some k))
unfolding event_with_event_id
event_exists s k v = (
  (λ h. elim (Option-cases (event_with_event_id k s)) [
    | inl nothing ↦ absurd (ground (arith, nothing, h))
    | inr (e, at) ↦ (e, (v.sound k e at).0, (v.sound k e at).1)
  ]),
  λ (e, h, id). v.complete k e h id,
)

-- After any calls on a new room store, the lookup by an id returns an event exactly when some
-- stored message has the id.
pub run-event_exists :
    (calls : List Call) (k : String)
    → (is_some (event_with_event_id k (run init calls)) ≡ true)
      ↔ ((e : Event) × In e (run init calls).messages × (e.event_id ≡ some k))
run-event_exists calls k = event_exists (run init calls) k (kept init calls init-IsIndexed)
