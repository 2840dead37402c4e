-- ===== src/MemoryStore/Rooms.antt =====
-- The calls on the rooms of MXMemoryStore.m, and the store of each room.
use sendingnetwork_ios.Common.{
  String, Bool, true, false, ◌≡◌, refl, sym, ap, subst, ◌∙◌, ◌↔◌, Option, none, some, List, [], ◌∷◌,
  if◌then◌else◌, ◌==◌, eq_iff, Bool-cases, inl, inr, In,
}
use sendingnetwork_ios.Common.Dict.{
  lookup, lookup-insert_same, lookup-insert_other, lookup-remove_same, lookup-remove_other,
}
use sendingnetwork_ios.RoomStore.{
  Event, RoomStore, TimelineDirection, event_with_event_id, store_event, replace_event,
  remove_all_messages,
}
use sendingnetwork_ios.RoomStore as Room
use sendingnetwork_ios.RoomStore.Index.{
  event_exists, IsIndexed, init-IsIndexed, step-IsIndexed, stores, replaces, removes_all, step,
}
use sendingnetwork_ios.MemoryStore.{
  MemoryStore, init, or_new, room_store, put_room, store_event_for_room, replace_event_in_room,
  delete_all_messages_in_room, delete_room, store_pagination_token,
  store_has_reached_node_pagination_end, store_has_loaded_all_room_members,
  store_partial_text_message, event_exists_in_room,
}

-- The calls that change the store of a room.
pub data RoomCall : Type 0 where
  stores_event : Event → TimelineDirection → RoomCall
  replaces_event : Event → RoomCall
  deletes_all_messages deletes_room : RoomCall
  stores_pagination_token : Option String → RoomCall
  stores_node_pagination_end stores_loaded_members : Bool → RoomCall
  stores_partial_text : Option String → RoomCall

unfoldable pub call_room : MemoryStore → String × RoomCall → MemoryStore
call_room s (room_id, stores_event event direction) = store_event_for_room room_id event direction s
call_room s (room_id, replaces_event event) = replace_event_in_room event room_id s
call_room s (room_id, deletes_all_messages) = delete_all_messages_in_room room_id s
call_room s (room_id, deletes_room) = delete_room room_id s
call_room s (room_id, stores_pagination_token token) = store_pagination_token room_id token s
call_room s (room_id, stores_node_pagination_end value) =
    store_has_reached_node_pagination_end room_id value s
call_room s (room_id, stores_loaded_members value) =
    store_has_loaded_all_room_members room_id value s
call_room s (room_id, stores_partial_text text) = store_partial_text_message room_id text s

unfoldable pub call_rooms : MemoryStore → List (String × RoomCall) → MemoryStore
unfolding call_room
call_rooms s [] = s
call_rooms s (call ∷ calls) = call_rooms (call_room s call) calls

-- What a call does to the room it is about.
abbrev pub effect : RoomCall → RoomStore → RoomStore
effect (stores_event event direction) room = store_event event direction room
effect (replaces_event event) room = replace_event event room
effect deletes_all_messages room = record (remove_all_messages room) {
  pagination_token = none;
  has_reached_node_pagination_end = false;
}
effect deletes_room room = Room.init
effect (stores_pagination_token token) room = record room { pagination_token = token }
effect (stores_node_pagination_end value) room = record room {
  has_reached_node_pagination_end = value;
}
effect (stores_loaded_members value) room = record room {
  has_loaded_all_room_members_for_room = value;
}
effect (stores_partial_text text) room = record room { partial_attributed_text_message = text }

-- The calls on one room, from its store on.
abbrev pub effects : String → List (String × RoomCall) → RoomStore → RoomStore
effects room_id [] room = room
effects room_id ((id, call) ∷ calls) room =
    effects room_id calls (if id == room_id then effect call room else room)

pub room_store-put :
    (id room_id : String) (f : RoomStore → RoomStore) (s : MemoryStore)
    → room_store room_id (put_room id (f (room_store id s)) s)
      ≡ (if id == room_id then f (room_store room_id s) else room_store room_id s)
room_store-put id room_id f s = elim (Bool-cases (id == room_id)) [
  | inl same ↦ rw same (
      ap (or_new Room.init) (lookup-insert_same id room_id (f (room_store id s)) s.room_stores same)
      ∙ ap (λ i. f (room_store i s)) ((eq_iff id room_id).0 same))
  | inr other ↦ rw other (
      ap (or_new Room.init)
        (lookup-insert_other id room_id (f (room_store id s)) s.room_stores other))
]

pub room_store-delete :
    (id room_id : String) (s : MemoryStore)
    → room_store room_id (delete_room id s)
      ≡ (if id == room_id then Room.init else room_store room_id s)
unfolding delete_room
room_store-delete id room_id s = elim (Bool-cases (id == room_id)) [
  | inl same ↦ rw same (ap (or_new Room.init) (lookup-remove_same id room_id s.room_stores same))
  | inr other ↦
      rw other (ap (or_new Room.init) (lookup-remove_other id room_id s.room_stores other))
]

room_store-call :
    (id room_id : String) (call : RoomCall) (s : MemoryStore)
    → room_store room_id (call_room s (id, call))
      ≡ (if id == room_id then effect call (room_store room_id s) else room_store room_id s)
unfolding call_room store_event_for_room replace_event_in_room delete_all_messages_in_room
    store_pagination_token store_has_reached_node_pagination_end store_has_loaded_all_room_members
    store_partial_text_message
room_store-call id room_id deletes_room s = room_store-delete id room_id s
room_store-call id room_id (stores_event event direction) s =
    room_store-put id room_id (effect (stores_event event direction)) s
room_store-call id room_id (replaces_event event) s =
    room_store-put id room_id (effect (replaces_event event)) s
room_store-call id room_id deletes_all_messages s =
    room_store-put id room_id (effect deletes_all_messages) s
room_store-call id room_id (stores_pagination_token token) s =
    room_store-put id room_id (effect (stores_pagination_token token)) s
room_store-call id room_id (stores_node_pagination_end value) s =
    room_store-put id room_id (effect (stores_node_pagination_end value)) s
room_store-call id room_id (stores_loaded_members value) s =
    room_store-put id room_id (effect (stores_loaded_members value)) s
room_store-call id room_id (stores_partial_text text) s =
    room_store-put id room_id (effect (stores_partial_text text)) s

-- After any calls on any rooms, the store of a room is what the calls on that room alone make of
-- the store it had, a deleted room being new; calls on other rooms have no part in it.
pub room_store-call_rooms :
    (calls : List (String × RoomCall)) (room_id : String) (s : MemoryStore)
    → room_store room_id (call_rooms s calls) ≡ effects room_id calls (room_store room_id s)
unfolding call_rooms
room_store-call_rooms [] room_id s = refl
room_store-call_rooms ((id, call) ∷ calls) room_id s =
    room_store-call_rooms calls room_id (call_room s (id, call))
    ∙ ap (effects room_id calls) (room_store-call id room_id call s)

effect-IsIndexed :
    (call : RoomCall) (room : RoomStore) → IsIndexed room → IsIndexed (effect call room)
unfolding store_event step
effect-IsIndexed (stores_event event direction) room v =
    step-IsIndexed room (stores event direction) v
effect-IsIndexed (replaces_event event) room v = step-IsIndexed room (replaces event) v
effect-IsIndexed deletes_all_messages room v = step-IsIndexed room removes_all v
effect-IsIndexed deletes_room room v = init-IsIndexed
effect-IsIndexed (stores_pagination_token token) room v = v
effect-IsIndexed (stores_node_pagination_end value) room v = v
effect-IsIndexed (stores_loaded_members value) room v = v
effect-IsIndexed (stores_partial_text text) room v = v

effects-IsIndexed :
    (calls : List (String × RoomCall)) (room_id : String) (room : RoomStore)
    → IsIndexed room
    → IsIndexed (effects room_id calls room)
effects-IsIndexed [] room_id room v = v
effects-IsIndexed ((id, call) ∷ calls) room_id room v = elim (Bool-cases (id == room_id)) [
  | inl same ↦
      rw (same, effects)
        (effects-IsIndexed calls room_id (effect call room) (effect-IsIndexed call room v))
  | inr other ↦ rw (other, effects) (effects-IsIndexed calls room_id room v)
]

new_room : (room_id user_id : String) → IsIndexed (room_store room_id (init user_id))
unfolding lookup
new_room room_id user_id = init-IsIndexed

-- In a new store, after any calls on any rooms, an event is said to exist in a room exactly when
-- some message of the room has its id.
pub event_exists_in_room-call_rooms :
    (user_id : String) (calls : List (String × RoomCall)) (room_id event_id : String)
    → ((event_exists_in_room event_id room_id (call_rooms (init user_id) calls)).1 ≡ true) ↔ (
        (e : Event) × In e (room_store room_id (call_rooms (init user_id) calls)).messages
        × (e.event_id ≡ some event_id))
unfolding event_exists_in_room event_with_event_id
event_exists_in_room-call_rooms user_id calls room_id event_id =
    let s = call_rooms (init user_id) calls in
    let v : IsIndexed (room_store room_id s) =
      subst IsIndexed (sym (room_store-call_rooms calls room_id (init user_id))) (
        effects-IsIndexed calls room_id (room_store room_id (init user_id))
          (new_room room_id user_id)) in
    event_exists (room_store room_id s) event_id v
