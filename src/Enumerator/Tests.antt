-- ===== src/Enumerator/Tests.antt =====
-- Three messages in batches of two.
use sendingnetwork_ios.Common.{String, false, ◌≡◌, refl, none, some, List, [], ◌∷◌, arith}
use sendingnetwork_ios.RoomStore.{Event}
use sendingnetwork_ios.Enumerator.{
  DataSource, EventsEnumerator, init, events_for_event_ids, next_events_batch,
}
use sendingnetwork_ios.Enumerator.Batches.{
  Batch, next_events_batch-Batch, read_all, read_all-events,
}

abbrev message : String → Event
message event_id = record {
  object = 0;
  event_id = some event_id;
  type = some "m.room.message";
  sender = none;
  relates_to = none;
  is_redacted_event = false;
  redacts = none;
  origin_server_ts = 0;
}

abbrev source : DataSource
source id = some (message id)

abbrev ids : List String
ids = "$1" ∷ "$2" ∷ "$3" ∷ []

next_events_batch-Batch_example :
    (events : List Event) × (e' : EventsEnumerator) × (next_events_batch source 2 none (init ids)
      ≡ (some events, e'))
    × Batch source (init ids) e' events
next_events_batch-Batch_example =
    next_events_batch-Batch source (init ids) 2 2 (refl, (refl, (refl, tt))) refl (omega arith)
      (omega arith)

read_all-events_example :
    read_all 4 source 2 (init ids) ≡ message "$1" ∷ message "$2" ∷ message "$3" ∷ []
unfolding events_for_event_ids
read_all-events_example = read_all-events source ids 2 (refl, (refl, (refl, tt))) (omega arith)
