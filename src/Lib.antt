-- ===== src/Lib.antt =====
-- The SDN SDK for iOS: a client library in Objective-C for rooms, their members, messages and
-- encryption. This library models self-contained parts of it, each from its own source files, and
-- how some of them work together:
--
-- - LruCache: SDNSDK/Utils/MXLRUCache.m, the cache that other parts keep objects in.
-- - EventType and Conversions: SDNSDK/Utils/MXTools.m, the texts of event types and of other
--   enums, with the enums of SDNSDK/JSONModels and SDNSDK/MXEnumConstants.h.
-- - RoomMembers: SDNSDK/Data/MXRoomMembers.m and MXRoomMember.m, the members of a room as its
--   state events tell, and the names they are shown under. It reads event types and memberships
--   through the two modules above.
-- - RoomStore: SDNSDK/Data/Store/MXMemoryStore/MXMemoryRoomStore.m and
--   MXMemoryRoomOutgoingMessagesStore.m, the messages of one room.
-- - MemoryStore: SDNSDK/Data/Store/MXMemoryStore/MXMemoryStore.m, the stores of all rooms, read
--   receipts, and the unread counts that come of the two.
-- - Store: SDNSDK/Data/Store/MXStore.h, the interface of stores as records of operations with a
--   record of laws, which ask less than its comments where Store says so; Store.Memory makes
--   MemoryStore an instance of it, over the lemmas of Store.Rooms.
-- - Timeline: SDNSDK/Data/EventTimeline/Room/MXRoomEventTimeline.m, what the live timeline of a
--   room writes to its store when the room is synced: the deletion of a room the user was
--   invited to, new events, redactions, gaps, and the local receipts of MXRoom.m, which raise for
--   an event with no id. It is written over any store that has the interface, so what it needs of
--   a store are the laws. Timeline.Settled is the same for events that have ids, where nothing
--   raises.
-- - Json: the values of JSON, MXJSONModel.m and the macros of SDNSDK/JSONModels/MXJSONModel.h
--   that set the fields of a model (Json.Setters), with the ways to write fields (Json.Writers)
--   and what is read back of them (Json.ReadBack).
-- - Models: the classes that are read from JSON, and written to it where they are. From
--   SDNSDK/JSONModels: Discovery (AutoDiscovery), Login and Tokens (MXJSONModels.h, Login),
--   Relations (the directory Event), Events (MXEvent, MXEventUnsignedData), Rooms, Groups,
--   PushRules and Search (MXJSONModels.h), Capabilities, Versions (MXSDNVersions), Contents and
--   TaggedEvents (a file for each class), EventLists, RoomSync and Sync (the directory Sync). From SDNSDK/Crypto: KeyBackup
--   (MXKeyBackupData) and RoomKeys (MXMegolmSessionData, MXRoomKeyEventContent,
--   MXForwardedRoomKeyEventContent). Events are written and read at a time `now`, since an event
--   keeps the time at which its age was 0.
-- - Enumerator: SDNSDK/Data/EventsEnumerator/MXEventsEnumeratorOnArray.m and
--   MXEventsByTypesEnumeratorOnArray.m, the messages of a room in batches.
-- - Throttler: SDNSDK/Utils/MXThrottler.m, calls of blocks spread in time.
-- - PowerLevels: SDNSDK/JSONModels/MXRoomPowerLevels.m, who may do what in a room.
-- - SasCode: SDNSDK/Crypto/Verification/Transactions/SAS/MXSASTransaction.m, the numbers and
--   emojis that two users compare.
-- - QrCode: SDNSDK/Crypto/Verification/Data/MXQRCodeDataCoder.m and MXQRCodeDataBuilder.m, the
--   bytes of the QR code that two devices scan.
-- - DeviceList: SDNSDK/Crypto/Devices/MXDeviceList.m, whose devices are tracked and how far their
--   download is.
-- - RecoveryKey: SDNSDK/Crypto/KeyBackup/MXRecoveryKey.m, a key as text with a checksum.
-- - UsersDevicesMap: SDNSDK/Crypto/Data/MXUsersDevicesMap.m, objects by user and device.
--
-- A method of an object is a function from its state to the new one, under the method's name in
-- this library's spelling: `storeReceipt:inRoom:` is `store_receipt`. An exception and nil are
-- `none`, or a constructor of their own where a method has both; a model whose reading may raise
-- is an `Outcome`, which is `raised` or `returned`. A dictionary is an association list with one
-- entry for a key (Common.Dict). Texts compared by `isEqualToString:` may be nil (`equal_ids`).
--
-- Bounds: NSUInteger is kept below 2 ^ 64 by wrapping where it can wrap (the counts of LruCache);
-- the numbers of models are wrapped to 64 bits as they are read (Json.Setters); counts of objects
-- in memory cannot get there and are natural numbers. All loops are structural recursions, on a
-- list or on the index that the code counts down, so no fuel is needed, but for the client of
-- Enumerator.Batches, which is given one round more than there are events.
--
-- Parameters: base64 and ASCII conversions (`QrCode.Codec`), base58 and white spaces
-- (`RecoveryKey.Format`), the data source of an enumerator, the bytes that a buffer on the stack
-- holds before it is read into, the identicon URLs (`RoomMembers.Session`), boolValue of a text
-- (Models.Versions), which texts are user ids (DeviceList), whether NSAssert raises
-- (Models.Search), and the object that a pruned copy is (Timeline).
--
-- Not modelled: the network, the database and file stores, locks, dispatch queues other than the
-- throttler's, the rest of the crypto and call parts, the Swift code; of MemoryStore the users,
-- groups, filters and account data, which are plain fields and dictionaries; of Timeline the
-- state of the room, aggregations, threads, listeners and back pagination; of DeviceList the
-- pools of operations; of Models the thread relation and clear events of MXEvent, NSCoding and
-- copying, the answers to key queries, secrets, pushers and aggregations. Floating numbers of JSON
-- are left out. The session, the REST client and the room classes are asynchronous glue between all
-- other parts.
pub mod Common
pub mod LruCache
pub mod EventType
pub mod Conversions
pub mod RoomMembers
pub mod RoomStore
pub mod MemoryStore
pub mod SasCode
pub mod QrCode
pub mod Throttler
pub mod Enumerator
pub mod RecoveryKey
pub mod UsersDevicesMap
pub mod PowerLevels
pub mod Json
pub mod Models
pub mod Store
pub mod Timeline
pub mod DeviceList
