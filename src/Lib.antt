-- ===== src/Lib.antt =====
-- chirpstack_network_serve: the core of ChirpStack Network Server, a LoRaWAN network server.
--
-- The program receives frames of devices from gateways, finds the device-session that a frame
-- belongs to, handles the MAC commands in it, and answers with a downlink, for which it requests
-- what the session of the device lacks against the configuration, and in which it sends the items of
-- the device's queue. A gateway acknowledges the downlink, and only then the item and the counter
-- move on. The state of it all is the device-session and the queues. The parts modelled, and where:
--
--   SessionData, Profile, Device    the device-session (internal/storage/device_session.go), the
--     profiles (internal/storage/device_profile.go, service_profile.go), and what a handler is given
--   Session       the operations on the session of internal/storage/device_session.go:
--     Session/FCnt GetFullFCntUp, Session/Lookup GetDeviceSessionsForDevAddr and
--     GetDeviceSessionForPHYPayload, Session/History AppendUplinkHistory, Session/Loss
--     GetPacketLossPercentage, Session/Boot GetMACVersion and ResetToBootParameters
--   Lorawan       the payloads, identifiers and band of the library that the program uses, as far as
--     the program reads them; the band's operations are fields of the record Band, a parameter
--   MacCommand    internal/maccommand: Handle and each handler, and the Request functions;
--     MacCommand/LinkAdr link_adr.go, MacCommand/NewChannel new_channel.go, MacCommand/Setup the
--     setup requests with their answers, MacCommand/Inform the handlers without a pending request
--   Gps           internal/gps/gps.go
--   ClassB        internal/helpers/classb/classb.go
--   AdrTypes, Adr adr/structs.go and internal/adr: Adr/Default, Adr/LrFhss, Adr/LoraLrFhss
--   Downlink      internal/downlink/data/data.go and internal/channels/channels.go:
--     Downlink/Requests the request functions, Downlink/AdrChange requestADRChange, Downlink/Filter
--     filterIncompatibleMACCommands and setMACCommands
--     Downlink/NextItem getNextDeviceQueueItem, Downlink/Window the receive-windows, Downlink/Payload
--     setPHYPayloads, Downlink/Select SelectDownlinkGateway (internal/downlink/gateway/gateway.go)
--   Queue         the device-queue, internal/storage/device_queue.go, as a table with an abstract view
--     of one sorted queue for each device; the order that the database gives rows of equal
--     frame-counter is a parameter of the table
--   Gateway       the messages between the network server and its gateways
--   Ack           internal/downlink/ack/ack.go: Ack/Tasks and Ack/Report the tasks, Ack/Flow their
--     order, over a store of the database and of Redis; a transaction rolls back the database only
--   Uplink        internal/uplink/data/data.go: Uplink/Commands handleUplinkMACCommands,
--     Uplink/Flow the tasks of Handle that change the session before it is saved, and Uplink/Flow/Trace the uplinks of a
--     session over time as a step relation
--   Float         floating-point numbers, whose operations are a parameter
--   Prelude       names, lists, options, integers and association lists over the native numbers
--   Tests         concrete values and the examples
--
-- How state and errors correspond: a Go method that changes *DeviceSession is a function that
-- returns the session after it, also where it returns an error (the part of the session that it
-- had changed stays changed). An error is a value of Result or of an error type, `none` where the
-- caller only passes it on. Go maps are association lists; where the program's result depends on
-- the order of a map, it sorts the keys, and so does the model. uint8, uint16 and uint32 are
-- natural numbers with the wrap-around written out at each conversion and subtraction; an int that
-- holds an index, a count or a data-rate is a natural number. Calls of the database, of Redis and
-- of the application-server are listed as effects, and their outcome is a parameter, but for the
-- tables and keys that Queue and Ack hold.
--
-- Fuel: GetNextPingSlotAfter has an endless loop over beacons, modelled with fuel 2. Two rounds are
-- enough, since every slot of the following beacon is later than the given time. The loop of
-- requestADRChange over the TX power indices has no bound but the error of the band, and has fuel
-- 256, more than the 16 indices that a LinkADRReq can name. The loop of getNextDeviceQueueItem has
-- fuel for three rounds for each item: an item is re-encrypted once, scheduled anew once, and
-- dropped once. All other loops are structural.
--
-- Not modelled: logging and metrics; Redis and PostgreSQL themselves; the MAC-command queue
-- (internal/storage/mac_command.go), whose calls are effects of the handlers; gRPC, the gateway and
-- application-server backends; joins and rejoins, roaming, multicast,
-- the de-duplication of frames, the scheduler and ADR plugins. MIC, AES and random numbers are
-- parameters. Instants before the GPS epoch (6 January 1980) are not represented, and durations do not overflow int64.
pub mod Prelude
pub mod Lorawan
pub mod SessionData
pub mod Float
pub mod Profile
pub mod Device
pub mod Session
pub mod Gps
pub mod ClassB
pub mod MacCommand
pub mod AdrTypes
pub mod Adr
pub mod Queue
pub mod Gateway
pub mod Ack
pub mod Downlink
pub mod Uplink
pub mod Tests
