-- ===== src/Lib.antt =====
-- Verification library of IpCamBox: a server that restreams the cameras of devices behind a firewall,
-- and the device box that stands beside the cameras and keeps recordings in a Dropbox account.
--
-- The parts and how they interact. A device connects to the control server (Server/ControlServer) with
-- its certificate, reads its configuration and waits. A player connects to the restream server
-- (Server/RestreamServer); the first player of a path makes Server/ServerMain.cpp ask the control server
-- for the source, which asks the device, which streams to the restream server. Both servers read the
-- configuration through one interface (Server/Config/Config.h), which a file (Server/FileConfig) or a
-- database (Server/PGConfig) fills. On the device
-- DeviceBox/Controller.cpp keeps for each source a streamer, a splitter, whose recordings it uploads through
-- the client of DeviceBox/Dropbox.cpp, and a view of the folder in DeviceBox/DropboxFolder.cpp, which has
-- the oldest recordings deleted.
--
-- Which file models which part:
--   Prelude                       tests, lists, the outcome of a call (a value or a fault), and maps
--   Common/RefCounter             Common/RefCounter.h; the counter and the objects (Counting)
--   Server/Config                 the records and the interface of the configuration, and its laws
--   Server/FileConfig             Server/FileConfig/Config.cpp: lookups (FileConfig), the loader (Load),
--                                 its invariant (Consistency) and the laws of the interface (Lookup)
--                                 and the certificates (Certificates)
--   Server/PgConfig               Server/PGConfig/Config.cpp; the certificates (Certificates)
--   Server/MemoryConfig           Server/Config/MemoryConfig.cpp; what it holds (Contents)
--   Server/OpenSsl                the calls of OpenSSL that the configurations share
--   Server/Hash                   Common/Hash.cpp
--   Server/ControlServer          Sessions.cpp (Sessions), ServerSession.cpp (ServerSession), Server.cpp
--                                 (Requests), Protocol/protocol.proto (Protocol); the links between the
--                                 sessions and the contexts (Links), the invariant (Safety), the
--                                 callbacks as events (Events), the streams that are asked for (Streams),
--                                 what a device is told when it is back (Restore), and orders of
--                                 callbacks that go wrong (Refused); the TLS context (SecureContext)
--                                 and its certificates (Renewal)
--   Server/RestreamServer         Server/RestreamServer/Server.cpp; the rights (Rights), the paths in
--                                 use (Players, Recorders), the start and the certificates (Serving)
--   Server/ServerMain             Server/ServerMain.cpp; both servers together (Playing, TwoPaths)
--   Server/Examples               runs of the server
--   DeviceBox/DropboxFolder       DeviceBox/DropboxFolder.cpp; the index by age (Index), the invariant
--                                 (Invariant), answers of the service (Contents), deletions (Shrink)
--   DeviceBox/DeviceConfig        DeviceBox/Config.cpp; what is loaded (Loading)
--   DeviceBox/Controller          DeviceBox/Controller.cpp; the shutdowns to come (Stages) in any order
--                                 (Shutdowns, Completion), what a configuration starts (Reload)
--   DeviceBox/Client              DeviceBox/Client.cpp; what it waits for (Strands)
--   DeviceBox/DeviceBoxMain       DeviceBox/DeviceBoxMain.cpp: the client and the controller together; from
--                                 an error to the next connection (Reconnect), from a configuration to
--                                 the answer (Ready), from a signal to the end (Stop), without requests
--                                 to Dropbox (Quiet)
--   DeviceBox/StreamingHandler    DeviceBox/StreamingHandler.cpp; the end of a streamer (Safety), of a
--                                 shutdown (Ending)
--   DeviceBox/SplitHandler        DeviceBox/SplitHandler.cpp; the recordings it reports (Recording)
--   DeviceBox/StringFormat        DeviceBox/string_format.h; the text of any format (Render), the loop of
--                                 push_next (Loop), the text that comes out (Text), and the
--                                 formats of the class's comment (Documented)
--   DeviceBox/DropboxClient       DeviceBox/Dropbox.cpp: DropboxInternal; the actions (Actions) and their
--                                 texts (Texts, Batch), uploads at once (Uploads, Limit), callbacks
--                                 (Answered), messages of libcurl (Messages), the end of the thread
--                                 (Lifetime), the class Dropbox (Wrapper)
--
-- How the code corresponds. A class is a record, a method a function from the state to the next state
-- under the method's name in snake_case. A call that can fail an assertion or follow a null pointer
-- has an `Outcome`; the parameter `ndebug` says whether assertions are compiled out. A map of the
-- standard library is an association list without an order that anything depends on. The state of the
-- control server holds all its sessions, by number, what was written to their connections and the tasks
-- posted to the `io_service`; a pointer to a session is its number, a pointer to a context the device.
-- Each callback is one step, since the program runs them one after another.
--
-- Bounds and fuel. Sizes of a Dropbox folder are 64-bit integers and the storage limit of a
-- source and a reference counter are of 32 bits, with their wrap-around written out.
-- Loops run over a list or a count, but for that of string_format's push_next, which has as many
-- rounds as the format has characters and one more; each round but the last passes two of them.
--
-- Parameters. libcurl, GStreamer, libconfig, protobuf, libpq, rapidjson, g_strsplit, fmt, OpenSSL and the
-- base classes of NetworkCore are records, functions, answers or events that the definitions take. The
-- verification of a certificate by the control server is an event with its answer.
--
-- Not modelled. Threads (the model takes the callbacks of the restream server as steps beside the others),
-- logging, the start-up of the programs, DeviceBox/CertificateProvider.cpp, which only calls D-Bus, and the
-- elements of the pipelines of DeviceBox/StreamingHandler.cpp and their links.
pub mod Prelude
pub mod Common
pub mod DeviceBox
pub mod Server
