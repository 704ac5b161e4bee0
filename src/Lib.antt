-- ===== src/Lib.antt =====
-- Tickline is an authoritative simulation behind a hostile byte stream. Bytes of a client are
-- assembled to frames, frames are decoded to command envelopes, a session admits an envelope or
-- names why not, an admitted command enters the queue of a deterministic world, and every outcome
-- is recorded in a chain of digests. Time passes in ticks of a fixed length.
--
-- The parts, and the files of the repository that they model:
--   Base         what the modules share: lists, results with exceptions, 64-bit integers and words,
--                std::map as an association list.
--   Security     Sha256: cpp/src/security/sha256.cpp, executable; Hex is the text of a digest.
--   Simulation   Units and Clock: cpp/include/tickline/simulation/units.hpp and tick_clock.hpp.
--                Motion, Schedule, World and Advance: cpp/src/simulation/world.cpp, where Motion has
--                the arithmetic of an axis, Schedule the order of the queue, World the constructor,
--                add_entity, queue_velocity and the queries, Advance the tick. Fingerprint and
--                Canonical: cpp/src/simulation/state_fingerprint.cpp and canonical_state.cpp.
--                Validity says what a valid world is, and its children are about one operation each.
--   Command      Envelope, Validator, Session, Evidence and Pipeline: the headers and sources of the
--                same names in cpp/include/tickline/command and cpp/src/command. Evidence has Codec
--                and Decode for the 160 bytes of a record and Chain for the log. Archive:
--                command_evidence_archive, where Codec and Decode are the bytes and File the two
--                operations on files. Replay: command_evidence_replay, where Same is the equality of
--                records and Run says what a run is.
--   Protocol     Frames, Codec, Stream and Gateway: frame_parser, command_envelope_codec,
--                stream_parser and authoritative_command_gateway in cpp/src/protocol.
--   Storage      Store: the data of cpp/include/tickline/storage/investigation_store.hpp. Json,
--                Bundle and Export: cpp/src/storage/investigation_bundle_exporter.cpp, where Json
--                has the pieces of the text, Bundle the loops and Export the checks and the text.
--                Sqlite, Queries, Rows and Import: cpp/src/storage/investigation_store.cpp, where Sqlite has
--                Statement and its child Actions Transaction, Queries what reads the database, Rows
--                what is written and Import what changes the database.
--   Examples     runs at concrete inputs.
--
-- How they interact. Gateway.submit decodes bytes with Codec.decode_command_frame and hands the
-- envelope to Pipeline.submit, which reads the world's fingerprint from Canonical, asks
-- Session.evaluate, which asks Validator.validate, then calls World.queue_velocity, and appends
-- to the log of Evidence.Chain, whose records are digested with Sha256. World.advance is called
-- from outside. Stream is the other way in: it cuts a stream into the frames that Codec decodes.
-- An archive holds the records of a log and its head; Replay.replay takes them, and the session
-- and the world that the log began with, and calls World.advance and Pipeline.submit again.
--
-- State is passed explicitly: an operation takes the objects that it reads and returns those that
-- it changes. A function that may throw returns a Result with the class of the exception; a
-- std::expected is a Result with the code of the error; the message texts are left out. A signed
-- 64-bit value is an integer, an unsigned one a natural number; a hypothesis says where they must
-- fit, and a place where the code can wrap has its modulus written out. A byte is a number below
-- 256.
--
-- Bounds. The loop of FrameStreamParser::push is bounded by one round more than the chunk has
-- bytes: every round but the last takes a byte, so the bound is enough. All other loops run over
-- a list, or over a number of rounds that is known before they start. The greatest size of a
-- std::vector of records, which the standard library decides, is a parameter of Pipeline.submit,
-- Gateway.submit and Replay.replay. Allocation does not fail in the model.
--
-- The two loops of the exporter that ask a store for page after page have no bound in the code:
-- the model takes the number of rounds, and answers out_of_rounds where it is not enough. One
-- round more than there are records is enough for the records.
--
-- The exporter reads a store of investigations, the record InvestigationStore of Storage.Store: what
-- its four queries answer. Queries.store_of fills it from a database. SQLite is a parameter, the
-- record Sqlite of Storage.Sqlite: what the step of a statement and the rows of a query come to,
-- and how columns are read. A statement is named by what it does, its text is left out.
-- IsTransactional, HasColumns and HasReplayTable say what is assumed of SQLite.
--
-- The file system is a parameter too, the record FileSystem of Command.Archive.File: what
-- opening, writing, closing and reading answer. IsDurable says what is assumed of it where a
-- file is read after it was written. std::size_t has 64 bits, and std::streamsize 63 and a sign.
--
-- Not modelled: opening the file of a database, its pragmas and the texts of its SQL statements, which
-- SQLite interprets; the fuzz target; the tools in Go, Python and C#.
pub mod Base
pub mod Security
pub mod Simulation
pub mod Command
pub mod Protocol
pub mod Storage
pub mod Examples
