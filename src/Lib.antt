-- ===== src/Lib.antt =====
-- R-Type (J.A.M.E.S.): the protocol, the lobby, the match, the client's connection, the entity
-- registry and the random numbers of a networked shooter.
--
-- A server accepts TCP connections. ClientConnectionManager keeps the connections, gives a client
-- that authenticates a player id, and knows who is ready. Messages are packets with a header of 12
-- bytes; Packets.hpp says how each is laid out, PacketFactory.hpp turns bytes into packets and back.
-- Once all are ready the server starts a match; it ends when the players are dead, the level is won
-- or too few are left, with a leaderboard, and all go back to the lobby. A client keeps one
-- connection: it cuts the bytes it gets into messages, lets a handler read each, and writes its own.
-- The game itself is an entity registry with one sparse array for each type of component, which the
-- systems walk through with zippers; client and server share it. World generation draws from a
-- seeded generator so that every run of a level is the same.
--
-- - Base: shared names of the libraries, Boolean tests on numbers (Base/Tests), lists (Base/Lists).
-- - Wire: the packets. Wire/Endian and Wire/Buffer are server/include/server/PacketBuffer.hpp:
--   PacketBuffer is a record of its bytes and read offset, a Writer changes it, and a Reader may fail
--   as CheckBounds throws. Wire/Fields has the packet codes of PacketTypes.hpp, Wire/Packets the
--   structs of Packets.hpp (a struct's Serialize is serialize_x, the part behind the header write_x),
--   Wire/Names the fixed-size names. Wire/Factory is PacketFactory.hpp. Wire/Codec says what it
--   means that a Reader reads back what a Writer writes, and Wire/Consume how far a Reader goes.
-- - Engine: engine/include and engine/src. Engine/SparseArray, Engine/Registry (registry.tpp and
--   registry.cpp) and Engine/Zipper (zipper.tpp and indexed_zipper.tpp).
-- - Lobby: Lobby/Connections is ClientConnectionManager of server/src/server. Lobby/Handler is a part
--   of PacketHandler.cpp: its state is the connections, the flag of the running game and a log of the
--   calls that leave it. Lobby/Sender is PacketSender.cpp: which socket is sent which bytes.
-- - Match: the running match. Match/Records is DetermineWinner and BuildLeaderboard of
--   server/src/server/Server.cpp, Match/State its members, Match/Play its operations with
--   SetupEntitiesGame of ServerSetupGame.cpp and HandleDisconnectReq of PacketHandler.cpp; the
--   messages are a log. Match/Phases and Match/Histories have the server as a machine. Match/Input is
--   HandleUdpPlayerInput of ServerInputHandler.cpp, over the arrays that it reads and writes.
-- - Client: client/network/Network.cpp and Network.hpp, class ServerConnection. Client/State has its
--   members and accessors, Client/Header and Client/Payloads the byte helpers, Client/Handlers the
--   handlers, of which `none` is a read past the end of the message. Client/Stream is
--   AsyncReceiveTCP (Client/Stream/Notices says what each message is to do, Client/Stream/Deliveries
--   has PacketSender and the clients together), Client/Send what is written to the sockets, Client/Snapshots AsyncReceiveUDP
--   and the queue that the game polls.
-- - Config: server/src/server/Config.cpp, the command line of the server; std::stoi is a parameter.
-- - WorldGen: WorldGen/Rng is DeterministicRNG of server/include/server/worldgen.
-- - Tests: runs and instances at concrete inputs.
--
-- Integers of w bits are natural numbers that wrap where the source's do. A float or a double is its
-- bit pattern, since the packets only carry it. Exceptions and failed lookups are `none` or a value
-- of a sum. The match calls what the model does not have through parameters: a record Clock for the
-- floats of its delays, std::sort, the systems of the registry, the begin of a level, the tag of a
-- new player. The byte order of a machine is the parameter Endian. The memory of an EntityState that
-- Deserialize does not set is a parameter too, since the source leaves it uninitialised. Component
-- types are numbers, and all components of a registry have one type, a parameter. An
-- unordered_map is an association list, in the order of its iteration. A socket is a handle whose
-- remote end point is a parameter.
--
-- Fuel: a zipper's loops take as much as the longest array, which is always enough; AssignPlayerId
-- counts its 255 attempts itself; the rejection loop of NextBounded takes fuel that stands for the
-- draws, and with none left there is no result. The client's loop over its bytes takes one unit for
-- each byte and one more, which is enough, since each turn takes a header away.
--
-- Not modelled: sockets and the event loop, rendering, audio, scripted movement over floats, the JSON
-- files of the levels, what the systems of the registry do in a match, the building of snapshots and
-- the rest of the packet handler (Dispatch, the receive loop and the settings).
pub mod Base
pub mod Client
pub mod Config
pub mod Engine
pub mod Lobby
pub mod Match
pub mod Wire
pub mod WorldGen
pub mod Tests
