-- ===== src/Lib.antt =====
-- mqtt_server_go: the MQTT broker of this repository.
--
-- The program. A client's connection has a routine (process/client_process.go, ClientProcess) that
-- reads packets, answers what it can answer itself, and sends the rest as messages to one
-- dispatcher (process/clients_MsgDispatch_Center.go, processMsg and ClientsMsgDispatch), which
-- works on the map of the clients' records and writes to their connections. Both use the readers
-- and writers of the packets in protocol_stack/. What concerns other nodes goes to the routine of
-- cluster/. manager/ shows the clients over HTTP, and mqtt_server_main.go starts it all.
--
-- The files.
--   Prelude: names of the libraries, lists, Boolean tests, bits, Go's maps (Keys) and Go's outcomes (Go):
--     a value, a panic, or a loop whose fuel ran out.
--   Strconv: Atoi and Itoa, and strings cut at a byte, as the program uses them of Go's library.
--   ProtocolStack/PacketType, Packet: protocol_stack/mqtt_packet.go and the packet types;
--     Packet/RemainingLength, Strings, Words and Endings have the lemmas.
--   ProtocolStack/Connect, Ping, Publish, Subscribe, Unsubscribe: protocol_stack/mqtt_protocol_*.go. An
--     operation has the name of the Go function in snake case (mqtt_deserialize_publish for
--     MQTTDeserialize_publish); the buffer that Go appends to is an argument and part of the result.
--   Cluster/Message, Frames, Cycle: cluster/cluster_server.go: its messages, the datagrams between nodes
--     (buildCluster..., processClusterNodeMsg), and startClusterServerCycly. Cluster/Node:
--     cluster/cluster_node.go. Cluster/Start: StartClusterServerNode and startClusterServerRecv.
--   Process/Server: MqttClientInfo, and the state that the routines share: the records (a pointer is a
--     place in a list), GloablClientsMap, the numbers drawn so far, and the effects in their order.
--   Process/PacketId: GeneralPacketID (utils/utils.go) and GeneralUniquePacketId.
--   Process/Deliver: the loops over clients and topics. Process/Handlers: the cases of processMsg for the
--     messages of the connections' routines. Process/Dispatch: the cases for other nodes, processMsg, and
--     the ticker. Process/Methods and Process/Session: the methods of a record and ClientProcess.
--   Process/Heaps: triples for what a run does to the records.
--   Process/System: the routines of the connections and the dispatcher together, as steps of a whole
--     system; Process/Invariant: what every step keeps, by the part that it is about.
--   Broker: these with the routine of the nodes and the receiver of datagrams, and both channels.
--   Manager/Window, Clients, Subscriptions, Http: manager/http_*.go: the part of a list that a page shows,
--     the lists and counts, and the handlers (ServeHTTP of each handle). Http/Mux has the table of paths.
--   Utils/Names, Utils/Address: utils/utils.go. Log: log/log_print.go. Config: config/mqtt_config_file.go.
--   Database: db_dao/. Entry: mqtt_server_main.go.
--   The folders below these have the proofs, by what they prove; Tests have concrete runs.
--
-- Numbers. A byte or a word is a native number; where Go wraps, the remainder is written out. A
-- shift of a byte (`data[0] << 8`) is one on eight bits. An int that may be negative is its 64-bit
-- word (Strconv), and the tests on it are those of signed numbers.
-- The seconds and indices that an int counts up are plain numbers, which take longer than any run to
-- reach 2 ^ 63. A datagram is cut to the 4096 bytes of the receiver's buffer (Cluster/Start).
--
-- Loops. The readers of SUBSCRIBE and UNSUBSCRIBE and the builder of fragments have fuel, one more
-- than the number of bytes, which is always enough, as each round moves the index.
-- GeneralUniquePacketId has fuel, and the theorems say when it is enough and when none is;
-- GeneralRoutinId has fuel as well. The digits of a number have fuel 20, as many as a 64-bit number has
-- digits. The other loops are structural.
--
-- Parameters. `rand` is rand.Intn(62), call by call. `visit` is the order in which a loop ranges
-- over the clients' map, which Go does not fix; a client's topics are ranged over in one order, of
-- which at most one matches. encoding/json is an argument of the code of cluster/ and manager/
-- that uses it, and so are goconfig, the clock, fmt.Sprintf with parameters, whether a socket is there,
-- what net.ParseIP does with an IPv6 address, and redigo. A connection's reads are a list.
--
-- Steps. In Process/System and Broker a step is one round of a connection's routine, what the dispatcher or
-- the routine of the nodes does for one message or one tick, or one datagram. The messages that a round
-- sends wait together, and any of them is taken next: these are more orders than Go's channels have,
-- which keep those of one routine in order. Broker starts with the nodes that were configured, both
-- routines of cluster/ run, and a datagram comes in any buffer.
--
-- Not modelled. The sockets and the channels themselves, the flag of the command line, the hexadecimal
-- names of routines, the log lines of the single functions, and the pages under manager/html. A write
-- to a connection is taken to be done; the lock is left out, so a run is one order of the accesses; and
-- a send to a channel is done at once, where Go waits for the receiver.
pub mod Broker
pub mod Cluster
pub mod Config
pub mod Database
pub mod Entry
pub mod Log
pub mod Manager
pub mod Prelude
pub mod Process
pub mod ProtocolStack
pub mod Strconv
pub mod Utils
