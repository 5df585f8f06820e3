-- ===== src/Lib.antt =====
-- FzDAQ, the data acquisition of the FAZIA detector: what its programs do with an event's words,
-- and the run control that they share.
--
-- A compute node receives datagrams (reader/FzReader.cpp), cuts them into events, parses each event
-- (parser/FzParser.cpp, parser/FzFSM.cpp) into the messages of proto/FzEventSet.proto and writes
-- these to files (writer/FzWriter.cpp, utils/FzProtobuf.h). The node manager
-- (nodemanager/FzNodeManager.cpp) drives these threads through the run control machine (rc/RCFSM.cpp) by commands of a controller
-- (controller/rcs.cpp), which keeps the nodes that report to it (controller/map.cpp). A transmitter
-- passes events on over TCP (transmitter/). The program of a node (main/FzDAQ-mt.cpp) reads the
-- configuration and has a console; the controller has one too (controller/cli.cpp) and posts its
-- nodes' reports to a web log (controller/weblog.cpp). Paths are below src/ of the repository.
--
-- What models what:
-- - Rc: class RCFSM of rc/RCFSM.cpp, its table and its members `try_process` and `process`, with the
--   enumerations of utils/FzTypedef.h. Rc/Diagram has the diagram as a relation.
-- - Event: the messages of proto/FzEventSet.proto. A message that the parser holds a pointer to
--   lives in a store and is named by its number; a repeated field is a list.
-- - Fsm: class FzFSM of parser/FzFSM.h and parser/FzFSM.cpp. Fsm/State has the members as a record,
--   with the `update_` members and the accesses through pointers; Fsm/Word the word kinds, the
--   masks and the transition table; Fsm/Block the transitions of blocks and cards (02 to 06 and 12
--   to 17); Fsm/Basic and Fsm/Tag those of the two formats (07 to 11); Fsm/Check the checks at the
--   end of a data object; Fsm/Trigger `read_triggerinfo`; Fsm/Process `init`, `import`, transition
--   18 and `process`. Fsm/Control, Fsm/Safety, Fsm/Progress and Fsm/Checks hold the proofs.
-- - Prelude: tests, lists, stores and the results of code that can fail.
-- - Reader: `udp_handler` of reader/FzReader.cpp. The memory that the receive buffer points to is a
--   function, so that reads behind a datagram's end are words too; messages and recorded files are
--   kept in order; a round of the thread handles the datagrams that the poll finds. Reader/Stream,
--   Reader/Framing, Reader/Counts and Reader/Rounds hold the proofs.
-- - Writer: class FzWriter of writer/FzWriter.cpp: `setup_newfile`, `setup_newdir`, what `process`
--   does with a message, and `set_rcstate`. The run directories, by name, and the files are in the
--   state, with whole messages in a file. Writer/Life has what can happen to a writer and what it promises;
--   Writer/Store, Writer/Sizes and Writer/Runs hold the other proofs.
-- - Framing: `parse_delimited` and `WriteDataset` of utils/FzProtobuf.h, and the loop that reads a
--   file in utils/read-fazia-pb.cpp (which lies beside the sources). The coded streams of the
--   protobuf library are a parameter. Framing/Files holds the proofs.
-- - Parser: the thread of parser/FzParser.cpp between the reader and the writer, a round of its loop
--   for each thing that the socket can do. Parser/Counts and Parser/Flow hold the proofs; the latter
--   follows an event from the reader's message to what is read of the writer's files.
-- - Rcs: the messages of proto/FzRCS.proto.
-- - Node: class FzNodeManager of nodemanager/FzNodeManager.cpp, over the states of its threads;
--   Node/Report has the messages of proto/FzNodeReport.proto and how they are filled. Node/Reach has
--   the life of a node as a step relation; Node/InStep, Node/Answers and Node/Rates hold the proofs.
-- - Controller: class FzController of controller/, with the run control service of controller/rcs.cpp.
--   Controller/Map has `map_insert` and `map_clean` of controller/map.cpp and a round of
--   controller/collector.cpp. The encoding of messages and the network are a parameter. Events and
--   Nodes hold the proofs about requests, Entries, Loops, Times and Sync those about the map of nodes.
-- - Tcp: `TcpRead` and `TcpWrite` of transmitter/Tcp.cpp over what the system calls return, and class
--   fdtTransmitter: a send without a connection is out of range, as its select is. Tcp/Transfer holds
--   the proofs.
--   Tcp/Sound has a connection on which nothing fails.
-- - Mfm: the loop of transmitter/main.cpp, which puts events into MFM frames. Mfm/Fields and
--   Mfm/Trigger hold the proofs about a frame's header, Mfm/Frames those of what a reader of the
--   frames gets, Mfm/Sends those of a frame that is sent, and Mfm/Rounds those of the loop.
-- - Utils: `urlparse` and `devtoip` of utils/FzUtils.cpp.
-- - Daq: main/FzDAQ-mt.cpp: the console with its commands, its statistics and its end. Daq/Setup has
--   the configuration before it, and Daq/Setup/Plans what that comes to. Daq/Session has a session
--   as a relation: lines, messages, readings and events in any order. Daq/Commands, Daq/Lines,
--   Daq/Control and Daq/Ends hold the proofs about commands, lines, the run control and the loop, and
--   Daq/Kept those about what messages and commands leave alone.
-- - Weblog: class FZHttpPost of logger/FzHttpPost.cpp and controller/weblog.cpp, which posts the
--   nodes' reports with it. Weblog/Lines, Weblog/Rows and Weblog/Runs hold the proofs about POSTs,
--   Weblog/Rounds those about a round over the nodes.
-- - Cli: controller/cli.cpp, the command line of the controller, over a service that answers it, with
--   the table of statistics in Cli/Table. Cli/Control puts it over the service of Controller.
--
-- How the code is read: an access that the language leaves undefined is a value of `Fault`:
-- `dangling` for a pointer to no object of the event, `over_read` for a word past the buffer,
-- `bad_index` for an array or a field read out of range. Members wrap at their width. A member that
-- the constructor leaves unset is whatever the machine is given. The two expressions in floating
-- point are parameters (`Floats`). An `event_size` other than the buffer's length is allowed. The
-- loop of `process` runs on fuel, because a transition may step the index back; the loops that
-- gather samples are recursion on the buffer or on the length read. Numbers are natural numbers.
--
-- The loops of the controller over its nodes have an index of eight bits, which is why 256 and 257
-- rounds are enough for fewer than 256 nodes; the loop that reads a file takes a round for each
-- message and one more, and the TCP loops one for each byte and one more; a frame fits a buffer of 4 MB,
-- so that `enough` of Mfm/Rounds is one more than that.
--
-- What other code does is a parameter with documented behaviour as named hypotheses: `Coded` and
-- `IsCoded` (protobuf's coded streams), `Outside` and `IsFaithful` (the encoding of requests and the
-- texts in small letters), `Socket`, `IsSocket` and `IsSound` (send and recv), `Sets` (protobuf's
-- event sets), `Cfg` and `System` (libconfig, sscanf and the interfaces), `Service` (what answers on
-- the run control port), `RunTag` and `IsPlain` (the names of run directories and what sscanf reads
-- of them), `AllExact` (ByteSize of a parsed message), `IsSerialized` (an event set that
-- is serialized is parsed as itself).
--
-- What is printed is kept as what is said, not as its layout. A part of the start of a program goes
-- on or ends it with a reason (`Start` of Daq/Setup). The frame of transmitter/main.cpp is read from
-- the memory at the message, which is a function, since it may be read past its end. A POST keeps its
-- keys as line and name.
--
-- Not modelled: logging, apart from the names that it looks up; the set-up of sockets and threads, an
-- exception of a socket that sends; a file that the writer cannot open or write; the parsing of the programs' options, and controller/main.cpp;
-- TcpOpen; `human_byte` and `human_bit`, which print floating-point numbers; main/FzConfig.cpp, which
-- makes the text of an endpoint; utils/fossa.c and utils/zmq.hpp, which are copies of other projects.
mod Prelude
pub mod Rc
pub mod Event
pub mod Fsm
pub mod Reader
pub mod Writer
pub mod Framing
pub mod Parser
pub mod Rcs
pub mod Node
pub mod Controller
pub mod Tcp
pub mod Mfm
pub mod Utils
pub mod Daq
pub mod Weblog
pub mod Cli
