-- ===== src/Lib.antt =====
-- Two file transfer programs over datagrams: `Go Back N (UDP)` and `Stop and Wait (TCP)`.
--
-- In Go Back N a client asks a server for a file. The parent process of the server
-- (Server.cpp, `Run`) answers a connection request with the port of a new socket and forks a
-- child, which takes the buffer size, the window size and the file name, reads the file piece by
-- piece into a window of packets, sends them, and slides or rewinds the window for each RR and REJ.
-- The client sends the five packets of the handshake, then writes each packet with the number that
-- it expects to its target file and answers it by an RR, or by a REJ for the number it waits for.
--
--   Packet            Go Back N (UDP)/packet.h and packet.c: the struct, its bytes, `rrpkt`, ...
--   Net               Go Back N (UDP)/select_call.c, and one program's socket: what arrives, which
--                     sends fail, what was sent
--   File              the pieces of a file, of which the theorems speak
--   Client            Go Back N (UDP)/Client.h and Client.cpp: the state, constructor, `recvPacket`
--                     and `writeTo`; Client.Init is `init`, Client.Recv is `recvPackets`,
--                     Client.Run is `Run`
--   Server            Go Back N (UDP)/Server.h and Server.cpp: the state and `recvPacket` of a child
--                     process; Server.Init is `init`, Server.Window is `fillWindow`, `sendWindow`
--                     and `waitRR`, Server.Child is `Child`, Server.Parent is `Run` and the constructor;
--                     Server.Window.Spec is the abstract window that `Child` refines,
--                     Server.Window.Words what it hears
--   CommandLine       Go Back N (UDP)/rcopy.cpp: `main`; CommandLine.Rcserver is `main` of rcserver.cpp
--   StopAndWait       Stop and Wait (TCP)/server.c: StopAndWait.Socket is `findsocket` and
--                     `connect_to_client`, StopAndWait.Comm.State the variables and
--                     StopAndWait.Comm.Iteration one iteration of `client_comm`, StopAndWait.Main
--                     `main`; rcopy.c: StopAndWait.Connect is `findsocket` and
--                     `connect_to_server`, with the constructor of client.cpp,
--                     StopAndWait.Rcopy an iteration of the loop of `main`
--   System            a child process and a client together, from the start of the file on
--   Handshake         the parent process, a child process and a client up to the end of `init`
--   Session           a child process and a client together, the handshake included, with any loss
--                     and with none, and a child process alone that is asked for pieces again
--   Platform          in_cksum of the course library, byte order and files, as parameters
--   Base              lists over the native numbers, Boolean tests, outcomes
--   Tests             a small world, runs of the programs in it, and the theorems applied there
--
-- A record holds the members of a class, a data type its enum of states. A method is a function from
-- the state to the state that the caller stores next and the changed record. An outcome is a value,
-- or `undefined` where C++ has undefined behaviour (a write or read outside a packet, the front of
-- an empty deque, a variable read before it is set), or `unfinished` where fuel runs out. Machine
-- numbers wrap as in the source: `mvSequence` is an `unsigned int`, `size` an `uint16_t`.
-- The results of `select`, `recvfrom`, `sendtoErr`, `write` and `socket` are lists in the state, one
-- entry for each call to come; after the end of a list nothing arrives and every call succeeds.
--
-- Loops run on fuel. Each wait takes an arrival from the list or one of the retries, of which there
-- are never more than ten after an arrival, so `retries + 11 * arrivals` falls with every wait:
-- this bounds the rounds of both `init` loops (`fuel_of`), of `Run` and of `Child` (`child_fuel`,
-- four states to a wait). The theorems on endings show that this is enough: `Returns` and `Ends`
-- exclude `unfinished`.
--
-- The stop and wait server keeps a byte of status flags, which is a record in the model
-- (StopAndWait.Comm.Flags relates them), sends one packet at a time and waits for its
-- acknowledgment. One iteration of the loop of `client_comm` is the function `comm_turn`, composed of
-- the parts that send, receive and read the file; `comm_loop` is the loop, on fuel. `Reached` are the
-- states in which an iteration starts, with any inbox and any outcomes of calls. Each result of `recv` leads to at most two iterations, so
-- that `2 * results + 1` are enough, unless the loop gets to a state in which it neither sends
-- nor receives (StopAndWait.Comm.Idle). `server_main` serves the results of `accept` in order, as
-- the call of `fork` is commented out. `PKT_TYPE_ACK`, `PKT_TYPE_RET` and `ackpkt`,
-- which are missing or broken off in its directory, are parameters, and so is the memory behind the
-- file name, which `open` reads as the name has no final 0: C leaves this read undefined, the model
-- takes any bytes. StopAndWait.Comm.Overwritten is about `ackpkt` of the other version, which is
-- complete and begins with the same statements.
--
-- The stop and wait client is half rewritten and does not compile: the condition of its loop reads a
-- variable `state`, the body a variable `status` that is not declared any more. `rcopy_turn` is an
-- iteration of that body, and `Reached` are the states that its repetition leads to from any
-- `status`; the condition and the part over `state` are left out, so that no theorem says when the
-- loop ends.
--
-- Not modelled: the parsing of arguments, output, exceptions (a constructor that throws gives
-- none), closing descriptors, addresses other than the port that the client talks to (`recvfrom`
-- stores the sender's in `mvAddr`), a `write` that takes fewer bytes than it is given, and `gethostbyname`,
-- which is taken to succeed; of the stop and wait version
-- what is broken off in client.cpp and packet.c.
pub mod Base
pub mod Platform
pub mod Packet
pub mod Net
pub mod Client
pub mod CommandLine
pub mod File
pub mod Server
pub mod System
pub mod Handshake
pub mod Session
pub mod StopAndWait
pub mod Tests
