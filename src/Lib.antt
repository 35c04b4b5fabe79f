-- ===== src/Lib.antt =====
-- multisocket: sockets that talk to any number of peers over connections of several transports.
--
-- A socket (socket.go) owns a connector (connector/connector.go), which dials and listens, turns every
-- connection into a pipe (connector/pipe.go) with an id of its own (utils/id.go), keeps the number of
-- pipes within a limit, and tells the socket of every pipe that comes and goes. A message
-- (message/message.go) is passed on from node to node; each node records the pipe it came in on in front
-- of its source, so that the source is the path back. Buffers come from pools (bytespool/bytespool.go).
-- Options (options/options.go) configure all of these, and tell their hooks of every change.
--
-- Which file models what:
--   Utils.Id: the generator of ids, NextID and Recycle; Search is about its loop, Fresh about its ids.
--   Utils.Time: the timer (utils/time.go); Calls has the calls on it, Fresh is about its ticks. A
--     time.Timer is that of Go before 1.23, whose Stop leaves a tick in the channel.
--   Bytespool: the pools, Alloc and Free. A pool is a parameter that hands out a slice of its size with
--     any bytes; of a sub-slice only the length and the capacity matter.
--   Message: meta data, flags, paths, Encode and Dup. A message is a buffer with regions for source,
--     destination and content, as the Go slices are. Message.Receive has NewMessageFromBytes,
--     NewMessageFromMsg, NewMessageFromReader and NewRawRecvMessage, Message.Send has NewSendMessage.
--     What a node sees of a message is a View; Wire is the layout of its bytes.
--   Options: values, Validate and Parse; Options.Sets has the sets of options with their sub-sets,
--     downstream sets and hooks, Options.Registry the names.
--   Connector: the connector with its dialers, listeners and pipes; Connector.Dialer and
--     Connector.Listener are one of each, Connector.Pipe is a pipe. Gate and Limit are about the limit,
--     Pipes about pipes that come and go, Close about the end.
--   Socket: the socket with its queues, and where a message goes; Socket.Queues has the selects on a
--     queue, Socket.Recv the receiving half, Socket.Changes what a change of an option does.
--     Socket.Send is about the sending half, Socket.Sender about the senders of all pipes at work on the
--     queue that they share. Socket.Stop is what stops: stopPipe, stopSender and Close; Socket.Own is
--     about the queues of the pipes.
--   Exchange: a message on its way from one socket to another, over the pipes at the two ends of a
--     connection; RoundTrip is about a request and its reply, Ids about the connector, the ids and the
--     socket together, over the lives of pipes.
--   Switch: forward (switch.go). Pair: the two sockets that NewPair joins (pair.go).
--   Address: addresses with a connect type and options (address/address.go); Parse and Merge.
--   Transport.Channel: one direction of an in-process pipe (transport/inproc/channel/channel.go); Stream
--     is about the order of the bytes, Drain about reading after Close. Transport.Inproc: the map of
--     listeners and the calls on it (transport/inproc/inproc.go); Calls has its calls as steps, Served
--     and Rendezvous are about who can be reached. Transport.Schemes: the registry of transports and the schemes of addresses
--     (transport/transport.go). A listener and a dialer are pointers, which numbers stand for; a string
--     address is a number too. Transport.Channel.Packets: the packet and message pipes
--     (transport/inproc/channel/channel_sr.go, channel_msr.go).
--   Transport.Tcp, Transport.Ipc, Transport.Ws: listeners, dialers and connections over a network
--     (transport/tcp/tcp.go, transport/ipc/ipc_unix.go, transport/ws/ws.go). Transport.Contract has the
--     interface Listener of transport/types.go with the four implementations, and
--     Connector.Listener.Serve runs the loop of serve over it. Transport.Conn: the addresses of a
--     connection (transport/conn.go).
--   Errs: the errors as one type, and the three outcomes of a Go function: a value, an error, a panic.
--   Prelude: shared names, tests on numbers, lists, association lists, bytes, channels, integers.
--   Tests: runs at concrete inputs.
--
-- How it is modelled. Numbers are natural numbers; a Go integer type keeps its wrap-around, which is
-- written where the code can reach it. A map is an association list; a channel is its capacity and what
-- it holds. A select whose cases are ready is decided by an argument, and a call that has to wait is a
-- value of its own (`blocks`, `waiting`, `idle`, `full`). Locks are not modelled, since each operation
-- that holds one is one step; the lock of the registry is, because it is not always given back. Errors
-- are values. Calls of other packages are parameters: what a transport, a negotiator or a hook answers,
-- time.ParseDuration, url.Parse, what a socket, a file or a websocket of the operating system or of a
-- library answers, the random draw of the waiting time. A timer is whether it has fired, asked where
-- the code asks. The product of float64 values in the waiting time is exact, and rounded down.
--
-- Bounds. The loop of NextID runs on fuel, two rounds more than there are ids in use: of the ids that it
-- tries one after the other, at most one is 0 and the others differ. Option sets name each other by
-- address, and the look-up takes the depth it may go; the owner of an option is asked for with the same
-- depth. The loops of forward and of serve have no end of their own; they run for a number of rounds. So
-- does the loop of stopSender, since others may push messages between its rounds; without them, one
-- round more than there are messages is enough.
-- All else is structural recursion.
--
-- Not modelled: the pipes over library pipes (transport/inproc/netpipe, transport/inproc/iopipe), named
-- pipes of Windows (transport/ipc/ipc_windows.go), the http server that a websocket listener registers
-- with, deadlines, the registration of options by reflection, the buffered writer that nothing uses
-- (utils/bufio.go), perf and test programs, logging.
pub mod Address
pub mod Bytespool
pub mod Connector
pub mod Errs
pub mod Exchange
pub mod Message
pub mod Options
pub mod Pair
pub mod Prelude
pub mod Socket
pub mod Switch
pub mod Tests
pub mod Transport
pub mod Utils
