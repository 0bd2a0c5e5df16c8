-- ===== src/Lib.antt =====
-- A verification of the core of TransProxy, a transparent proxy that takes the TCP, UDP and DNS
-- traffic of a network apart at the packet level.
--
-- Parts:
--   * Base: shared tests, lists, slices and machine words. A size_t is a native number below
--     2 ^ 64, with its wrap-around written out.
--   * Ring: Dev/Main/src/Base/RingBuffer.h and RingBuffer.cpp. A ring is a record of its buffer and
--     its two positions; available, free, peek, read, write and the two clear calls are functions
--     of it. Ring/Queue is the bounded queue that a user sees.
--   * Map: Dev/Main/src/Base/Map.h and Map.cpp. A tree is a data type whose nodes keep the parent
--     link and the height field of the code; an item has an identity in place of its address. A
--     call that aborts or follows a null pointer gives none. Map/Order is the interface of key
--     types. Map, Map/Remove and Map/Api hold the operations, their children the proofs.
--   * Links: Dev/Main/src/Base/List.h and List.cpp. A list is its two ends, its count and the links of
--     all items, which are named by their addresses.
--   * Text: Dev/Main/src/Base/String.h. A text is the list of its bytes before the closing NUL; its
--     comparisons make it a key of maps.
--   * Rules: Dev/Main/src/TransProxy/DomainRules.h and DomainRules.cpp. The nodes of the two trees of
--     rules are a store of their childs maps: a node is the place of its map, which its item carries
--     as identity. Rules/Line is the parser of a line; Rules/Labels says what a rule means.
--   * Resolver: Dev/Main/src/TransProxy/DomainResolver.h and DomainResolver.cpp: the two maps between
--     names and fake addresses, whose items name the hosts of a list, dns, ddns and the cache file,
--     which is the list of its bytes (Resolver/File). Rules objects are pairs of functions.
--     Resolver/Opens puts the resolver behind the translator.
--   * Trans: Dev/Main/src/TransProxy/TransTCP.h and TransTCP.cpp, ProxyAuthHTTP.h, ProxyAuthSock5.h.
--     In Trans/Auth a handshake is a value, and its calls of the connection are a list. Trans/Conn is
--     _Connection: a Run is the connection, the totals of the translator and the packets sent so far;
--     every handler is a function of it, dispatch_packet and fire (a timer that has fired) are its
--     entries, and a null pointer that is followed gives none. Trans/Agent is _allocAgentAddress.
--     Trans/Table is TransTCP itself: the two maps that lead from the addresses of a packet to its
--     connection, and dispatchPacket over them.
--   * Tcp: Dev/Main/src/TransProxy/TcpConnection.h and TcpConnection.cpp, a connection that the proxy
--     ends itself. An Endpoint is its fields, with the packets sent so far; Tcp/Receive is
--     dispatchPacket, Tcp/Timer the two timers, Tcp/Send what a user calls, Tcp/Open accept, connect
--     and the destructor. A user is a Listener, which answers with calls. Tcp/Run has the steps of a
--     connection, accept and connect among them. Tcp/Wire is sendPacket down to its bytes. Tcp/Server is TCP of TCP.h and TCP.cpp:
--     the servers, and the dispatch of a packet to a connection or a server.
--   * Udp: Dev/Main/src/TransProxy/UDP.h and UDP.cpp: the map of the sockets, send down to the bytes
--     of the datagram, and dispatchPacket.
--   * Ping: Dev/Main/src/TransProxy/Ping.h, the answer to a ping.
--   * Dns: Dev/Main/src/TransProxy/DnsAgent.h. An agent is its table of pending queries and its next
--     id; an access outside of the table, or of data of less than two bytes, gives none. Dns/Server is
--     DNS.h and DNS.cpp: the queries of clients, answered or passed on, and the log; the use of a request
--     that is deleted gives none.
--   * Net: Dev/Main/src/Net/IPv4.h. Socket addresses, the two ends of a connection and service
--     addresses with their comparison operators, which make them keys of maps.
--     Net/Checksum is sum and checksum of Dev/Main/src/Base/Math.h. Net/Packet is
--     Dev/Main/src/Net/Packet.h: a list of bytes with its size, where an ASSERT that fails and an
--     access outside of the memory give none; the memory of a packet holds its size. Net/Ip,
--     Net/TcpHeader and Net/UdpHeader are the headers over it, and Ip.send_packet is sendPacket of Dev/Main/src/TransProxy/IPv4.h, which cuts a
--     buffer to the size in its IP header.
--
-- How they interact: the connection tables of the proxy are maps keyed by addresses, so the
-- instances of Net fill the interface that Map takes. A connection drives its handshake: it passes
-- the bytes of the upstream proxy on, and answers the calls that come back. A TCP endpoint keeps what
-- it receives and what it sends in two rings. The packets that it sends are those that the headers of
-- Net lay out. The translator asks the resolver for the name that an address stands for; the resolver
-- asks objects such as the domain rules whether a name goes through the proxy.
--
-- Bounds: the buffer of a ring has at most 2 ^ 61 bytes, so that twice its size is a size_t; a map
-- has fewer items than a size_t counts. The loop of checksum runs on fuel, of which three rounds are
-- enough. The loop of _send runs on fuel, one more than the bytes to send, of which it takes at least
-- one in a round; the loop of connect on a number of rounds, of which 65536 see every port: its result tells
-- rounds that are up from the end of the loop and from a port that is found. The loop over
-- the cache file runs on fuel, one more than the bytes of the file; an entry has at least twelve. The
-- loop over the labels of a query has as much fuel as the query has bytes. The loops over the labels
-- of a domain recur on the place in the text. All other recursion is on the tree, the list of calls
-- or the bytes. Sequence numbers have 32 bits, windows 16; the sum of a sequence number and a size_t has 64 bits, as in a 64-bit build.
--
-- Parameters: String::format stands on vsnprintf, so the print of the CONNECT request is an argument;
-- so are the memory that new returns and that a buffer has on the stack, and what random returns. A
-- char is signed. The translator takes the resolver and the builder of handshakes as what Hosts says
-- of them; Resolver/Opens fills it with the resolver.
--
-- Not modelled: the custom lists, the HTTP pages of the parts, StringBuilder and the formats of String,
-- the tun device, sockets, the event loop, threads, logging, SSL, and the parsers of
-- configuration, JSON and HTTP. Sockets, the event loop, threads and SSL are calls of the system; the
-- others do not change the state that is modelled here.
pub mod Base
pub mod Dns
pub mod Links
pub mod Map
pub mod Net
pub mod Ping
pub mod Resolver
pub mod Ring
pub mod Rules
pub mod Tcp
pub mod Text
pub mod Trans
pub mod Udp
