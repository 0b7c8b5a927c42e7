-- ===== src/Lib.antt =====
-- quiet-lwip: TCP/IP over sound. lwIP, a vendored TCP/IP stack, runs on threads of its own over an
-- OS port (src/lwip/sys_arch.c), and sends and receives its Ethernet frames by a driver
-- (src/driver.c with the samples in the caller's hands, src/driver_portaudio.c with a sound card),
-- which shares the copying of frames and their dispatch (src/util.c). The programs of examples/src
-- use the sockets of lwIP; the proxy's two relay threads hand connections to one another
-- (examples/src/relay.c).
--
-- Port is src/lwip/sys_arch.c, which lwIP calls. Port.Sem is `sys_sem` as a counter; Port.Mbox is
-- `sys_mbox` with `sys_mbox_trypost` and `sys_arch_mbox_tryfetch`, as one function for each part
-- of their bodies that runs under the mutex. Port.Mbox.Queue specifies the mailbox as a queue of
-- 127 messages, Port.Mbox.Overflow says how long its `int` indices last, and Port.Mbox.Threads has
-- `sys_mbox_post`, `sys_arch_mbox_fetch` and `sys_arch_mbox_tryfetch` as steps of threads that
-- interleave at every semaphore call; Port.Mbox.Safety is what holds of every interleaving.
-- Port.Clock has the arithmetic on times, Port.Wait the loop of `sys_arch_sem_wait`, Port.Protect
-- the nesting lock. Port.Objects makes and frees semaphores, mailboxes and threads in a heap where
-- `malloc` may fail.
--
-- Driver is the two drivers. Driver.Pbuf has lwIP's packets, with `pbuf_alloc` and its companions
-- as the record `PbufModule` and their documented behaviour as `Documented`. Driver.Frame is
-- src/util.c, with its theorems in Driver.Frame.Copies and Driver.Frame.Dispatch. Driver.Receive
-- has the receive loop of both drivers over the results of the decoder, Driver.Transmit the
-- sending of a frame, and Driver.Halfduplex the flags by which the second driver keeps from
-- talking over its peer, under any interleaving of its two audio threads. Driver.Setup has the
-- start of lwIP and the addresses of an interface. Driver.Lifecycle follows what is allocated,
-- opened and running through the creation, the closing and the destruction of an interface, and
-- Driver.Audio has the two audio threads of the second driver with their start and their shutdown,
-- as steps.
--
-- Proxy is examples/src/relay.c and the SOCKS server of examples/src/proxy_server.c.
-- Proxy.Crossbar has the two arrays through which the threads hand over connections, Proxy.Relay
-- the two loops of a relay thread over its arrays, which drop entries in place, and, in
-- Proxy.Relay.Round, a whole round of such a thread, and Proxy.Connection the life of one
-- connection in the hands of the two threads, with its count of closes. Proxy.Relays puts both
-- threads and `main` together, as steps that interleave in any order: a thread takes up its work
-- and runs its loops, it comes to one after the other of the effects on the other thread's
-- crossbar, and `main` hands over a new connection. Proxy.Session has a conversation with a
-- client, whose sockets return what a list says, and the buffer of 512 bytes; Proxy.Socks has the
-- handlers and a round of the main loop, with its children for the bounds of the buffer, the
-- greeting, the targets, the answers, whole rounds, and the sockets that are left open.
-- Proxy.Server has the round with its hand-over to the crossbars of both relay threads, and the
-- loop over any number of clients.
--
-- Kv is the store of examples/src/kv_server.c: Kv has its slots, `key_value_init`,
-- `key_value_find` and `key_value_add`, with `bsearch` and `qsort` as the record `Library` and
-- what the C standard says of them as `Documented`. Kv.Values has the values under a key in any
-- order of the slots, Kv.Store the invariant and the lookup, and Kv.Replace, Kv.Resize, Kv.Insert
-- and Kv.Add the insertion. Kv.Requests has a round of the server's loop on the bytes of a
-- request, and Kv.Loop the loop over any number of connections, with a map from keys to values as
-- its specification. Kv.Client is examples/src/kv_client.c with that server at the other end of
-- its connection.
--
-- Programs is what the six programs of examples/src share: Programs and Programs.Arguments have
-- their arguments, Programs.Main and Programs.Resources their start up to the interface,
-- Programs.Examples the six with their constants, Programs.Listening the sockets that they open,
-- and Programs.Discovery a round of examples/src/discovery_server.c and Programs.Exchange that
-- server with examples/src/discovery_client.c.
--
-- Code that can be undefined (a write past an array, the overflow of an `int`) or can wait is in
-- the monad `Outcome` of Prelude.Effects, with the results done, blocked and fault; `Ensures` says
-- that a call returns and what holds of its result. No model runs on fuel: the loops go by the
-- entries of an array, the chunks of a packet, or the calls of the decoder or of the condition
-- variable, which are a list. Integers are natural numbers with the wrap-around of their width
-- written out; `int` indices fault where C leaves an overflow undefined.
--
-- The decoder, the encoder, the sockets, `getaddrinfo`, `select`, PortAudio and the clock are
-- arguments of the definitions, lists of results, or the events of a run. The lock of a pthread
-- mutex is one step. Not modelled are lwIP itself, and what is printed for the user's information.
-- The loops without end run over the results of their calls, which are a list. The creation of an
-- interface takes `malloc` to succeed. ETH_PAD_SIZE is 0, lwIP's default, which
-- include/lwip/lwipopts.h keeps.
pub mod Prelude
pub mod Port
pub mod Driver
pub mod Kv
pub mod Proxy
pub mod Programs
