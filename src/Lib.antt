-- ===== src/Lib.antt =====
-- A verification library for rpyc_async, a remote procedure call library whose two peers hold
-- references to each other's objects. From the wire upward:
--
-- - Codec: the words, the UTF-8 text and the decimal text that the serialiser uses. A double stands
--   for its 64-bit pattern, a text for its code points.
-- - Brine (rpyc_async/core/brine.py): `Brine.Syntax` the values, `Brine.Dump` `_dump` with its
--   registry, `Brine.Load` `_load` with its registry, `Brine.Dumpable` `dumpable`. A frozenset is the
--   list of its items in the order of iteration. The interpreter's limit on the digits of an integer
--   is a parameter, 0 for none. `load` takes one more than the number of bytes as fuel, since every
--   call of `_load` reads a byte. The interpreter's recursion limit is left out.
-- - Channel (rpyc_async/core/channel.py): `Channel.Packets` `send` and `recv`, and `Channel.Frames`
--   `Connection._extract_frames` of rpyc_async/core/protocol.py, which cuts frames out of whatever
--   chunks the event loop reads. zlib is two parameters.
-- - Stream (rpyc_async/core/stream.py): `SocketStream` over a list of the answers that the system
--   calls give.
-- - Colls (rpyc_async/lib/colls.py): `RefCountingColl`, the objects that the peer refers to.
-- - Connecting (rpyc_async/lib/__init__.py): `Timeout`, and `socket_backoff_connect` over the answers
--   that `connect` of the system gives.
-- - Protocol (rpyc_async/core/protocol.py): `Protocol.Attributes` `_check_attr` and `_access_attr`;
--   `Protocol.Objects` the allocator of an object's number and its `id_pack`; `Protocol.Boxing`
--   `_box`, `_unbox`, `_netref_factory`, `_handle_del`, and `BaseNetref.__del__` of
--   rpyc_async/core/netref.py; `Protocol.Deletions` the queue of deletions and its cleanup;
--   `Protocol.Link` two open connections with the references to its own objects that
--   one has sent to the other, as a step relation over those operations; `Protocol.Dispatch` the routing of frames, the inbound quarantine, and requests
--   with their callbacks; `Protocol.Requests` `_dispatch_request`, `_dispatch_request_async` and
--   their tasks, with what is sent for a request; `Protocol.Handlers` the handlers of requests for
--   an object; `Protocol.Cleanup` and `Protocol.Lifecycle` `_cleanup`, `close`, `aclose` in its two
--   steps, the close callbacks and waiters, and `on_readable` with the reader on the event loop;
--   `Protocol.Results` `AsyncResult` of rpyc_async/core/async_.py, and
--   `Protocol.Awaits` its `__await__`, with the futures of one result and the loop's queue of calls;
--   `Protocol.Sending` the send queue of `_send`; `Protocol.Bound` `_serve_bound` and what goes with it;
--   `Protocol.AsyncHandlers` the handlers of rpyc_async/core/async_handlers.py; `Protocol.Serving`
--   `serve` with its receive lock, `poll_all`, `serve_all`, and waiting for a result.
-- - Vinegar (rpyc_async/core/vinegar.py): `dump` and `load` of an exception. `sys.modules`, `repr` and
--   what a class accepts are parameters.
-- - Netref (rpyc_async/core/netref.py): which operations on a proxy stay with it, and the requests that
--   the others send, which `Protocol.Handlers` answers.
-- - Registry (rpyc_async/utils/registry.py): `Registry.Server` the commands of `RegistryServer`,
--   `Registry.Spec` a run of commands and the table of registrations that it is compared with. Names
--   and addresses are any types of keys, and `str.upper` is a parameter. `Registry.Wire` the datagrams: a turn
--   of `_work`, and what the clients send and make of the answers; ports are integers there.
-- - Service (rpyc_async/core/service.py): names and aliases, the configuration of `SlaveService`, and
--   `ModuleNamespace`. `str.upper` and importing are parameters.
-- - Servers (rpyc_async/utils/server.py): `Servers.Sockets` `Server` with the sockets of its clients
--   between the threads that accept, serve and close; `Servers.Pool` the connections of `ThreadPoolServer` between
--   the polling thread and the workers.
-- - Helpers (rpyc_async/utils/helpers.py): `Helpers.Buffer` `buffiter`, with one more than the number
--   of items as fuel, since every answer but the last has an item; `Helpers.Background`
--   `fire_and_forget` and its kin; `Helpers.Proxies` `async_` with its cache, a `WeakValueDict` of
--   rpyc_async/lib/colls.py.
-- - Prelude and Outcome: tests, lists and dictionaries over the native numbers, and Python's
--   exceptions as values. Witnesses: runs on concrete data.
--
-- A connection uses a channel, which uses a stream; boxed packages go through Brine, and so do the
-- exceptions that Vinegar dumps. A local object is a number, and what the code asks of it (its class,
-- hash, equality, address) is a record `Heap`; the handlers work on any type of objects with a record
-- of Python's operations. Where threads are modelled, in `Protocol.Sending` and
-- `Protocol.Bound`, a step is what stands under one lock, and in `Servers` what a thread does between
-- two accesses to shared data; elsewhere each method is a step. `Protocol.Serving` counts how often
-- one thread holds the lock. Logging is left out. A proxy is in the cache as long as it lives. Handlers that serve other requests while they wait are steps of
-- `Protocol.Link` in between. Calls of the service's hooks and of the operating system appear in
-- `Protocol.Lifecycle` and `Protocol.Requests` by their results, which events carry; fields such as
-- `fired`, `resolved`, `silent`, `added`, `removed`, `late_objects` and `late_proxies` record what
-- happened and have no counterpart.
--
-- Not modelled: the streams' own connecting and TLS; the forking, gevent and asyncio servers, and the
-- registration thread of a server; the other hooks of the service classes; inspecting and checking
-- instances; the classes made for proxies; sockets and waiting in the registry; and the helpers over these.
pub mod Prelude
pub mod Outcome
pub mod Codec
pub mod Brine
pub mod Channel
pub mod Stream
pub mod Colls
pub mod Connecting
pub mod Protocol
pub mod Registry
pub mod Vinegar
pub mod Netref
pub mod Service
pub mod Servers
pub mod Helpers
mod Witnesses
