-- ===== src/Lib.antt =====
-- Boost.Actor: the parts of the library that do not depend on threads, sockets or templates.
--
-- The actors' runtime is in libboost_actor_core, the network layer in libboost_actor_io. Senders
-- push messages on an actor's mailbox; the actor takes them over in batches, keeps those that it
-- skips in a cache, and matches each against the patterns of its behavior. Between processes the
-- messages travel as BASP: a header of 72 bytes that names nodes and actors, and a payload. A
-- routing table says over which connection a node is reached.
--
-- Files and the code that they model (paths from the repository's root):
--   MessageId         libboost_actor_core/boost/actor/message_id.hpp
--   Atom              libboost_actor_core/boost/actor/detail/atom_val.hpp, atom.hpp, and the printing
--                     of atoms in libboost_actor_core/src/string_serialization.cpp
--   TryMatch          libboost_actor_core/src/try_match.cpp, boost/actor/detail/try_match.hpp, and
--                     match_element of boost/actor/detail/tuple_vals.hpp
--   Mailbox           libboost_actor_core/boost/actor/detail/single_reader_queue.hpp
--   Mailbox/Cache     libboost_actor_core/boost/actor/detail/intrusive_partitioned_list.hpp
--   LocalActor        libboost_actor_core/src/local_actor.cpp and boost/actor/local_actor.hpp: the state
--                     of an actor, with response_promise.hpp, behavior_stack.hpp and duration.hpp
--   LocalActor/Requests, Timeouts   synchronous requests and the timeout of a behavior
--   LocalActor/Handlers, Calls      what user code may call, promises, and the result of a handler
--   LocalActor/Invoke               filter_msg and invoke_message
--   LocalActor/Priority             next_message and push_to_cache
--   LocalActor/Resume, Loop         cleanup, enqueue and the loop of resume, with
--                                   libboost_actor_core/src/event_based_actor.cpp and
--                                   libboost_actor_core/src/sync_request_bouncer.cpp
--   LocalActor/Scheduling           launch, and the jobs that the scheduler holds
--   Binary            libboost_actor_core/src/binary_serializer.cpp and binary_deserializer.cpp
--   NodeId            libboost_actor_core/src/node_id.cpp
--   Basp/Header       libboost_actor_io/src/basp.cpp: headers, their validity and wire format
--   Basp/Routing      libboost_actor_io/src/basp.cpp: routing_table
--   Basp/Instance     libboost_actor_io/src/basp.cpp: instance, with what it writes (Write) and the
--                     published actors (Publishing)
--   Basp/Proxies      libboost_actor_io/src/basp_broker.cpp: make_proxy, the backend of the namespace
--   AbstractActor     libboost_actor_core/src/abstract_actor.cpp and default_attachable.cpp
--   Registry          libboost_actor_core/src/actor_registry.cpp
--   Namespace         libboost_actor_core/src/actor_namespace.cpp, with anchor::get of actor_proxy.cpp
--   Namespace/Address write and read of actor_namespace.cpp
--   ActorPool         libboost_actor_core/src/actor_pool.cpp and sync_request_bouncer.cpp
--   Common            lists, maps and tests that the others share
-- Definitions carry the names of the functions that they model. Where two functions of the code share
-- a name (erase, blacklist, lookup_direct), the comment at the definition names the one meant.
--
-- How the code is represented:
--   Machine words are natural numbers with the wrap-around written out; `&` and `|` by a mask are
--   quotients and remainders by a power of two. A pointer that may be null is an optional value, and
--   mailbox elements stand for their addresses. `memcpy` of integers is little endian.
--   Every access of the mailbox's `stack_` is one atomic step. The retry loop of `enqueue` works on the
--   memory, `stack_` and the `next` of each element; it is given the states that other threads bring
--   about at each of its attempts, and ends after the last of these. The loop is lock free and not
--   wait free, so that a bound on interference is what makes it end. Elsewhere a stack is a list.
--   Assertions are not checks: where a definition is used outside them, it does what the code does
--   without them. The output array of `try_match` has no end, so that a write past it is seen.
--   Node IDs are a type with a test that decides equality in the routing table; NodeId says for which
--   IDs `operator==` is that. Unordered containers are lists, walked in the order of the list.
--   Hooks, callbacks and calls of the broker are events, returned in the order in which they are made.
--
--   Links between actors and the messages to a pool are steps on a store; the locks that the code
--   takes for each of them are left out. In the BASP instance the bytes of a header and the reading
--   of a handshake's payload are parameters, and a written message is its header and its payload.
--
--   User code of an actor is a program: for each call of a handler, the operations that it invokes on
--   its actor, in order, and what it returns. What an actor does to others is a list of events. Mailbox
--   elements are places in a memory, so that a handler's changes to the current element are seen later.
--   `resume` is given what other actors enqueue while it runs: before each round, and between the last
--   look at the mailbox and `try_block`. A handler does not look at the mailbox, so that nothing is
--   said of arrivals while it runs. Where the code asks an empty behavior for its timeout, and so goes
--   through a null pointer, the state is marked as undefined, and tells nothing of the code from then on.
--   Its loops run on fuel: `max_throughput` rounds, the mailbox's elements and one more for a read of
--   all of it, and the skipped messages and one more for a pass over the cache.
--
--   In the namespace a proxy stands for its anchor, and which anchors have expired is an argument of
--   each operation; the backend that makes proxies is an interface.
--
-- Not modelled: the messages that a proxy forwards, blocking and detached actors, exceptions that
-- user code throws, what waits on mutexes and condition variables, the scheduler, sockets and the
-- event loop, messages and typed interfaces as templates, the type registry, groups, logging, and the
-- identification of the host. They are input and output, or code that a template generates.
pub mod Common
pub mod MessageId
pub mod Atom
pub mod TryMatch
pub mod LocalActor
pub mod Mailbox
pub mod Binary
pub mod NodeId
pub mod Basp
pub mod AbstractActor
pub mod Namespace
pub mod Registry
pub mod ActorPool
