-- ===== src/Lib.antt =====
-- The verification of rpmem, which lends memory of a server to clients over RDMA. A client opens a
-- connection, maps part of a resource of the server, reads and writes it by RDMA, has it
-- synchronised by a commit, unmaps it and closes the connection. The requests and responses are
-- commands of 48 bytes, sent and received over a queue pair.
--
-- Protocol and its modules model rpmem_protocol.c and rpmem_protocol.h: Protocol/Buffer the bytes
-- of a command, Protocol/Messages the fifteen functions `pack_…` and `unpack_…` under their own
-- names, and Protocol/Spec what they are for, a request or a response as a datum. Machine models
-- what the code runs on: Machine/Calls has one constructor for each call of code outside the
-- repository (verbs, the connection manager, threads, locks, mmap, msync), and a record Os that
-- answers every call as a function of the calls made before it; Machine/Monad has computations
-- over a state that write down every call and end in a result, in a fault (NULL dereferenced, an
-- array overrun) or out of fuel; Machine/Rules has the rules to reason about them, and
-- Machine/Objects counts the objects created and destroyed. The list of calls has the latest
-- first. Handles and pointers are numbers, 0 is NULL, and a struct behind a pointer is looked up
-- in a heap where the code has several. Conn models the functions of rpmem_common.c that post work
-- requests, and `struct rpmem_conn` of rpmem_common.h, and Conn/Address `get_addr`.
--
-- Server models rpmem_server.c: Server/State its structs, Server/Handlers the handlers
-- `rpmem_handle_…` of the five requests, Server/Events `rpmem_rcv_completion`, `rpmem_handle_wc`,
-- `cq_event_handler` and a round of `cq_thread`, Server/Connect `rpmem_conn_init`,
-- `rpmem_create_qp` and `rpmem_connect_request_handler`. The labels that the code jumps to are
-- definitions, named for the label or for what the code there does.
--
-- Server/Start has `main` behind its arguments, `rpmem_bind_server`, `rpmem_server_cma_handler`
-- and a round of `cm_thread`, and Server/Args `process_inargs` and the rest of `main`. A unit
-- stands in the list of connections for the connection inside it. Server/Fleet puts the server and
-- all its units together: a state is the server with a list of units, a step is the handling of
-- one completion by the `cq_thread` of a unit or a round of `cm_thread`, whatever calls the other
-- threads have made before it, and the sequences of steps are a data type. Server/Threads cuts the
-- handlers into sections: `Cut` is what is left of a handler, `Turn` one turn of a thread, with
-- the waiting for the lock; Threads/Runs relates the sections to the handlers, Threads/Quiet and
-- Threads/Invariant say what a section keeps with the lock and without it, and Threads/Safety,
-- Threads/Locking and Threads/Lost what follows for the server. Server/Stays and Server/EventsStay
-- prove once what the handlers, the dispatch and the rounds keep, from laws on a receive, a
-- response and the three changes of the pool; Server/Keeps, Server/Ready and the invariants fill
-- the laws. Server/Single is the server with the one resource that `main` gives it,
-- Server/MapFailure the map requests that fail, and Server/MapUnmap a map and an unmap in turn.
-- Server/Leases is what the server promises about its resources: the pool, as a quotient of lists
-- that forgets their order, from which leases are taken and to which they return. Server/Stages
-- states `rpmem_conn_init` against the reference of Conn/Acquire, objects made in turn and
-- destroyed in the opposite order, which Client/Stages uses for `rpmem_addr_handler`.
--
-- Client models rpmem.c and rpmem.h: Client/State the structs, Client/Events `rpmem_handle_wc`,
-- `cq_event_handler`, a round of `cq_thread` and the wait for the semaphore of the calls,
-- Client/Connect the handlers of the events of the connection manager, a round of `cm_thread` and
-- the wait of `rpmem_open`, Client/Session `rpmem_open` and `rpmem_close`, and Client/Api
-- `rpmem_map`, `rpmem_unmap` and `rpmem_commit`. A semaphore is its count. While a call waits for
-- one, the thread that posts it runs its rounds, as many as the fuel of the call says, which is a
-- parameter: two are enough for a call when the next event of the channel brings its completion,
-- and four for the three events of the connection that `rpmem_open` waits for.
--
-- Examples models the three example programs (simple_open_close.c, simple_map_unmap.c and
-- simple_commit.c) over the client, with Client/Sequence for the calls that follow one another,
-- and Log the log (rpmem_log.h and rpmem_log.c) over a state that is what has been printed.
--
-- System composes the client and the server: a call of the client whose request a unit of the
-- server serves, with what the unit sends as the bytes that come back.
--
-- An int or a uint32_t is a number below 2 ^ 32, its arithmetic wraps around, comparisons of ints
-- read it in two's complement, and -1 is 4294967295; a uint64_t is a number below 2 ^ 64. A
-- variable that is read before it is assigned holds what Os gives for it (junk32, junk64). A map
-- request carries the int `len` as it stands, and `mmap`, `ibv_reg_mr`, `munmap` and `msync` take
-- it sign-extended. The loop of `cq_event_handler` runs on fuel, 64 rounds: a round that goes on
-- has found at least one completion, and 64 completions end the loop. Requests of different
-- connections are served by threads of their own, which take turns: in Server/Fleet from one
-- completion to the next, in Server/Threads from one section of a handler to the next. There a
-- thread that is to take `res_lock` waits until no thread has it, and keeps it until it gives it
-- back. A section is one read of a shared variable, the search of the pool, what is done with the
-- resource that it has found or that comes back, or code that touches only the unit and the
-- resource that it holds; single machine accesses inside a section are not interleaved. In the
-- handlers as a whole, and for the other locks, a lock is a call like any other.
--
-- Not modelled are what the programs print beside the log (`printf`, `perror`), the name of a
-- resource, which is only printed, the flags of mmap, the pointers that are handed to the verbs
-- library as a context (`qp_context`), and the parameters of rdma_accept and the text that `usage`
-- prints. Neither are the bytes of the memory that is mapped, nor the flags and parameters of
-- calls that the code leaves constant. What `getopt_long` finds on a command line, and the text
-- that `vsnprintf` makes, are given. The Makefile is not modelled.

pub mod Base
pub mod Protocol
pub mod Machine
pub mod Conn
pub mod Server
pub mod Client
pub mod System
pub mod Examples
pub mod Log
