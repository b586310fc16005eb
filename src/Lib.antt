-- ===== src/Lib.antt =====
-- Verification of C code in the device tree for msm7x27a: the list and the message queue of the GPS
-- library, the client, the server and the message layer of its remote procedure calls, the location
-- API on top of them with the calls that wait for a callback of the engine, the GPS engine interface
-- with its deferred thread and the requests of the network, the power and the lights module.
--
-- Base has the names and lemmas that all parts share: lists and tests on native numbers.
--
-- LinkedList models gps/utils/linked_list.c over the heap of Store: an element and a header are
-- records in a map from addresses, an operation is a command that ends with a value (done), at a NULL
-- dereference (crash) or out of fuel (spent). linked_list_init, linked_list_add, linked_list_remove,
-- linked_list_empty, linked_list_flush, linked_list_destroy and linked_list_search keep their names. A
-- loop takes fuel, and one unit more than the length of the list is enough. malloc is an argument, the
-- address that it returned or NULL; the calls of a dealloc callback are recorded in order.
--
-- MsgQ models gps/utils/msg_q.c. The mutex is held from the start of each function to its return and
-- given up only in pthread_cond_wait, so an interleaving of threads is a sequence of steps
-- (MsgQ.System): a call up to its return or its wait, or the return of a wait, spurious ones included.
-- MsgQ.Contract is what the queue asks of its list, LinkedList.Messages fills it, and MsgQ.Spec is the
-- queue as a list of messages with the number of threads asleep and awake.
--
-- Xdr models gps/libloc/librpc/xdr.c and, in Xdr.Transport, the buffer operations of
-- gps/libloc/librpc/svc_clnt_common.c. An int is its 32-bit pattern and signed comparison is written
-- out. Xdr.Wire is an algebra of sends, which append bytes, and receives, which take pending ones;
-- Xdr.Opaque has the padded byte strings, Xdr.Scalars the coders that switch on x_op.
--
-- Rpc models the headers that gps/libloc/librpc/rpc.c writes and gps/libloc/librpc/clnt.c reads.
--
-- SyncCall models gps/libloc/libloc_api-rpc/src/loc_api_sync_call.c: the slots, the callback thread
-- that fills them (loc_api_callback_process_sync_call) and, in SyncCall.Calls, the threads that
-- select, wait and make an ioctl. SyncCall.Reach has every locked section as a step. The loop of
-- loc_api_sync_ioctl runs over the list of answers of loc_ioctl, and has no result when all of them
-- are busy.
--
-- Power models power/power.c: the name of the governor, its settings and the boost file. What the file
-- system answers is an argument, and what is done to it a list of events.
--
-- Server models gps/libloc/librpc/svc.c: the list of services and svc_register and svc_unregister on
-- it, the serving thread and svc_dispatch (Server.Dispatch), arguments, replies and errors
-- (Server.Reply) and the shared transport (Server.Refcount). A dispatch function is known by its
-- address, and what it does to its entry is an argument. What is asked of the kernel is a list of
-- events.
--
-- Client models gps/libloc/librpc/clnt.c: clnt_call as the sections call_encode, call_send and
-- call_receive, the receive and the callback thread (Client.Receive) and the list of clients
-- (Client.Pool). Client.EndToEnd joins Client, Rpc, Xdr and Server: the bytes that one side leaves in
-- its outgoing message are those that the other side has read.
--
-- Xdr.Scalars.Storage has the coders of xdr.c that allocate. A pointer is none where it is NULL and
-- otherwise what it points at, and mem_alloc is an argument.
--
-- Glue models gps/libloc/libloc_api-rpc/gen-50000/loc_api_rpc_glue.c over SyncCall: the table of
-- callback functions (Glue.Callbacks) and the clients that share one RPC client (Glue.Clients). A
-- remote call is an argument, its status and its result.
--
-- Lights models lights/lights.c: the brightness of a color and the two files it is written to.
--
-- LocCfg models trim_space of gps/utils/loc_cfg.cpp: the loop over a buffer that it writes as it
-- reads. It ends at the NUL, so the length of the buffer is fuel enough. isspace is an argument.
-- LocCfg.Conf has the table of parameters and the reader of gps.conf on what fgets returns,
-- LocCfg.Settings and LocCfg.Operands the two directions: from the lines to the parameters, and from
-- the bytes to a line.
--
-- Ni models gps/libloc/libloc_api/loc_eng_ni.cpp: the requests of the network (Ni) and the
-- notification of the user (Ni.Notify), the coding of identities and addresses (Ni.Hex, Ni.Address),
-- and the thread that waits for a response as sections that interleave with requests and responses
-- (Ni.Session).
--
-- Engine models gps/libloc/libloc_api/loc_eng.cpp with loc_eng_xtra.cpp. An operation yields the
-- engine and a list of what it does beyond it. Engine.Api has the calls of the framework,
-- Engine.Events those of the modem, Engine.Thread the two halves of a round of the deferred thread,
-- and Engine.System lets them interleave, with the end of the thread and the rest of loc_eng_cleanup
-- behind it as steps; the actions of a round are one step. Engine.Xtra has the injection in parts:
-- total_parts rounds are enough, since a part is sent in each. Engine.Servers has the server
-- addresses, which are kept until the engine is initialised, and the position mode; name resolution
-- and the decimal form of a port are arguments.
--
-- Not modelled: the router device (read and write are arguments), logging, the wake lock of librpc,
-- the generated stubs and the wifi commands; of the GPS engine the injection of time and of a position
-- and the translation of the position and satellite reports; the radio, audio and camera parts, which
-- stand on Android and vendor libraries that this repository does not have.
pub mod Base
pub mod Store
pub mod LinkedList
pub mod MsgQ
pub mod Xdr
pub mod Rpc
pub mod Server
pub mod Client
pub mod SyncCall
pub mod Glue
pub mod Power
pub mod Lights
pub mod LocCfg
pub mod Ni
pub mod Engine
