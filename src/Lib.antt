-- ===== src/Lib.antt =====
-- ObjXp, the object exchange framework: a verification library for its object tree, its sessions
-- and its message layer.
--
-- The tree (src/ObexTree.cpp, include/ObexTree.h) maps paths such as /home/tv to objects and tells
-- registered callbacks of changes. Its callers reach it through sessions (src/MsgIo.cpp,
-- include/MsgIo.h), which exchange messages as frames on a byte stream.
--
-- Common has what the modules share: byte texts, lists over the native numbers, splitting at a
-- separator. `none` stands for an exception or a failed assertion of the source throughout.
--
-- Path models the static path functions of ObexTree: validObjPath, validCbPath, convertToDotPath,
-- convertToSlashPath, parsePath, objPathMatchesCbPath. The differences of lengths that the source
-- computes in size_t wrap at 2 ^ 64.
--
-- PropertyTree is the interface of boost's basic_ptree, which is not part of the repository: a
-- record of operations with the documented laws. PropertyTree/Rose fills it with finite trees.
--
-- Tree models ObexTree: MetaNode is ObexMetaNode, get_object, put_object and del_object are
-- getObject, putObject and delObject, with the walks through references written as recursions that
-- rebuild the path. A callback is an object with an identity, and `live` says whether a weak
-- pointer to it still locks. Its address is a parameter of the registration, as a later callback
-- may get the address of one that is gone, whose entry the map keeps. The calls of onUpdated and
-- onDeleted are a list of Notification. A callback is taken not to change the tree while it is
-- told. Tree/Callbacks has registerCallback, registerCallbackAndGetObjSet, unregisterCallback,
-- searchObjects and find; the searches run on fuel for the height of the tree. The text dump of the
-- tree is not modelled.
--
-- MsgIo models the layer of frames of MsgIoSession. MsgIo/Rx is handleRx: its loop takes fuel for
-- one more than the bytes in the buffer, and every round but the last takes a whole frame off it.
-- The socket is a list of bytes and the sizes of the pieces in which they arrive.
--
-- MsgIo/Tx is the sending half: send_msg, send_data, enq_msg and handle_tx are sendMsg, sendData,
-- enqMsg with deqMsg, and handleTx. The loop of sendData takes fuel for two more than the messages
-- in the queue, as every round that goes on puts a message away; running out is `none`, so that a
-- result shows that there was enough. dataLen() and what is left of a message are ints, written as
-- their low 32 bits; a negative one is copied as a huge size, which is `none` too. A message in the
-- queue is what makeSerializedMsg makes of it, and a run of a sender is a list of events: a message
-- for the queue, or a write of some bytes.
--
-- MsgIo/Put is PutObjectMsg::makeSerializedMsg and handlePutObjectMsg; MsgIo/PutWire has the way of
-- a put from the queue of a sender to the call of handlePutObject; positions in a text are size_t
-- with their wrap at 2 ^ 64. MsgIo/Transaction is ObexTransaction,
-- TransactionMsg::makeSerializedMsg and the parser of handleTransactionMsg, on fuel for one more
-- than the bytes of the text, as every round reads an element. The length that the parser reads is
-- an int, with the sign extended where it is added to a position; atoi is the one of the GNU
-- library, which stops at the ends of a long.
--
-- Server models the transactions of the server: begin_transaction and end_transaction are
-- beginTransaction and endTransaction of ObexServer, on_change is onUpdated and onDeleted of
-- ObexServerSession, finish_transaction its finishTransaction. The changes that the tree tells the
-- sessions of are given as a list.
--
-- Server/Objects models ObexServerSession on the tree: handle_put_object, handle_subscribe_msg,
-- disconnect_session, server_enq_msg and server_deq_msg are its functions of these names, and
-- destroy_session its destructor.
--
-- Server/Transaction models handleTransaction on the tree and the sessions together: the elements
-- are put and deleted one by one, and what the tree tells its callbacks, which are taken to be the
-- sessions, goes into their transactions.
--
-- Client models ObexClient (src/ObexClient.cpp): its sessions and connectors by their keys, with
-- the calls of its own users and those of the connectors and sessions. Client/Table is a table of
-- states that the client is measured against. Client/Cohab models ObexCohabClientSession on the
-- tree of its server, and Client/Remote what ObexRemoteClientSession sends, with its transactions,
-- and its handleTransaction on its own tree.
--
-- Bitset models Bitset (src/Bitset.cpp) over an interface for boost::dynamic_bitset; a comparison
-- is a number of rounds of the loop of isEqual.
--
-- YPath models _MkYPath, ParseYPath and GetYPathArg (src/YUtils.cpp). The loop over a format runs
-- on fuel for one more than its bytes, as a round takes at least two.
--
-- InfoProvider models ObexInfoProvider (src/ObexInfoProvider.cpp): info_on_updated is onUpdated,
-- with buildArgv, the handlers of ls and cat, and encode. It works on the tree of Tree by the paths
-- of YPath; the put of a reply and its notifications are results. The arguments of getopt are read
-- as its documentation says.
--
-- Connector models the state machine of SocketConnector (src/SocketConnector.cpp): each expiry of
-- its timer, with what connect, select and getsockopt return as the environment of the step. A run
-- has as many steps as environments are given, or stops when the timer is no longer registered.
--
-- IoObject models the flags of IoObject (src/IoObject.cpp) with the tables of descriptors that
-- registerRx, unregisterRx, registerTx and unregisterTx of src/BasicIoService.cpp keep for it.
--
-- Timer models Time and its operators (src/TimerObject.cpp), and registerTimer, unregisterTimer and
-- the expiry loop of run in src/BasicIoService.cpp. A callback is taken to leave the timers alone
-- while the loop runs.
--
-- Logging, the select loop, sockets and the bindings for other languages are not modelled.
pub mod Common
pub mod Path
pub mod PropertyTree
pub mod Server
pub mod Connector
pub mod IoObject
pub mod Client
pub mod Bitset
pub mod YPath
pub mod InfoProvider
pub mod Timer
pub mod Tree
pub mod MsgIo
