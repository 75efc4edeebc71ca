-- ===== src/Lib.antt =====
-- The network engine, the task engine, the cluster layer and the clients' nodes of the ZoomPipeline
-- function server (ZoomPipeline_FuncSvr/), and the client program for it (FunctionalClientTest/).
--
-- The program is a TCP server in C++ on Qt. Its network engine (network/) owns the sockets: a
-- listening thread hands each new descriptor to the engine, which hands it to the trans thread with
-- the fewest clients; a trans thread sends and receives for its clients and keeps what a socket did
-- not take yet in a queue. Above it, the cluster layer (cluster/) lets servers find each other: each
-- connection to another server is a node, the blocks that arrive on it are queued, and a task cuts
-- them into messages and acts on them; a table of names leads to the nodes.
--
-- - Common: numbers, lists, little-endian words (Common/Bytes), and maps (Common/Map), which stand
--   for QMap, QHash and std::unordered_map.
-- - Common/Utf8: a text is a QString, as its 16-bit units; QString::toStdString and
--   QString(const char *) are UTF-8 and back. `QString += char` takes a byte for a character.
-- - Cluster/Frame: zp_ClusterNode::filter_message (cluster/zp_clusternode.cpp). A block is a list of
--   bytes, the offset the bytes that are left. `bitLeft` keeps its 32 bits. The loop runs on fuel
--   (`rounds`: twice the bytes left, and two), which is enough: a round that consumes no byte ends a
--   message, and the round after it consumes one. Cluster/Frame/Stream describes the reader a byte
--   at a time, independently of the code; its children lead from a round of the code to that.
-- - Cluster/State, Cluster/Wire: the members of zp_ClusterNode and zp_ClusterTerm, with a memory from
--   numbers to nodes for the pointers; the packed layouts of cluster/cross_svr_messages.h.
-- - Cluster/Term, Cluster/Sessions: zp_ClusterTerm (cluster/zp_clusterterm.cpp): registration,
--   broadcasts and the choice of the least loaded server; the slots that the engine calls. Each slot
--   holds the mutex of the tables while it works on them, and is one step here.
-- - Cluster/Node, Cluster/Run: deal_current_message_block and run of zp_ClusterNode.
-- - Network/Trans: zp_netTransThread (network/zp_nettransthread.cpp): what is sent, and the rubbish
--   can in which closed sockets wait for their deletion.
-- - Network/Pool: zp_net_Engine (network/zp_net_threadpool.cpp): threads, listeners, connections.
-- - Pipeline: the task engine (pipeline/). FetchNewTask is cut at its mutexes and calls, and a step
--   relation has every order of the threads' actions, of pushTask and of the signals.
-- - Smartlink/Table: st_client_table (smartlink/st_client_table.cpp): the clients by connection and
--   by id, and the clients of the other servers. Smartlink/Directory is what the table promises of
--   its clients, without the nodes: who is connected, with which id, and whom an id leads to.
-- - Smartlink/Frame, Smartlink/Session, Smartlink/Run: st_clientNode_baseTrans
--   (smartlink/st_clientnode_basetrans.cpp): the reader of a client's connection, and what is done
--   with heart beats and ids. A copy from past the end of a block is an outcome of its own,
--   `read_past`. The loop runs on fuel (`rounds`: twice the bytes left, and two), as that of the
--   cluster does. Frame/Relay follows a stream of messages that are handed on piece by piece.
-- - Smartlink/App: st_clientNodeAppLayer (smartlink/st_clientnode_applayer.cpp,
--   st_clientnode_app_imp.cpp): the relations in App.antt, the requests and their replies in
--   App/Requests, what leads to them in App/Dispatch. The database is a parameter, the record
--   `Database` of the calls that are made of it.
-- - Smartlink/Cross: st_cross_svr_node (smartlink/st_cross_svr_node.cpp): what another server says
--   about its clients, and the data for ours. Its loop runs on fuel, twice
--   the bytes and two: a round takes a byte, or empties a node that had a complete message.
-- - Client: MainDialog of FunctionalClientTest/maindialog.cpp: the messages that it sends
--   (Client/Requests), its reader (Client/Reader), and the server's replies (Client/Replies).
--
-- Calls of Qt and signals are values in a list of events, in the order in which they are made. The
-- time is an argument. QHostAddress, the virtual method deal_user_data, and the number of bytes that
-- QTcpSocket::write takes are parameters. Numbers of clients and sizes of queues are taken to fit
-- their C++ types; `bitLeft`, the marks, lengths and ports keep their widths.
-- The size of what a reader holds of a message, an `int`, is a number without bound: what is stated of
-- the messages between servers that are dealt is for less than 2^30 bytes of data, and what the code
-- does when the `int` overflows, at 2^31 bytes with the header, is not modelled.
--
-- Not modelled: SSL set-up, the threads and event loops of Qt and the connecting of signals, log
-- texts and byte counters, which have no bearing on what is stated here; stopping the threads of the
-- task engine; the listening thread, the logger, the database pool, the windows' fields and settings,
-- and the load test.
pub mod Client
pub mod Cluster
pub mod Common
pub mod Network
pub mod Pipeline
pub mod Smartlink
