-- ===== src/Lib.antt =====
-- TarsFramework: the control plane of Tars, a platform of services that call each other.
--
-- The registry (RegistryServer) tells clients where the endpoints of a service are. The admin
-- registry (AdminRegistryServer) executes lists of tasks, such as starting, stopping and
-- patching services, by calling the nodes. A node (NodeServer) runs on each machine: it starts,
-- stops and watches the services there, takes their heartbeats, limits their restarts and their
-- core dumps, and reports their states to the registry. The stat server (StatServer) and the
-- property server (PropertyServer) add up what services report. The patch server (PatchServer)
-- gives the nodes the files of a release, and the log server (LogServer) makes traces and
-- graphs of the logs of calls.
--
-- The files:
-- - Base and below it: Boolean tests, lists, keys, integers and maps. `int`, `int64_t` and
--   `time_t` of the sources are integers without bounds; the 32 bits of an address, the positions
--   in its text and the position of a download keep their wrap-around. A `std::map` is an association list in the
--   order of its keys.
-- - Registry/Endpoint: the fields of an endpoint and the constants of RegistryServer/util.h.
-- - Registry/Balance: RegistryServer/LoadBalanceThread.cpp and .h. `query_batches`,
--   `get_monitor_data_from_db`, `merge_load_info`, `calculate_weight` and `get_dynamic_weight`
--   are the functions of the same names; a division by zero is `none`.
-- - Registry/Ip and Registry/Groups: `stringIpToInt`, `Ip2Str`, `Ip2StarStr`, `getGroupId`,
--   `getGroupIdByName` and `load2GroupMap` of RegistryServer/DbHandle.cpp.
-- - Registry/Cache and Registry/Query: `updateObjectsCache`, `updateDivisionCache` and the
--   queries by id, group, priority, station and set, with QueryImp.cpp's query by set. A cache
--   is what its readers see.
-- - Node/Activator and Node/CoreLimit: NodeServer/Activator.cpp and ServerLimitResource.cpp.
-- - Node/Server: NodeServer/ServerObject.cpp and .h: `setState` and `synState` with the calls
--   of the registry, `checkPid`, `setPid`, and in Heartbeat the heartbeats and the timeouts.
--   Node/Server/Notice has the callbacks of `async_updateServer`, as calls after the report.
-- - Node/Commands: `canExecute` of NodeServer/CommandStart.cpp and CommandStop.cpp,
--   `execute` with `startNormal`, `startFinish`, `isAutoStart` and the progress of patches.
-- - Node/Commands/Changes: `canExecute` of NodeServer/CommandLoad.cpp, CommandAddFile.cpp,
--   CommandPatch.cpp, CommandDestroy.cpp and CommandNotify.cpp, `StatExChange` of
--   ServerCommand.h as `change_state`, and what `patchPro` of ServerManager.cpp does before a
--   patch is queued.
-- - Admin/Tasks: the list of tasks of AdminRegistryServer/ExecuteTask.cpp, its commands, the
--   serial list and, in Elegant, the list in batches with calls of `cancelTask` in between, in
--   Parallel the parallel list in any order of its items, and `checkTaskRspStatus`. The field
--   `executed` is added, a note of the tasks that `executeSingleTask` was called for.
-- - Admin/ExecuteTask: `ExecuteTask` of the same file, its maps of lists, `addTaskReq`,
--   `cancelTask`, `getTaskRsp` and the deletions of `run`; `Reachable` is its state under the
--   calls and the writes of the threads of its lists.
-- - Admin/Nodes: `createNodeCurrent`, `deleteNodeCurrent`, `getNodeCurrent` and
--   `eraseNodeCurrent` of AdminRegistryServer/NodeManager.cpp; an iterator of a list stands for
--   its element.
-- - Patch/Cache: PatchServer/PatchCache.cpp and .h; the slots are a heap, a buffer is a list of
--   bytes. Patch/Download: `download`, `__downloadFromMem` and `__downloadFromFile` of
--   PatchServer/PatchImp.cpp, and `SingleFileDownloader::download` of the node.
-- - Log/Trace, Log/Graph and Log/Aggregation: LogServer/LogAggregation.cpp and .h:
--   `updateISpan` and `updateITrace`, the walks that make graphs and `mergerIGraph`, and the
--   class with its maps.
-- - Stat/Hash: `StatHashMap::add` of StatServer/StatHashMap.h. Stat/Reports: `reportMicMsg`,
--   `addHashMap` and `dump2file` of StatServer/StatImp.cpp, `getTimeInfo` of
--   StatServer/StatServer.cpp.
-- - Property/Hash: `PropertyHashMap::add` of PropertyServer/PropertyHashMap.h. Both tables are
--   the record of operations `HashTable`, and `Keeps` has the laws; Stat/Hash/InMap is one that
--   has them.
-- - The modules Tests of each part, Admin/TaskTests and Admin/NodeTests, evaluate the theorems
--   at concrete inputs.
--
-- Locks make each modelled call one step; what another thread does in between is an argument,
-- as the calls of `cancelTask` are. The clock is an argument. The loop of
-- `TaskListElegant::doTask` has fuel, as much as the list has items, since each batch has one
-- at least. The walks over a trace have fuel, which is enough above the rank of the first span
-- where the calls have ranks; where they lead back no fuel is. The loop of a download runs over
-- the turns that it gets, and a turn more than the file has bytes is enough. Every other loop
-- runs over a list. The replies that a patch waits for are the list of those that come before
-- its timeout. `addTaskReq` counts as one step too, although it calls `cancelTask` after it has
-- released its lock, and so does a whole item of a parallel list. The copy out of a buffer of
-- the patch cache, which is made without its lock, is one step with the load.
--
-- Parameters stand for code that is not in the repository: `strto`, `sepstr` and `tostr` of
-- TC_Common, the rows of the database, the operating system (files, `malloc`), the Docker
-- daemon, the search engine, and the other end of each call; and for `std::hash` and
-- `std::sort`. Logging is left out. The tables in shared memory (TC_HashMap) and the writing
-- and reading of structures are parameters with laws.
-- The structures of a log, a trace and a graph are generated from files that are not in the
-- repository; their fields are those that the code uses.
--
-- Not modelled: SQL and its texts, files and scripts, the forking and killing of processes, the
-- readers of logs and the queue of timers, the preparation of files to patch, the servers of
-- configuration and notifications, the databases of statistics and properties, and the tools.
pub mod Base
pub mod Admin
pub mod Registry
pub mod Node
pub mod Patch
pub mod Log
pub mod Stat
pub mod Property
