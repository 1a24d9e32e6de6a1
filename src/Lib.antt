-- ===== src/Lib.antt =====
-- Verification of xZTL, the user-space zone translation layer for ZNS drives.
--
-- The program. A key-value store writes and reads through the zrocks interface. A write goes to the
-- queue of its level, takes a node (64 zones) from the provisioning module, and becomes media commands
-- of 8 sectors that go round the node's zones; a read of a node is split in the same way. Nodes stand
-- on a free, a used or a full queue; trims count down a node's valid pieces, and the management module
-- resets a full node without any. Objects may be mapped from an id to a media offset through a cache of
-- mapping pages. Memory pools serve the modules, which the core starts and stops in order. Over the
-- interface stands a file system: a file is a list of the pieces that writes gave back, and a cache of
-- the bytes after them; records of the files' names and pieces go to the metadata zones, from which they are
-- loaded at start, and a collector moves the pieces of nodes that are mostly invalid.
--
-- The files, and the code that each models (paths from the repository's root):
--   Common, Consts, Data   shared helpers; the limits, status codes and structs of xztl/include
--   Addr                   the words with bit-fields of xztl.h, xztl-mods.h and libzrocks.h
--   Pro                    xztl/src/ztl-pro-grp.c and ztl-pro.c: ztl_pro_grp_get (grp_get),
--                          ztl_pro_grp_get_node (grp_get_node), ztl_pro_grp_node_init (Pro/Init),
--                          ztl_pro_new (pro_new), ztl_pro_free (pro_free)
--   Io                     xztl/src/ztl-io.c: ztl_io_read_ucmd (Io/Read, Io/Reading), ztl_io_write_ucmd
--                          (Io/Write), the submission of its commands (Io/Submit),
--                          ztl_io_submit and ztl_io_write_th (Io/Queue), ztl_io_init and
--                          ztl_io_exit (Io/Resources), the completion
--                          callbacks and ztl_io_nodeset
--   Map                    xztl/src/ztl-map.c with the table of ztl-mpe.c
--   Mgmt                   xztl/src/ztl-mgmt-cmd.c: resets and finishes of nodes, and their queue
--   Mempool                xztl/src/xztl-mempool.c
--   Boot                   the order of start and stop in xztl/src/ztl.c and xztl-core.c
--   Groups                 xztl/src/xztl-groups.c and ztl-zmd.c: groups_init, groups_get,
--                          ztl_zmd_create (zmd_create), ztl_zmd_get (zmd_get)
--   Metadata               xztl/src/ztl-metadata.c: zrocks_write_file_metadata, zrocks_read_metadata,
--                          zrocks_switch_zone
--   Zrocks                 xztl/zrocks/src/zrocks.c
--   Media                  xztl/include/xztl-media.h, xztl_media_check and xztl_media_set of
--                          xztl-core.c, and xztl/src/ztl-media.c: znd_media_submit_io, znd_media_async_cb
--                          and znd_media_zone_mgmt (Media/Commands), znd_opt_parse and
--                          znd_opt_assign (Media/Options), znd_media_register and
--                          znd_media_exit (Media/Register), znd_media_cmd_exec (Media/Queues)
--   Ctx                    xztl/src/xztl-ctx.c
--   Modules                xztl/src/ztl.c: ztl_mod_register (mod_register), ztl_mod_set (mod_set)
--   Stats                  xztl/src/xztl-stats.c: the counters
--   Env                    env/env_zns.h: ZNSFile (ZnsFile), the calls of zrocks (Library)
--   Env/Read, Env/Write    env/env_zns_io.cc: ReadOffset and Read, Append, Sync, Truncate, Close;
--                          the two copies of the loops of a read agree (Env/Read/Copies)
--   Env/Files, Env/Names   env/env_zns.cc: the map of the files, and their opening, deletion, renaming
--   Env/Bytes, Env/Meta    env/env_zns.cc: WriteMetaToBuf and the Flush...MetaData functions
--   Env/Load               env/env_zns.cc: RecoverFileFromBuf, LoadMetaData (Env/Load/Zones)
--   Env/Gc                 env/env_zns.cc: GCWorker, MigrateNodeFile
--   Tests                  the theorems at concrete values
--
-- The model. Structs are records, arrays and TAILQ queues are lists, a pointer into an array is an
-- index, and a step that would be undefined in C (an access out of range, a removal from the wrong
-- queue) gives `none`. Integers keep the wrap-around of their width. Operations take and give back the
-- state; taking a lock, which only orders them, has no counterpart.
--
-- Loops. The loop of ztl_pro_grp_get has fuel for 65 rounds, one more than the 64 zones that it
-- serves. The loop of a read has a round for each sector and one more, since a round reads at least one
-- sector. The rounds of a write have fuel for one more than its commands, since a round makes at least
-- one; so do those of file metadata, whose fuel is two more than the sectors. That they are enough is
-- part of the theorems, which give a result and not a fault. The loop that
-- takes one node after another (write_nodes) has a turn for each command and one more, and the tries of
-- zrocks_read have the fuel that they are given: they go on as long as the device answers with 22.
--
-- The loop of an append has a round for each byte, of which it takes 32 MB at once. The load of a
-- metadata zone has the fuel that it is given, for its records.
--
-- Parameters. The device is a function (zone_fn) from its state and a command to the result, the status
-- and the next state; the completion of write commands is a function from the commands to their
-- statuses; allocation gives each entry its memory or none; the `init_fn` of a part has any result, and
-- the groups count as running where the number that they return is positive, as ztl_init takes it. The
-- calls of xnvme are the functions of Xnvme, on commands and their contexts, of Devices, on handles, and of
-- Machine, with those of the C library, on memory, locks, threads and queues. The
-- file system is over any library with the calls of zrocks (Library); its theorems take what they rely on as
-- IsStore and ReadsCells. zrocks_write may return XZTL_OK for a write that failed (zrocks.c:127): IsStore
-- says what a write puts on the device only where no write was lost in this way (IsSound), and ReadsCells is
-- about the reads that succeed, so that the theorems say what holds where reads and writes fail. A
-- library over memory that loses writes and refuses reads fulfils both (Tests/Memory).
--
-- What waits for others may not return: whether ztl_io_write_ucmd returns for a command is a parameter of
-- the write thread (Io/Queue), and pthread_join gives a state or none (Machine). What a part leaves behind
-- whose init_fn fails is not modelled.
--
-- The sending of a read has the fuel that it is given: with two more than the times that the device
-- refuses, it ends. The scanning of the options has a round for each character that a conversion may take.
--
-- Not modelled: threads and their scheduling beside those of a write queue, the calls of the counters in
-- the other operations, the printing of statistics and the Prometheus exporter, xnvme itself, what a zone
-- report says, the start of the metadata zones; of the file system what is compiled out, the Posix
-- environment beside it, and interleavings of the collector with other threads.
pub mod Common
pub mod Consts
pub mod Addr
pub mod Data
pub mod Pro
pub mod Media
pub mod Ctx
pub mod Io
pub mod Mgmt
pub mod Metadata
pub mod Groups
pub mod Modules
pub mod Stats
pub mod Boot
pub mod Mempool
pub mod Zrocks
pub mod Env
pub mod Map
pub mod Tests
