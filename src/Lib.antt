-- ===== src/Lib.antt =====
-- PCFS, a FUSE filesystem that stores files compressed: a model of its C code and what holds of it.
--
-- The parts of the program. PCFS.c holds the handlers that FUSE calls. Each finds the structure of
-- its file with direct_open (direct_compress.c), which keeps all such structures in a list, the
-- database, and purges it when it grows. What a purge finds unused and worth compressing goes to a
-- queue, from which a thread (background_compress.c) takes it to compress it as a whole
-- (do_compress of compress.c); a handler that needs the plain file calls do_decompress. file.c reads
-- and writes the headers of compressed files and makes temporary files. compress_W.c packs what a
-- write brings into sectors, page by page.
--
-- The files:
--   Base        shared names, tests on numbers, lists, texts, options.
--   Types       structs.h and the settings of globals.c. An off_t of -1 (a size that is not known, a
--               descriptor that is not open) is `none`; the bits of file_t.status are fields.
--   LinkedList  list.h: nodes with two pointers in a store. `Represents` relates the store to a
--               sequence of nodes, and each operation is shown to do to the sequence what it should.
--   Names       choose_compressor (compress.c), is_excluded and is_compressible (file.c), gethash
--               (utils.h). Names are lists of bytes.
--   Header      the headers: file.c (find_compressor, file_compressor, file_write_header,
--               file_read_header_fd, file_read_header_name, and the extended header:
--               file_write_ExtHeader, file_read_ExtHeader_fd), and find_compressor_name.
--   OpenFile    file_open and file_create_temp of file.c.
--   Database    direct_open, _direct_open_purge, direct_new_file, direct_open_delete and
--               flush_file_cache (direct_compress.c), background_compress_dedup
--               (background_compress.c). Structures live on a heap that maps an address to a file, or
--               to nothing once it is freed; a read through a pointer to a freed file has no result.
--               `Safe` is the invariant: the list and the counts agree, every file counts at least
--               its descriptors and the places that wait for it, and nothing refers to a freed one.
--   Rename      direct_delete and direct_rename.
--   Decompress  direct_close and do_decompress.
--   Compress    do_compress.
--   Background  thread_compress, in two halves: it takes an entry, and later handles its file.
--   Handlers    what PCFS_getattr, PCFS_unlink, PCFS_open, PCFS_release and the first half of
--               PCFS_write do to the file that direct_open found.
--   Truncate    PCFS_truncate and PCFS_link, which need the plain file.
--   Threads     what the threads do to the database, as steps: a handler finds its file, is woken, or
--               changes its file, a purge runs, a file is renamed, the background thread starts or ends
--               a round.
--   Sectors     set_flag, flush_page, check_and_flush, testCompress and PCFS_compress (compress_W.c),
--               get_type (compress_R.c).
--   Copy        the loops of nullCompress and nullDecompress (compress_null.c), gzCompress and
--               gzDecompress (compress_gz.c).
--   Stream      direct_decompress and direct_compress (direct_compress.c): Stream itself has the loop
--               that skips, Stream/Call the wait, the cache and the decision for the fallback,
--               Stream/Read the rest of the read, Stream/Write the write.
--   Directory   PCFS_readdir.
--   Unpack      the loop of testDecompress, decompress_page_1 and decompress_page_2 (compress_R.c), with
--               the marks and the sectors in memory.
--   ReadWrite   PCFS_read and PCFS_write: the first hands a read to direct_decompress, the second packs
--               every write into sectors and hands it to pwrite.
--   Fsck        tools/fsck.c: the check of a file, the walk and the exit status.
--   Offline     tools/offline.c: is_compressed and transform.
--
-- Conventions. A call of the operating system or of a compression module is an answer that the
-- function gets, in a record of answers where there are several, and the theorems hold for all
-- answers. `none` stands for what has no outcome in C: a freed pointer, a read outside of a table, a
-- write outside of a buffer, a failing assertion. A function runs with the locks that the code holds
-- around it; where do_compress gives up the lock, what others do to the file is a parameter. The
-- counters and sizes are natural numbers, with the wrap-around of the machine written out where the
-- code lets it happen: the products of the space test, the hash, the size of the cache.
--
-- Bounds. The loop of file_create_temp has fuel 52, one more than its counter admits, and never runs
-- out; the loop around deflate has one call for each byte of the request and one more, which is
-- enough since deflate consumes something; the loop that skips has one turn for each byte to skip,
-- which is enough since a turn that goes on reads something, and so has the loop of fsck; the loop
-- that unpacks has one turn for each sector. A wait on a condition is a list of what others do
-- between its wake-ups, and has no result when that is not enough. All other loops follow the list
-- they run over.
--
-- Not modelled: handlers that pass their arguments to one system call, options and start of the
-- program, log output, the options of the tools, the loop of PCFS_destroy, owner, mode and times of
-- replaced files, and which errno most handlers return. The page-level functions of
-- direct_compress.c, whose calls are commented out, are left out as well. zlib is a parameter.
-- PCFS_read waits while its file is decompressed: the steps of Threads have the calls of it that do
-- not wait.
pub mod Base
pub mod Types
pub mod LinkedList
pub mod Names
pub mod Header
pub mod OpenFile
pub mod Database
pub mod Rename
pub mod Decompress
pub mod Compress
pub mod Background
pub mod Handlers
pub mod Sectors
pub mod Threads
pub mod Truncate
pub mod Copy
pub mod Stream
pub mod Fsck
pub mod Offline
pub mod ReadWrite
pub mod Unpack
pub mod Directory
