-- ===== src/Lib.antt =====
-- djmount mounts the contents of UPnP AV devices as a file system. This library models its C code under djmount/
-- as functions on explicit state.
--
-- * Charset is djmount/charset_internal.c, the built-in 8-bit charsets: `init_charset` makes the two tables from
--   the code pages of Charset/Codepages; `ascii2utf` and `utf2ascii` convert between a charset and UTF-8 as far as
--   the room in the output allows; `ascii2utf_size` and `utf2ascii_size` estimate it. The input and output
--   pointers with their counts are the record `Conv`.
-- * Conversion is djmount/charset.c in the build without iconv: the choice of a charset from the argument, the
--   environment and the locale, the state `g_state`, and `Charset_ConvertString`, which calls Charset in a loop
--   with a buffer that grows. The environment is the list of its strings in memory, over which one line of the
--   code writes; what the C library's locale makes of it is a parameter. iconv is another library, so that its branches are left out, as is
--   `Charset_PrintString`, which only writes to a stream.
-- * Strings is djmount/string_util.c: stripped strings, file names, integers, Booleans and the hash.
--   `StringStream` wraps a stream of the C library and is left out.
-- * FileBuffer is djmount/file_buffer.c: the content of a file, in memory or read over HTTP. The HTTP client of
--   libupnp is the record `Http`, a parameter. `read` is `FileBuffer_Read` at an offset that is not negative,
--   as those of the file system are, and `read_at` at any offset.
-- * Vfs is djmount/vfs.c with the macros of djmount/vfs_p.h. A browse function is written with these macros, and
--   one function serves to list a directory and to look up a path. Vfs/Macros has each macro as a function from
--   its body, a `Block`, to a block: `dir_block` is _DIR_BEGIN to DIR_END, `file_block` _FILE_BEGIN to _FILE_END,
--   `sub_block` BROWSE_SUB, and `cleanup` is the jump to the label. The results that a query points to are the
--   record `Found`. Vfs/Tree says what a block describes: a `Tree` of directories and files, in which `resolve`
--   looks up the names of a path. Files get their content from FileBuffer.
-- * PtrArray is djmount/ptr_array.c: the memory of an array is a function from the index, with the capacity and
--   the size beside it, and PtrArray/Contents gives its elements as a list.
-- * DeviceList is djmount/device_list.c: the list of the known devices with its search functions and
--   `make_device_name`. DeviceList/Changes has the operations that change the list (`AddDevice` in its two
--   critical sections and what it does between them, `VerifyTimeouts`), DeviceList/Access the locks and the calls
--   of methods of devices, DeviceList/Events `EventHandlerCallback`, `DeviceList_Start` and `DeviceList_Stop`. The
--   UPnP library, the devices and their services are the record `Outside`, which works on a state of its own.
--   Threads are the steps of DeviceList/Steps: a critical section is one step, and `AddDevice` makes its device
--   between two of them. The step `outside` stands for the devices and the network, which change by themselves.
--   DeviceList/Table sees the list as a table from identifiers to devices. Device names are
--   cleaned by Strings.
-- * Cache is djmount/cache.c as it is compiled, with CACHE_FIXED_SIZE 0. The hash table of gnulib is the record
--   `HashTable`, with what its documentation promises in `Laws`; the table holds addresses of entries, and the
--   memory of the entries is a function in the record `Cache`. `get` is `Cache_Get` at a given time.
-- * ContentDir is djmount/content_dir.c. `browse_or_search_action` is one request: the service and the XML library
--   are the record `Server`, whose state counts what is sent. `browse_or_search_all` retries for missing results,
--   and ContentDir/Service puts the children into Cache (`browse_or_search_with_cache`). They are shared by
--   reference: an address leads to objects, and to the number of its references, which `talloc_free` lowers.
--   ContentDir/References, Counts, Results, Held and Live follow these numbers. The objects are made by
--   DidlObject.
-- * MediaFile is djmount/media_file.c: the table of MIME types, the choice of the <res> element of an object that
--   is served, the name of its file and the text of its playlist. The XML library is a parameter: a `Resource` has
--   what it gives for an element. Sizes are read by Strings.
-- * DidlObject is djmount/didl_object.c: the object that is made from an element, with the basename of its file.
-- * Djfs is djmount/djfs.c: `BrowseRoot` and `BrowseChildren`, written with the macros of Vfs, on the objects of
--   DidlObject and the files of MediaFile. What the devices and the XML library answer during a call of
--   `VFS_Browse` is the record `Network`. `BrowseSearchDir`, which is called only where there is a search history,
--   is a parameter. Djfs/Trees has the directories and files as trees, which Djfs/Pieces and Djfs/Describes
--   compare with the browse functions; Djfs/Depth is about how deep they go, Djfs/Names about the names in them,
--   and Djfs/Paths about paths.
--
-- A C string is the list of its bytes without the final NUL; a pointer that may be NULL is an `Option`. The static
-- variables of a C module are a record that its operations take and return. Machine integers are numbers with
-- their wrap-around written out. talloc and malloc are taken to succeed, but for the allocations of
-- `Charset_ConvertString` and of PtrArray, whose success is a parameter.
--
-- Loops over a string are structural. Four loops and a recursion run on fuel. That of `utf2ascii` takes the length
-- of the input, since each round reads a byte; that of `Charset_ConvertString` takes the length of the input with
-- its NUL, since each round converts a character once there is room for it; that of `FileBuffer_Read` takes one
-- more than the number of bytes asked for, since each round but the last reads a byte; that of `make_device_name`
-- takes one more than the number of devices, since it tries a new name in each round. That of `BrowseChildren`
-- into containers takes the number of names of the path, since each directory takes one off it.
--
-- Not modelled: `BrowseSearchDir`, `BrowseDebug` and `DJFS_Create` of djmount/djfs.c, with the search history;
-- djmount/device.c, djmount/service.c, djmount/object.c and djmount/fuse_main.c; djmount/log.c,
-- djmount/upnp_util.c, djmount/xml_util.c and djmount/talloc_util.c, which print or wrap other libraries; the test
-- programs; the copies of gnulib, libupnp and talloc beside djmount/.
pub mod Base
pub mod Cache
pub mod Charset
pub mod ContentDir
pub mod Conversion
pub mod DeviceList
pub mod DidlObject
pub mod Djfs
pub mod FileBuffer
pub mod MediaFile
pub mod PtrArray
pub mod Strings
pub mod Vfs
