-- ===== src/Lib.antt =====
-- Game of Trees: a version control system on Git repositories, written in C.
--
-- The program got (got/got.c), the browser tog and the web front end gotweb stand on the libraries
-- in lib/. A work tree (lib/worktree.c) keeps a file index (lib/fileindex.c) that records for each
-- tracked path its blob, its base commit and the status of its file; both sort paths by
-- lib/path.c. Objects are read from pack files, in which an object may be stored as a chain of
-- deltas that lib/delta.c applies one to the next; lib/delta_cache.c keeps the deltas last used.
-- lib/object_create.c writes new objects, lib/object_parse.c parses them, and lib/commit_graph.c
-- follows the history that commits form.
--
-- Error: the codes GOT_ERR_* of include/got_error.h. A `Result` is a value, a `const struct
--   got_error *` other than NULL, or a `trap`: an access outside a buffer, an undefined shift, an
--   `int` out of its range, a null pointer, which a theorem then excludes or exhibits.
-- Base: the names and lemmas that all modules share: lists over the native numbers, tests, and
--   lemmas on bits. Numbers are natural numbers; a word of the machine is wrapped where the code
--   may wrap it.
-- Delta: lib/delta.c and lib/got_lib_delta.h. A cursor stands for the parsers' pointer and counter.
--   next_delta_byte, parse_size, parse_opcode, parse_delta_sizes, got_delta_get_sizes and
--   got_delta_apply_in_mem are `next_delta_byte`, `parse_size`, `parse_opcode`,
--   `parse_delta_sizes`, `get_sizes` and `apply_in_mem`. The loop of `apply_in_mem` has as much
--   fuel as bytes remain, and a round takes one at least, so that it ends before the fuel does.
--   Delta/Parsing, Delta/Safety, Delta/Size, Delta/Instr, Delta/Rounds and Delta/RoundTrip hold
--   the proofs.
-- DeltaCache: lib/delta_cache.c. got_delta_cache_add and got_delta_cache_get are `cache_add` and
--   `cache_get`, which return the cache as they leave it; DeltaCache/Lru holds the proofs.
-- Digest: lib/sha1.c, digests in hexadecimal. got_parse_sha1_digest and got_sha1_digest_to_str are
--   `parse_sha1_digest` and `sha1_digest_to_str`; strtol(3) is modelled as far as it is used.
-- Path: lib/path.c and include/got_path.h. A string is the list of its bytes before the NUL. A
--   path list stands from its last entry to its first, the way got_pathlist_insert walks it.
--   got_canonpath is `canonpath` in Path/Canon, its buffer kept from its last byte on; the loop
--   has as much fuel as the path has bytes.
-- FileIndex: lib/fileindex.c and lib/got_lib_fileindex.h. An entry is a record of the fields of
--   `struct got_fileindex_entry`. FileIndex/Tree has the index: its red-black tree, of
--   compat/tree.h, is a parameter `RbTree`, whose laws say that RB_INSERT and RB_FIND on a sorted
--   tree insert and search in its order.
--   FileIndex/Codec has the file of an index: write_fileindex_entry, got_fileindex_write,
--   read_fileindex_entry and got_fileindex_read are `write_entry`, `fileindex_write`,
--   `read_entry` and `fileindex_read`. SHA1 is a parameter `Sha1`, which takes data a chunk at a
--   time. A path is read with as much fuel as the file has bytes, 8 of which a round takes.
-- Pack: lib/pack.c. Pack/Index has the pack index: verify_fanout_table, get_object_offset,
--   got_packidx_get_object_idx and got_packidx_match_id_str_prefix are `verify_fanout_table`,
--   `get_object_offset`, `get_object_idx` and `match_id_str_prefix`; an `int` of the search stands
--   with 2 ^ 31 added, and the search has as much fuel as the index has objects, and one, which a
--   theorem shows to be enough. Pack/Index/Header is got_packidx_init_hdr on a map, a table at a
--   time. Pack/Index/Search, Pack/Index/Fanout and Pack/Index/Header/Bounds hold the proofs.
--   Pack/Chain has got_pack_parse_object_type_and_size, got_pack_parse_offset_delta and
--   got_pack_resolve_delta_chain on a map; the recursion has fuel, and `none` is a run that needs
--   more of it. Pack/Chain/Depth says how much is enough.
-- ObjectIdset: lib/object_idset.c. The red-black tree is a search tree whose RB_INSERT and RB_REMOVE
--   are a parameter `RbOps`; ObjectIdset/Spine shows that its laws can hold. ObjectIdset/Refinement
--   has the proofs that a set is a map from identifiers to pointers, on ObjectIdset/Ordered and
--   ObjectIdset/Search.
-- ObjectCache: lib/object_cache.c, on ObjectIdset: got_object_cache_init, got_object_cache_add and
--   got_object_cache_get are `object_cache_init`, `object_cache_add` and `object_cache_get`.
--   An item is taken as the cache's type reads it.
-- ObjectParse: lib/object_parse.c. ObjectParse/Tree has parse_tree_entry and got_object_parse_tree as
--   `parse_tree_entry` and `parse_tree`; the loop has as much fuel as the tree has bytes, and a
--   round takes 21 or more. ObjectParse/Header is got_object_parse_header, ObjectParse/Commit and
--   ObjectParse/Tag are got_object_parse_commit and got_object_parse_tag, on the fields of
--   ObjectParse/Fields, which has parse_gmtoff and parse_commit_time. ObjectParse/Read has the
--   readers of libexec/got-read-commit, libexec/got-read-tree and libexec/got-read-tag behind
--   got_inflate_to_mem. The modules RoundTrip, Listing, Rounds, Bounds and Whole
--   hold the proofs.
-- ObjectCreate: lib/object_create.c. got_object_commit_create, got_object_tag_create and
--   got_object_tree_create are `object_commit_create`, `object_tag_create` and
--   `object_tree_create`, which give the identifier and the file for create_object_file. SHA1 is the
--   parameter of FileIndex/Codec, and mergesort(3) a parameter; each SHA1Update and each fwrite(3) is a
--   step of its own. ObjectCreate/Trim, ObjectCreate/Written
--   and ObjectCreate/Fields, and below Commit, Tag and Tree the modules Text, Modes and RoundTrip,
--   hold the proofs.
-- CommitGraph: lib/commit_graph.c. got_commit_graph_open, got_commit_graph_iter_start and
--   got_commit_graph_iter_next are `graph_open`, `iter_start` and `iter_next`; their loops have fuel,
--   a round of fetch_commits_from_open_branches taking one, and `none` is a run that needs more;
--   for the next commit as many as the history has commits, and one, are enough.
--   got_commit_graph_find_youngest_common_ancestor is in CommitGraph/Youngest, with fuel for its rounds.
--   CommitGraph/Sets is what the graph needs of a set of identifiers, and CommitGraph/Idsets fills it
--   with ObjectIdset. The parameter `Repository` opens objects and traverses packs. CommitGraph/Steps,
--   CommitGraph/Tips, CommitGraph/Loop, CommitGraph/Fetch and CommitGraph/Once hold the proofs on what
--   is passed, CommitGraph/Bound, CommitGraph/Unseen, CommitGraph/Ends, CommitGraph/Walk and
--   CommitGraph/Traversal those that the traversal ends, and CommitGraph/IterList those on the list.
--   The graph as an error of these functions leaves it is not modelled.
-- Reference: lib/reference.c. is_valid_ref_name is in Reference, with its rules in Reference/Names.
--   Reference/Open has got_ref_open, open_ref, parse_ref_file and open_packed_ref as `ref_open`,
--   `open_ref`, `parse_ref_file` and `open_packed_ref`, on a `Repo` whose files are a function from
--   paths to what fopen(3) and getline(3) give. Reference/Resolve has got_ref_resolve, in which
--   the recursion of resolve_symbolic_ref has fuel, and `none` is a run that needs more of it; a
--   chain of `n` references needs `n`. Reference/File and Reference/Packed hold the proofs on the
--   two kinds of file, and Reference/Change the functions that change a reference. Locks and the
--   lists of references are not modelled.
--
-- malloc(3), calloc(3) and strdup(3) are Booleans that say whether they succeed, or, in Pack,
-- ObjectParse, ObjectCreate, CommitGraph and Reference, do succeed; fstatat(2) is its result. Not
-- modelled: the functions that only call the system (files, processes, messages over imsg, zlib),
-- the work tree (lib/worktree.c), the diff of files, fetching and configuration, the copies of other
-- libraries in compat/ and of the diff library, and the user interfaces.
pub mod Base
pub mod Error
pub mod Delta
pub mod DeltaCache
pub mod ObjectCache
pub mod ObjectIdset
pub mod Pack
pub mod Path
pub mod Digest
pub mod FileIndex
pub mod Reference
pub mod ObjectParse
pub mod ObjectCreate
pub mod CommitGraph
