-- ===== src/ObjectParse.antt =====
-- lib/object_parse.c: the parsers of what objects hold, and the readers of libexec/got-read-commit,
-- libexec/got-read-tree and libexec/got-read-tag.
pub mod Tree
pub mod Fields
pub mod Header
pub mod Commit
pub mod Tag
pub mod Read
