-- ===== src/ObjectParse/Read.antt =====
-- The readers of loose objects in libexec/got-read-commit, libexec/got-read-tree and
-- libexec/got-read-tag. What got_inflate_to_mem gives is an argument.
pub mod Whole
use gameoftrees.Base.{ℕ, ◌+◌, Bytes, ltb, ◌==◌, if◌then◌else◌, length, drop}
use gameoftrees.Error.{bad_obj_data, obj_type, Result, ok, err, ◌>>=◌}
use gameoftrees.ObjectParse.Tree.{Tree, parse_tree}
use gameoftrees.ObjectParse.Header.{Object, parse_header, type_commit}
use gameoftrees.ObjectParse.Commit.{Commit, parse_commit}
use gameoftrees.ObjectParse.Tag.{Tag, parse_tag}

pub read_commit_object : Bytes → Result Commit
read_commit_object p = do
  obj ← parse_header p
  if ltb (length p) (obj.hdrlen + obj.size)
      then err bad_obj_data
      else if obj.kind == type_commit
      then parse_commit (drop obj.hdrlen p)
      else err obj_type

pub read_tree_object : Bytes → Result Tree
read_tree_object p = do
  obj ← parse_header p
  if ltb (length p) (obj.hdrlen + obj.size)
      then err bad_obj_data
      else parse_tree (drop obj.hdrlen p)

pub read_tag_object : Bytes → Result Tag
read_tag_object p = do
  obj ← parse_header p
  if ltb (length p) (obj.hdrlen + obj.size) then err bad_obj_data else parse_tag (drop obj.hdrlen p)
