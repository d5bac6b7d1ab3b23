-- ===== src/ObjectCreate/Tests.antt =====
-- New objects, written and read back.
use gameoftrees.Base.{
  ℕ, ◌^◌, ◌<◌, ◌≡◌, refl, ap, Option, List, [], ◌∷◌, ◌++◌, Bytes, none, some, All, arith, length,
  Ordering, append_assoc,
}
use gameoftrees.Base.Int.{pos}
use gameoftrees.Error.{Result, ok, ◌>>=◌}
use gameoftrees.FileIndex.Codec.{Sha1, be_onto}
use gameoftrees.FileIndex.Codec.Numbers.{length-be_onto}
use gameoftrees.ObjectParse.Tree.RoundTrip.{TreeItem, tree_text}
use gameoftrees.ObjectParse.Header.{commit_label, type_commit}
use gameoftrees.ObjectParse.Header.RoundTrip.{commit_type}
use gameoftrees.ObjectParse.Read.{read_commit_object, read_tag_object}
use gameoftrees.Base.Decimal.{print_decimal, decimal_loop}
use gameoftrees.Digest.{digest_text, digit, skip_spaces}
use gameoftrees.ObjectParse.Fields.RoundTrip.{IsId}
use gameoftrees.ObjectCreate.{trim, trim_loop}
use gameoftrees.ObjectCreate.Commit.{NewCommit, object_commit_create}
use gameoftrees.ObjectCreate.Commit.Text.{object_commit_create-digest}
use gameoftrees.ObjectCreate.Commit.RoundTrip.{
  IsPlain, read_back, read_commit_object-object_commit_create,
}
use gameoftrees.ObjectCreate.Tag.{NewTag, object_tag_create}
use gameoftrees.ObjectCreate.Tag.RoundTrip.{IsPlainTag, tag_back, read_tag_object-object_tag_create}
use gameoftrees.ObjectCreate.Tree.{TreeEntry, object_tree_create}
use gameoftrees.ObjectCreate.Tree.RoundTrip.{
  IsEntry, tree_items, IsCreated, read_tree_object-object_tree_create,
}

-- A checksum that stands for SHA1: the number of bytes, in 20 bytes.
abbrev counter : Sha1
counter = record {
  Ctx = Bytes;
  init = [];
  update = λ c b. c ++ b;
  final = λ c. be_onto 20 (length c) [];
  update_law = λ c a b. append_assoc c a b;
  final_law = λ c. length-be_onto 20 (length c) [];
}

abbrev some_id : Bytes
some_id =
    1 ∷ 2 ∷ 3 ∷ 4 ∷ 5 ∷ 6 ∷ 7 ∷ 8 ∷ 9 ∷ 10 ∷ 11 ∷ 12 ∷ 13 ∷ 14 ∷ 15 ∷ 16 ∷ 17 ∷ 18 ∷ 19 ∷ 255 ∷ []

some_id-IsId : IsId some_id
some_id-IsId = record {
  whole = refl;
  bytes = (
    omega arith,
    (
      omega arith,
      (
        omega arith,
        (
          omega arith,
          (
            omega arith,
            (
              omega arith,
              (
                omega arith,
                (
                  omega arith,
                  (
                    omega arith,
                    (
                      omega arith,
                      (
                        omega arith,
                        (
                          omega arith,
                          (
                            omega arith,
                            (
                              omega arith,
                              (
                                omega arith,
                                (
                                  omega arith,
                                  (omega arith, (omega arith, (omega arith, (omega arith, tt)))),
                                ),
                              ),
                            ),
                          ),
                        ),
                      ),
                    ),
                  ),
                ),
              ),
            ),
          ),
        ),
      ),
    ),
  );
}

-- A parent, no committer, and a message with a newline at its end.
abbrev a_commit : NewCommit
a_commit = record {
  tree_id = some_id;
  parent_ids = some_id ∷ [];
  nparents = 1;
  author = b'f' ∷ b' ' ∷ b'<' ∷ b'>' ∷ [];
  author_time = pos 7;
  committer = none;
  logmsg = b'o' ∷ b'k' ∷ 0x0a ∷ [];
}

a_commit-IsPlain : IsPlain a_commit
unfolding trim trim_loop skip_spaces digest_text digit print_decimal decimal_loop
a_commit-IsPlain = record {
  tree_id = some_id-IsId;
  parent_ids = (some_id-IsId, tt);
  counted = refl;
  author = (
    (omega arith, omega arith),
    ((omega arith, omega arith), ((omega arith, omega arith), ((omega arith, omega arith), tt))),
  );
  author_time = omega arith;
  committer = tt;
  logmsg = (omega arith, (omega arith, (omega arith, tt)));
  small = omega arith;
}

read_commit_object-object_commit_create_example :
    read_commit_object (object_commit_create counter a_commit).1 ≡ ok (read_back a_commit)
read_commit_object-object_commit_create_example =
    read_commit_object-object_commit_create counter a_commit a_commit-IsPlain

object_commit_create-digest_example :
    (object_commit_create counter a_commit).0
    ≡ counter.final (counter.update counter.init (object_commit_create counter a_commit).1)
object_commit_create-digest_example = object_commit_create-digest counter a_commit

abbrev a_tag : NewTag
a_tag = record {
  name = b'v' ∷ b'1' ∷ [];
  object_id = some_id;
  tagger = b'f' ∷ [];
  tagger_time = pos 0;
  tagmsg = b' ' ∷ b'm' ∷ [];
}

abbrev commits_only : Bytes → Result ℕ
commits_only id = ok type_commit

a_tag-IsPlainTag : IsPlainTag a_tag commit_label
unfolding skip_spaces digest_text digit print_decimal decimal_loop
a_tag-IsPlainTag = record {
  name = ((omega arith, omega arith), ((omega arith, omega arith), tt));
  object_id = some_id-IsId;
  tagger = ((omega arith, omega arith), tt);
  tagger_time = omega arith;
  tagmsg = (omega arith, (omega arith, tt));
  small = omega arith;
}

read_tag_object-object_tag_create_example :
    (object_tag_create counter commits_only a_tag >>= λ (id, file). read_tag_object file)
    ≡ ok (tag_back a_tag type_commit)
read_tag_object-object_tag_create_example =
    read_tag_object-object_tag_create counter commits_only a_tag commit_label type_commit refl
      commit_type a_tag-IsPlainTag

-- A directory and a program.
abbrev two_entries : List TreeEntry
two_entries =
    record { mode = 0x4000; name = b'd' ∷ []; id = some_id }
    ∷ record { mode = 0x81ed; name = b'x' ∷ []; id = some_id }
    ∷ []

-- An order for entries that are in order.
abbrev as_it_is : (TreeEntry → TreeEntry → Ordering) → List TreeEntry → List TreeEntry
as_it_is order l = l

two_entries-IsEntry : All IsEntry two_entries
two_entries-IsEntry =
    (record { name = ground arith; id = refl }, (record { name = ground arith; id = refl }, tt))

abbrev size_of : Option (List TreeItem) → ℕ
size_of none = 0
size_of (some items) = length (tree_text items)

two_entries_small :
    (items : List TreeItem)
    → tree_items two_entries ≡ some items
    → length (tree_text items) < 2 ^ 63
two_entries_small items e = omega (arith, ap size_of e)

read_tree_object-object_tree_create_example :
    IsCreated (tree_items two_entries) (object_tree_create counter as_it_is two_entries)
read_tree_object-object_tree_create_example =
    read_tree_object-object_tree_create counter as_it_is two_entries two_entries-IsEntry
      two_entries_small
