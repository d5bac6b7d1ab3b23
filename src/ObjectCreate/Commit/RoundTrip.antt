-- ===== src/ObjectCreate/Commit/RoundTrip.antt =====
-- A new commit, read back by libexec/got-read-commit.
use gameoftrees.Base.{
  ℕ, zero, suc, ◌+◌, ◌^◌, ◌<◌, ◌≤◌, ◌≡◌, ◌≢◌, refl, ap, sym, ◌∙◌, false, List, [], ◌∷◌, ◌++◌, Bytes,
  Option, none, some, All, arith, length, length-append, append_assoc, append-nil,
}
use gameoftrees.Base.Int.{ℤ, pos_part}
use gameoftrees.Error.{ok}
use gameoftrees.Digest.{digest_text}
use gameoftrees.FileIndex.Codec.{Sha1}
use gameoftrees.ObjectParse.Header.{commit_label}
use gameoftrees.ObjectParse.Commit.{
  Commit, tree_prefix, parent_prefix, author_prefix, committer_prefix, parent_loop, parse_commit,
}
use gameoftrees.ObjectParse.Commit.Rounds.{parent_loop_end, parent_loop_round, parse_commit_parts}
use gameoftrees.ObjectParse.Fields.{starts_with, optional_signature, Signature}
use gameoftrees.ObjectParse.Fields.RoundTrip.{
  IsId, IsText, starts_with_itself, take_id-digest_text, in_utc,
}
use gameoftrees.ObjectParse.Read.{read_commit_object}
use gameoftrees.ObjectParse.Read.Whole.{read_commit_object-header}
use gameoftrees.ObjectCreate.{id_line, trim}
use gameoftrees.ObjectCreate.Fields.{
  IsTime, message_text, id_line-append, string_of-all, optional_signature-person_text,
  message_text-All, header_text-header,
}
use gameoftrees.ObjectCreate.Trim.{trim-All}
use gameoftrees.ObjectCreate.Commit.{
  NewCommit, author_text, committer_line, committer_text, commit_len, object_commit_create,
}
use gameoftrees.ObjectCreate.Commit.Text.{
  parents_text, commit_body, commit_len-commit_body, object_commit_create-file,
}

abbrev pub IsCommitter : Option (Bytes × ℤ) → Type 0
IsCommitter none = Unit
IsCommitter (some (name, time)) = IsText name × IsTime time

-- What the parsers can take back.
pub record IsPlain (c : NewCommit) : Type 0 where
  pub tree_id : IsId c.tree_id
  pub parent_ids : All IsId c.parent_ids
  pub counted : c.nparents ≡ length c.parent_ids
  pub author : IsText c.author
  pub author_time : IsTime c.author_time
  pub committer : IsCommitter c.committer
  pub logmsg : All (λ b. b ≢ 0) c.logmsg
  pub small : length (commit_body c) < 2 ^ 63

parent_loop-parents_text :
    (ids seen : List Bytes) (fuel n : ℕ) (rest : Bytes)
    → All IsId ids
    → starts_with parent_prefix rest ≡ ok false
    → length ids < fuel
    → parent_loop fuel seen n (parents_text ids ++ rest) ≡ ok (seen ++ ids, n + length ids, rest)
parent_loop-parents_text ids seen zero n rest h e f = absurd (omega arith)
parent_loop-parents_text [] seen (suc fuel) n rest h e f =
    parent_loop_end fuel n seen rest e
    ∙ ap (λ (l : List Bytes). ok (l, n, rest)) (sym (append-nil seen))
    ∙ ap (λ (k : ℕ). ok (seen ++ [], k, rest)) (let same : n ≡ n + 0 = omega arith in same)
parent_loop-parents_text (id ∷ ids) seen (suc fuel) n rest h e f =
    let s = parents_text ids ++ rest in
    let first : parents_text (id ∷ ids) ++ rest ≡ parent_prefix ++ (digest_text id ++ (0x0a ∷ s)) =
      append_assoc (id_line parent_prefix id) (parents_text ids) rest
      ∙ id_line-append parent_prefix id s in
    ap (parent_loop (suc fuel) seen n) first
    ∙ parent_loop_round fuel n seen (parent_prefix ++ (digest_text id ++ (0x0a ∷ s))) id s
        (starts_with_itself parent_prefix (digest_text id ++ (0x0a ∷ s)))
        (take_id-digest_text id s h.0)
    ∙ parent_loop-parents_text ids (seen ++ (id ∷ [])) fuel (n + 1) rest h.1 e (omega arith)
    ∙ ap (λ (l : List Bytes). ok (l, n + 1 + length ids, rest)) (append_assoc seen (id ∷ []) ids)
    ∙ ap (λ (k : ℕ). ok (seen ++ (id ∷ ids), k, rest))
        (let same : n + 1 + length ids ≡ n + suc (length ids) = omega arith in same)

abbrev pub committer_signature : Bytes → ℤ → Option (Bytes × ℤ) → Signature
committer_signature author time none = in_utc author (pos_part time)
committer_signature author time (some (name, committer_time)) =
    in_utc name (pos_part committer_time)

optional_signature-committer_line :
    (author : Bytes) (time : ℤ) (committer : Option (Bytes × ℤ)) (rest : Bytes)
    → IsText author
    → IsTime time
    → IsCommitter committer
    → optional_signature committer_prefix (committer_line author time committer ++ rest)
      ≡ ok (some (committer_signature author time committer), rest)
optional_signature-committer_line author time none rest h k l =
    optional_signature-person_text committer_prefix author time rest h k
optional_signature-committer_line author time (some (name, committer_time)) rest h k l =
    optional_signature-person_text committer_prefix name committer_time rest l.0 l.1

-- The commit as it is read.
abbrev with_message : NewCommit → Bytes → Commit
with_message c msg = record {
  tree_id = c.tree_id;
  parent_ids = c.parent_ids;
  nparents = length c.parent_ids;
  author = some (in_utc c.author (pos_part c.author_time));
  committer = some (committer_signature c.author c.author_time c.committer);
  logmsg = msg;
}

abbrev pub read_back : NewCommit → Commit
read_back c = with_message c (message_text (trim c.logmsg))

few_parents :
    (ids : List Bytes) (rest : Bytes)
    → 1 ≤ length rest
    → length ids < length (parents_text ids ++ rest)
few_parents [] rest h = omega arith
few_parents (id ∷ ids) rest h = omega (
  arith,
  few_parents ids rest h,
  length-append {0} (id_line parent_prefix id) (parents_text ids),
  length-append {0} (parents_text (id ∷ ids)) rest,
  length-append {0} (parents_text ids) rest,
)

parse_commit-commit_body :
    (c : NewCommit) → IsPlain c → parse_commit (commit_body c) ≡ ok (read_back c)
parse_commit-commit_body c h =
    let s4 = message_text (trim c.logmsg) in
    let s3 = committer_text c ++ s4 in
    let s2 = author_text c ++ s3 in
    let s1 = parents_text c.parent_ids ++ s2 in
    ap parse_commit (id_line-append tree_prefix c.tree_id s1)
    ∙ parse_commit_parts (digest_text c.tree_id ++ (0x0a ∷ s1)) c.tree_id s1 c.parent_ids
        (length c.parent_ids) s2 s3 s4 (some (in_utc c.author (pos_part c.author_time)))
        (some (committer_signature c.author c.author_time c.committer))
        (take_id-digest_text c.tree_id s1 h.tree_id)
        (parent_loop-parents_text c.parent_ids [] (length s1) 0 s2 h.parent_ids refl
            (few_parents c.parent_ids s2 (omega arith))
          ∙ ap (λ (k : ℕ). ok (c.parent_ids, k, s2))
              (let same : 0 + length c.parent_ids ≡ length c.parent_ids = omega arith in same))
        (optional_signature-person_text author_prefix c.author c.author_time s3 h.author
          h.author_time)
        (optional_signature-committer_line c.author c.author_time c.committer s4 h.author
          h.author_time h.committer)
    ∙ ap (λ (m : Bytes). ok (with_message c m))
        (string_of-all s4
          (message_text-All (trim c.logmsg) (trim-All (λ b. b ≢ 0) c.logmsg h.logmsg)))

-- The file of a new commit, read by got-read-commit, gives the commit back: its tree, its parents in
-- their order with their number, its author, its committer or else the author again, both with
-- their times in UTC, and as the log message a newline, the trimmed message and a newline. The
-- identifiers have 20 bytes, the number of parents is that of the list, the names have no NUL and no
-- newline, the times are not negative, the message has no NUL, and the file is below 2 ^ 63 bytes.
pub read_commit_object-object_commit_create :
    (sha : Sha1) (c : NewCommit)
    → IsPlain c
    → read_commit_object (object_commit_create sha c).1 ≡ ok (read_back c)
read_commit_object-object_commit_create sha c h =
    ap read_commit_object (
      object_commit_create-file sha c
      ∙ ap (λ (t : Bytes). t ++ (0 ∷ commit_body c))
          (header_text-header commit_label (commit_len c (trim c.logmsg)) (length (commit_body c))
            (commit_len-commit_body c h.tree_id h.parent_ids h.counted h.small) h.small))
    ∙ read_commit_object-header (commit_body c) h.small
    ∙ parse_commit-commit_body c h
