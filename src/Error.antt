-- ===== src/Error.antt =====
-- The error codes of include/got_error.h, and the results of functions that return them.
-- lib/error.c turns a code into a message; a `const struct got_error *` is NULL or carries a code.

use gameoftrees.Base.{Bool, true, false, if◌then◌else◌}
use mathlib.Core.Path.{◌≡◌, refl}
use mathlib.Core.Logic.{◌⊎◌, inl, inr}

pub data Error : Type 0 where
  errno not_git_repo bad_filetype bad_path not_ref io eof decompression no_space : Error
  bad_obj_hdr obj_type bad_obj_data ambiguous_id bad_packidx packidx_csum bad_packfile : Error
  no_obj not_impl obj_not_packed bad_delta_chain bad_delta compression bad_obj_id_str : Error
  worktree_exists worktree_meta worktree_vers worktree_busy dir_obstructed : Error
  file_obstructed recursion timeout interrupt privsep_read privsep_len privsep_pipe : Error
  privsep_no_fd privsep_msg privsep_died privsep_exit pack_offset obj_exists bad_obj_id : Error
  iter_busy iter_completed range expected cancelled no_tree_entry fileidx_sig : Error
  fileidx_ver fileidx_csum path_prefix ancestry fileidx_bad bad_ref_data tree_dup_entry : Error
  dir_dup_entry not_worktree uuid_version uuid_invalid uuid lockfile_timeout : Error
  bad_ref_name worktree_repo file_modified file_status commit_conflict bad_ref_type : Error
  commit_no_author commit_head_changed commit_out_of_date commit_msg_empty : Error
  dir_not_empty commit_no_changes branch_moved obj_too_large same_branch root_commit : Error
  mixed_commits conflicts branch_exists modified not_rebasing empty_rebase : Error
  rebase_commitid rebasing rebase_path not_histedit empty_histedit no_histedit_cmd : Error
  histedit_syntax histedit_cancel histedit_busy histedit_cmd histedit_path : Error
  commit_branch file_staged stage_no_change stage_conflict stage_out_of_date : Error
  file_not_staged staged_paths patch_choice commit_no_email tag_exists git_repo_format : Error
  rebase_required regex ref_name_minus gitconfig_syntax rebase_out_of_date : Error
  cache_dup_entry querystring fetch_failed parse_uri bad_proto addrinfo bad_packet : Error
  no_remote fetch_no_branch fetch_bad_ref tree_entry_type parse_config no_config_file : Error
  bad_symlink git_repo_ext : Error

-- What the C standard leaves undefined, and the model does not give a value to.
pub data Hazard : Type 0 where
  -- a read or a write outside a buffer
  out_of_bounds : Hazard
  -- a NULL pointer followed
  null_pointer : Hazard
  -- an `int` shifted by its width or more, or out of its range
  bad_shift : Hazard
  -- an `int` sum out of its range
  int_overflow : Hazard

pub data Result {ℓ} (S : Type ℓ) : Type ℓ where
  -- the code returns an error
  err : Error → Result S
  -- the code leaves C's rules
  trap : Hazard → Result S
  ok : S → Result S

infixl 5 ◌>>=◌
abbrev pub ◌>>=◌ {κ ℓ} : {S : Type κ} {T : Type ℓ} → Result S → (S → Result T) → Result T
err code >>= next = err code
trap hazard >>= next = trap hazard
ok s >>= next = next s

-- No memory is accessed out of bounds, and `P` holds of the result, if there is one.
abbrev pub Safely {ℓ} : {A : Type ℓ} → (A → Type 0) → Result A → Type 0
Safely P (ok a) = P a
Safely P (err e) = Unit
Safely P (trap bad_shift) = Unit
Safely P (trap _) = ⊥

-- Composition of safe steps.
module _ {ℓ κ} {A : Type ℓ} {B : Type κ} (P : A → Type 0) (Q : B → Type 0) where
  pub Safely-bind :
      (m : Result A) (f : A → Result B)
      → Safely P m
      → ((a : A) → P a → Safely Q (f a))
      → Safely Q (m >>= f)
  Safely-bind (ok a) f h k = k a h
  Safely-bind (err e) f h k = tt
  Safely-bind (trap bad_shift) f h k = tt
  Safely-bind (trap out_of_bounds) f h k = h
  Safely-bind (trap null_pointer) f h k = h
  Safely-bind (trap int_overflow) f h k = h

pub Safely-mono {ℓ} :
    {A : Type ℓ} (P Q : A → Type 0) (m : Result A) → ((a : A) → P a → Q a) → Safely P m → Safely Q m
Safely-mono P Q (ok a) k h = k a h
Safely-mono P Q (err e) k h = tt
Safely-mono P Q (trap bad_shift) k h = tt
Safely-mono P Q (trap out_of_bounds) k h = h
Safely-mono P Q (trap null_pointer) k h = h
Safely-mono P Q (trap int_overflow) k h = h

-- The code keeps C's rules, and `P` holds of the result, if there is one.
abbrev pub Ensures {ℓ} : {S : Type ℓ} → (S → Type 0) → Result S → Type 0
Ensures P (err code) = Unit
Ensures P (trap hazard) = ⊥
Ensures P (ok s) = P s

module _ {ℓ κ} {S : Type ℓ} {T : Type κ} (P : S → Type 0) (Q : T → Type 0) where
  pub Ensures-bind :
      (first : Result S) (next : S → Result T)
      → Ensures P first
      → ((s : S) → P s → Ensures Q (next s))
      → Ensures Q (first >>= next)
  Ensures-bind (err code) next h k = tt
  Ensures-bind (trap hazard) next h k = absurd h
  Ensures-bind (ok s) next h k = k s h

pub Ensures-mono {ℓ} :
    {S : Type ℓ} (P Q : S → Type 0) (r : Result S)
    → ((s : S) → P s → Q s)
    → Ensures P r
    → Ensures Q r
Ensures-mono P Q (ok s) k h = k s h
Ensures-mono P Q (err code) k h = tt
Ensures-mono P Q (trap hazard) k h = h

pub Ensures-cases {ℓ} :
    {S : Type ℓ} (P : S → Type 0) (r : Result S)
    → Ensures P r
    → ((s : S) × (r ≡ ok s) × P s) ⊎ ((e : Error) × (r ≡ err e))
Ensures-cases P (ok s) h = inl (s, refl, h)
Ensures-cases P (err e) h = inr (e, refl)
Ensures-cases P (trap z) h = absurd h

pub Ensures-if {ℓ} :
    {S : Type ℓ} (P : S → Type 0) (test : Bool) (a b : Result S)
    → Ensures P a
    → Ensures P b
    → Ensures P (if test then a else b)
Ensures-if P true a b h k = h
Ensures-if P false a b h k = k

-- `P` holds of the result, if there is one.
abbrev pub Yields {ℓ} : {S : Type ℓ} → (S → Type 0) → Result S → Type 0
Yields P (ok s) = P s
Yields P (err code) = Unit
Yields P (trap hazard) = Unit

pub Yields-bind {ℓ κ} :
    {S : Type ℓ} {T : Type κ} (P : S → Type 0) (Q : T → Type 0) (first : Result S)
    (next : S → Result T)
    → Yields P first
    → ((s : S) → P s → Yields Q (next s))
    → Yields Q (first >>= next)
Yields-bind P Q (err code) next h k = tt
Yields-bind P Q (trap hazard) next h k = tt
Yields-bind P Q (ok s) next h k = k s h

-- The result itself, where nothing is known of it.
pub Yields-self {ℓ} :
    {S : Type ℓ} (P : S → Type 0) (r : Result S) → ((s : S) → r ≡ ok s → P s) → Yields P r
Yields-self P (ok s) h = h s refl
Yields-self P (err code) h = tt
Yields-self P (trap hazard) h = tt

pub Yields-mono {ℓ} :
    {S : Type ℓ} (P Q : S → Type 0) (r : Result S) → ((s : S) → P s → Q s) → Yields P r → Yields Q r
Yields-mono P Q (ok s) k h = k s h
Yields-mono P Q (err code) k h = tt
Yields-mono P Q (trap hazard) k h = tt

pub Yields-both {ℓ} :
    {S : Type ℓ} (P Q : S → Type 0) (r : Result S)
    → Yields P r
    → Yields Q r
    → Yields (λ s. P s × Q s) r
Yields-both P Q (ok s) h k = (h, k)
Yields-both P Q (err code) h k = tt
Yields-both P Q (trap hazard) h k = tt
