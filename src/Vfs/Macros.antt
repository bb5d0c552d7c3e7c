-- ===== src/Vfs/Macros.antt =====
-- The browse macros of djmount/vfs_p.h, and the browse functions of djmount/vfs.c that are written with them.
use djmount.Base.{Bool, true, false, not, ◌&&◌, ◌||◌, [], ◌∷◌, Option, none, some, ◌+◌, ◌/◌}
use djmount.Base.Lists.{Bytes}
use djmount.Base.Int.{ℤ, pos, neg}
use djmount.Base.Tests.{if◌then◌else◌}
use djmount.Base.Text.{codes}
use djmount.Vfs.{
  Query, Found, Status, Flow, goes_on, cleanup, status, DType, dt_dir, dt_reg, is_zero, is_empty,
  match_start_of_path, dir_add_entry, dir_begin, file_begin, file_set_string, change_stat, enoent,
  enotdir, efault,
}

-- A piece of a browse function, and a whole one: the path below, and the results so far.
abbrev pub Block : Type 0
Block = Status → Flow

abbrev pub BrowseFunction : Type 0
BrowseFunction = Query → Bytes → Found → Status

-- What follows a piece is run unless that has jumped to the label.
abbrev pub continue : Flow → Block → Flow
continue (goes_on s) b = b s
continue (cleanup s) b = cleanup s

-- One piece after another.
unfoldable pub then_block : Block → Block → Block
then_block a b s = continue (a s) b

-- `if (_s.rc) goto cleanup`
abbrev pub check : Status → Flow
check s = if is_zero s.rc then goes_on s else cleanup s

-- `BROWSE_ABORT (RC)`
abbrev pub abort : ℤ → Block
abort rc s = cleanup (record s { rc = rc })

-- `DIR_END`, after a directory that the path names, at the end of its body or at the label.
unfoldable pub dir_end : Flow → Flow
dir_end (cleanup s) = cleanup s
dir_end (goes_on s) = if not (is_empty s.ptr) then abort (neg enoent) s else cleanup s

-- `_DIR_BEGIN (BASENAME, ALLOW_EMPTY) … DIR_END` with the body between.
unfoldable pub dir_block : Query → Option Bytes → Bool → Block → Block
unfolding dir_end
dir_block q none allow_empty body s = goes_on s
dir_block q (some name) allow_empty body s =
    if not (not (is_empty name) || allow_empty)
    then goes_on s
    else if is_empty s.ptr
    then (let (rc, found) = dir_add_entry q name dt_dir s.found in
        check (record { rc = rc; ptr = s.ptr; found = found }))
    else elim (match_start_of_path s.ptr name) [
      | none ↦ goes_on s
      | some rest ↦
          let (rc, found) = dir_begin q s.found in
          let begun : Status = record { rc = rc; ptr = rest; found = found } in
          if not (is_empty rest)
          then dir_end (body (record s { ptr = rest }))
          else if is_zero rc
          then dir_end (body begun)
          else cleanup begun
    ]

-- `_FILE_BEGIN (BASENAME, D_TYPE) … _FILE_END`; the body, which only sets results, runs where the path ends.
unfoldable pub file_block : Query → DType → Option Bytes → (Query → Found → Found) → Block
file_block q d_type none body s = goes_on s
file_block q d_type (some name) body s =
    if is_empty name
    then goes_on s
    else if is_empty s.ptr
    then (let (rc, found) = dir_add_entry q name d_type s.found in
        goes_on (record { rc = rc; ptr = s.ptr; found = found }))
    else elim (match_start_of_path s.ptr name) [
      | none ↦ goes_on s
      | some rest ↦
          let (rc, found) = file_begin d_type q s.found in
          let begun : Status = record { rc = rc; ptr = rest; found = found } in
          if not (is_empty rest)
          then cleanup (record s { rc = neg enotdir; ptr = rest })
          else if is_zero rc
          then cleanup (record begun { found = body q found })
          else cleanup begun
    ]

-- `BROWSE_SUB (SUB)`
unfoldable pub sub_block : (Bytes → Found → Status) → Block
sub_block sub s =
    let t = sub s.ptr s.found in
    if is_empty s.ptr then check t else if is_empty t.ptr then cleanup t else check t

-- `BROWSE_BEGIN … BROWSE_END`, for a path and a query that are not NULL.
unfoldable pub browse_block : Bytes → Block → Found → Status
browse_block path body found = status (body (record { rc = pos 0; ptr = path; found = found }))

-- The texts that `BrowseDebug` gets from the system and from talloc.
pub record DebugTexts : Type 0 where
  pub uname : Option Bytes
  pub talloc_total : Option Bytes
  pub talloc_report : Option Bytes
  pub talloc_report_full : Option Bytes

-- One of the text files of `BrowseDebug`.
unfoldable pub text_block : Query → Bytes → Option Bytes → Block
unfolding file_block
text_block q name text = file_block q dt_reg (some name) (file_set_string text)

-- `BrowseDebug`
unfoldable pub browse_debug : DebugTexts → BrowseFunction
unfolding browse_block then_block text_block
browse_debug texts q sub_path = browse_block sub_path (
    then_block (text_block q (codes "uname") texts.uname) (
      then_block (text_block q (codes "talloc_total") texts.talloc_total) (
        then_block (text_block q (codes "talloc_report") texts.talloc_report)
          (text_block q (codes "talloc_report_full") texts.talloc_report_full))))

-- A VFS object: its two methods, `none` for NULL, and its flag.
pub record Vfs : Type 0 where
  pub browse_root : Option BrowseFunction
  pub browse_debug : Option BrowseFunction
  pub show_debug_dir : Bool

-- `if (func) { BROWSE_SUB (func (…)); }`
unfoldable pub call_block : Option BrowseFunction → Query → Block
unfolding sub_block
call_block none q s = goes_on s
call_block (some func) q s = sub_block (func q) s

-- `VFS_Create`, with the methods that `init_class` sets.
pub vfs_create : DebugTexts → Bool → Vfs
vfs_create texts show_debug_dir = record {
  browse_root = none;
  browse_debug = some (browse_debug texts);
  show_debug_dir = show_debug_dir;
}

-- What `VFS_Browse` does between `BROWSE_BEGIN` and `BROWSE_END`.
unfoldable pub root_block : Vfs → Query → Block
unfolding dir_block then_block call_block
root_block self q = dir_block q (some []) true (
    then_block (call_block self.browse_root q) (
      if self.show_debug_dir
      then dir_block q (some (codes ".debug")) false (call_block self.browse_debug q)
      else goes_on))

-- `VFS_Browse`
unfoldable pub vfs_browse : Vfs → Option Query → Option Bytes → Found → ℤ × Found
unfolding browse_block root_block
vfs_browse self none path found = (neg efault, found)
vfs_browse self (some q) none found = (neg efault, found)
vfs_browse self (some q) (some []) found = (neg efault, found)
vfs_browse self (some q) (some (c ∷ cs)) found =
    let s = browse_block (c ∷ cs) (root_block self q) found in
    let rc = if not (is_empty s.ptr) && is_zero s.rc then neg enoent else s.rc in
    let blocks = change_stat (λ b. record b { st_blocks = (b.st_size + 511) / 512 }) s.found in
    (rc, if is_zero rc then blocks else s.found)
