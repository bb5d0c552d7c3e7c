-- ===== src/Vfs.antt =====
-- djmount/vfs.c and djmount/vfs_p.h: the browse macros as functions on the browse status, the helpers that fill
-- a query's results, and `VFS_Browse`.
pub mod Macros
pub mod Match
pub mod Tree
pub mod Lookup
pub mod Resolve
pub mod Root
pub mod Listing
pub mod Content
mod Tests
use Prim.Native.Nat.{bit_or}
use djmount.Base.{
  ℕ, zero, suc, ◌+◌, ◌-◌, ◌*◌, ◌/◌, Bool, true, false, ◌&&◌, ◌||◌, List, [], ◌∷◌, ◌++◌, Option,
  none, some,
}
use djmount.Base.Lists.{Bytes, length, take, drop, bytes_eq}
use djmount.Base.Int.{ℤ, pos, negsuc, neg}
use djmount.Base.Tests.{ltb, ◌==◌, if◌then◌else◌}
use djmount.Base.Text.{codes}
use djmount.FileBuffer.{FileBuffer, create_from_string, create_from_url}

-- <errno.h>
abbrev pub enoent : ℕ
enoent = 2

abbrev pub efault : ℕ
efault = 14

abbrev pub enotdir : ℕ
enotdir = 20

abbrev pub einval : ℕ
einval = 22

-- The types of directory entries that the code uses.
pub data DType : Type 0 where
  dt_dir dt_reg dt_lnk : DType

-- The values of <dirent.h>.
abbrev pub d_type_value : DType → ℕ
d_type_value dt_dir = 4
d_type_value dt_reg = 8
d_type_value dt_lnk = 10

-- The fields of `struct stat` that the code sets.
pub record Stat : Type 0 where
  pub st_mode : ℕ
  pub st_nlink : ℕ
  pub st_size : ℕ
  pub st_atime : ℕ
  pub st_mtime : ℕ
  pub st_ctime : ℕ
  pub st_blocks : ℕ

abbrev pub Entry : Type 0
Entry = Bytes × DType

-- What a query asks for. `filler` is the callback of FUSE, `none` for NULL: what it returns may depend on the
-- entries that it was called with before. `lnk_bufsiz` is `none` where `lnk_buf` is NULL.
pub record Query : Type 0 where
  pub filler : Option (List Entry → Entry → ℤ)
  pub has_file : Bool
  pub lnk_bufsiz : Option ℕ

-- What the pointers of a query point to: the `struct stat`, `none` where `stbuf` is NULL; the calls of `filler`,
-- in order; the file buffer; the text in `lnk_buf`.
pub record Found : Type 0 where
  pub stbuf : Option Stat
  pub calls : List Entry
  pub file : Option FileBuffer
  pub lnk_buf : Bytes

-- `VFS_BrowseStatus`, with the query's results.
pub record Status : Type 0 where
  pub rc : ℤ
  pub ptr : Bytes
  pub found : Found

-- Where a part of a browse function ends: it goes on, or it jumps to the label `cleanup`.
pub data Flow : Type 0 where
  goes_on : Status → Flow
  cleanup : Status → Flow

abbrev pub status : Flow → Status
status (goes_on s) = s
status (cleanup s) = s

abbrev pub is_zero : ℤ → Bool
is_zero (pos n) = n == 0
is_zero (negsuc n) = false

abbrev pub is_empty : Bytes → Bool
is_empty [] = true
is_empty (c ∷ cs) = false

-- for files of unknown time and size
abbrev pub default_time : ℕ
default_time = 946724400

abbrev pub default_size : ℕ
default_size = 0

-- `while (*path == '/') path++`
pub skip_slashes : Bytes → Bytes
skip_slashes [] = []
skip_slashes (c ∷ cs) = if c == b'/' then skip_slashes cs else c ∷ cs

-- `path[len] == NUL || path[len] == '/'`, at the path's rest.
abbrev pub ends_name : Bytes → Bool
ends_name [] = true
ends_name (c ∷ cs) = c == b'/'

-- `vfs_match_start_of_path`
pub match_start_of_path : Bytes → Bytes → Option Bytes
unfolding skip_slashes
match_start_of_path path name =
    let len = length name in
    if bytes_eq (take len path) name && ends_name (drop len path)
    then some (skip_slashes (drop len path))
    else none

abbrev pub change_stat : (Stat → Stat) → Found → Found
change_stat f found = record found {
  stbuf = elim (found.stbuf) [ none ↦ none | some s ↦ some (f s) ];
}

-- `vfs_set_time`
pub set_time : ℕ → Found → Found
set_time t = change_stat (λ s. record s { st_ctime = t; st_mtime = t; st_atime = t })

-- A call of `filler`, if there is one.
pub fill : Query → Entry → Found → ℤ × Found
fill q e found = elim (q.filler) [
  | none ↦ (pos 0, found)
  | some f ↦ (f found.calls e, record found { calls = found.calls ++ e ∷ [] })
]

abbrev is_dir : DType → Bool
is_dir dt_dir = true
is_dir dt_reg = false
is_dir dt_lnk = false

-- `vfs_dir_add_entry`
pub dir_add_entry : Query → Bytes → DType → Found → ℤ × Found
unfolding fill
dir_add_entry q name d_type found =
    let counted =
      if is_dir d_type
      then change_stat (λ s. record s { st_nlink = s.st_nlink + 1 }) found
      else found in
    fill q (name, d_type) counted

-- `vfs_dir_begin`
pub dir_begin : Query → Found → ℤ × Found
unfolding fill set_time
dir_begin q found =
    let sized = set_time default_time (
      change_stat (λ s. record s { st_mode = bit_or 0x4000 0x16d; st_nlink = 2; st_size = 512 })
        found) in
    let (rc, dot) = fill q (codes ".", dt_dir) sized in
    let (rc', dots) = if is_zero rc then fill q (codes "..", dt_dir) dot else (rc, dot) in
    elim (q.lnk_bufsiz) [ none ↦ (rc', dots) | some n ↦ (neg einval, dots) ]

-- `vfs_file_begin`
pub file_begin : DType → Query → Found → ℤ × Found
unfolding set_time
file_begin d_type q found =
    let sized = set_time default_time (
      change_stat
        (λ s. record s {
          st_mode = bit_or (d_type_value d_type * 4096) 0x124;
          st_nlink = 1;
          st_size = default_size;
        })
        found) in
    let listed : ℤ = elim (q.filler) [ none ↦ pos 0 | some f ↦ neg enotdir ] in
    let opened = if q.has_file then record sized { file = none } else sized in
    elim (q.lnk_bufsiz) [
      | none ↦ (listed, opened)
      | some n ↦ elim d_type [
        | dt_lnk ↦ (listed, if ltb 0 n then record opened { lnk_buf = [] } else opened)
        | _ ↦ (neg einval, opened)
      ]
    ]

-- `vfs_file_set_string`
pub file_set_string : Option Bytes → Query → Found → Found
file_set_string str q found =
    let opened =
      if q.has_file then record found { file = some (create_from_string str) } else found in
    let size : ℕ = elim str [ none ↦ 0 | some s ↦ length s ] in
    change_stat (λ s. record s { st_size = size }) opened

-- `vfs_file_set_url`
pub file_set_url : Option Bytes → ℤ → Query → Found → Found
file_set_url url size q found =
    let opened =
      if q.has_file then record found { file = some (create_from_url url size) } else found in
    elim size [ pos n ↦ change_stat (λ s. record s { st_size = n }) opened | negsuc n ↦ opened ]

-- `vfs_symlink_set_path`; the text is cut where the buffer ends.
pub symlink_set_path : Option Bytes → Query → Found → Found
symlink_set_path none q found = change_stat (λ s. record s { st_size = 0 }) found
symlink_set_path (some p) q found =
    let linked : Found = elim (q.lnk_bufsiz) [
      | none ↦ found
      | some n ↦ if ltb 0 n then record found { lnk_buf = take (n - 1) p } else found
    ] in
    change_stat (λ s. record s { st_size = length p }) linked
