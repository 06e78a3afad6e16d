-- ===== src/Wire/OsCall.antt =====
-- internal/wire/oscall.go: the filesystem part of an OS call. An operation is its proto field
-- number. The fields that no filesystem operation uses, and the decoding, are not modelled.
use montygo.Prelude.{
  Bool, Bytes, [], codes, false, if◌then◌else◌, leb, true, ℕ, ◌&&◌, ◌==◌, ◌||◌, ◌∷◌,
}

abbrev pub op_exists : ℕ
op_exists = 2

abbrev pub op_is_symlink : ℕ
op_is_symlink = 5

abbrev pub op_stat : ℕ
op_stat = 8

abbrev pub op_iterdir : ℕ
op_iterdir = 9

abbrev pub op_resolve : ℕ
op_resolve = 10

abbrev pub op_unlink : ℕ
op_unlink = 12

abbrev pub op_rmdir : ℕ
op_rmdir = 13

abbrev pub op_write_text : ℕ
op_write_text = 14

abbrev pub op_append_text : ℕ
op_append_text = 15

abbrev pub op_write_bytes : ℕ
op_write_bytes = 16

abbrev pub op_append_bytes : ℕ
op_append_bytes = 17

abbrev pub op_open : ℕ
op_open = 18

abbrev pub op_mkdir : ℕ
op_mkdir = 19

abbrev pub op_rename : ℕ
op_rename = 20

pub record OsCall : Type 0 where
  pub op : ℕ
  pub path : Bytes
  pub dst : Bytes
  pub mode : Bytes
  pub parents : Bool
  pub exist_ok : Bool

-- OsCall.IsFS.
unfoldable pub is_fs : OsCall → Bool
is_fs c = leb op_exists c.op && leb c.op op_rename

-- OsCall.IsExistenceCheck.
unfoldable pub is_existence_check : OsCall → Bool
is_existence_check c = leb op_exists c.op && leb c.op op_is_symlink

mode_writes : Bytes → Bool
mode_writes [] = false
mode_writes (ch ∷ mode) = ch == b'w' || ch == b'a'

-- OsCall.IsWrite.
unfoldable pub is_write : OsCall → Bool
unfolding mode_writes
is_write c =
    if c.op == op_write_text
      || c.op == op_write_bytes
      || c.op == op_append_text
      || c.op == op_append_bytes
      || c.op == op_mkdir
      || c.op == op_unlink
      || c.op == op_rmdir
      || c.op == op_rename
    then true
    else if c.op == op_open
    then mode_writes c.mode
    else false

-- OsCall.NullMessage.
unfoldable pub null_message : OsCall → Bool → Bytes
null_message c dst =
    if c.op == op_mkdir
    then codes "mkdir: embedded null character in path"
    else if c.op == op_unlink
    then codes "unlink: embedded null character in path"
    else if c.op == op_rmdir
    then codes "rmdir: embedded null character in path"
    else if c.op == op_stat
    then codes "stat: embedded null character in path"
    else if c.op == op_iterdir
    then codes "scandir: embedded null character in path"
    else if c.op == op_resolve
    then codes "lstat: embedded null character in path"
    else if c.op == op_rename
    then (if dst
        then codes "rename: embedded null character in dst"
        else codes "rename: embedded null character in src")
    else codes "embedded null byte"
