-- ===== src/Filesystem/KeyValue/Tests.antt =====
-- Runs of a bucket, and the theorems at them.
use omnia_backends.Base.{◌≡◌, refl, true, false, [], ◌∷◌}
use omnia_backends.Base.Results.{err}
use omnia_backends.Base.Map.{get}
use omnia_backends.Base.Order.{bytes_ord, lex}
use omnia_backends.Base.Text.{codes}
use omnia_backends.Filesystem.KeyValue.{
  Key, Disk, value_tree, io_failed, files, dirs, write_value, key_path, key_ok, segment_ok,
  segments, and_then, continue, touch, create_parents, parents, below_file, is_directory, blocked,
  read_file, read_live, is_expired, past,
}
use omnia_backends.Filesystem.KeyValue.Writes.{Written, write_value-Written}
use omnia_backends.Filesystem.KeyValue.Refusals.{Refuses, follows, leads, double_dot, key-Refuses}

abbrev key_a : Key
key_a = codes "a/b"

abbrev disk : Disk
disk = record {
  values = (key_a, 7 ∷ []) ∷ [];
  value_dirs = codes "a" ∷ [];
  ttls = [];
  ttl_dirs = [];
  now = 1000;
  faults = [];
}

-- A value whose key is a directory, or lies below a file, is neither read nor written.
read_directory : read_live (codes "a") disk ≡ (err io_failed, disk)
unfolding read_live is_expired past key_path key_ok segment_ok segments lex and_then continue touch
    read_file blocked is_directory below_file parents files dirs get
read_directory = refl

read_below_file : read_file value_tree (codes "a/b/c") disk ≡ (err io_failed, disk)
unfolding lex and_then continue touch read_file blocked is_directory below_file parents files dirs
    get
read_below_file = refl

write_below_file : write_value value_tree (codes "a/b/c") [] disk ≡ (err io_failed, disk)
unfolding write_value create_parents key_path key_ok segment_ok segments lex and_then continue touch
    below_file parents files get
write_below_file = refl

-- The rename is the fifth call to fail here.
abbrev failing : Disk
failing = record disk { faults = false ∷ false ∷ false ∷ false ∷ true ∷ [] }

write_value-Written_example :
    Written value_tree key_a (8 ∷ []) failing (write_value value_tree key_a (8 ∷ []) failing)
write_value-Written_example = write_value-Written value_tree key_a (8 ∷ []) failing

key-Refuses_example : Refuses (codes "a/../b") disk
key-Refuses_example =
    key-Refuses (codes "a/../b") (codes "..") disk
      (follows (codes "a") (codes "../b") (leads (codes "b"))) double_dot
