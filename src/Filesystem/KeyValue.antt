-- ===== src/Filesystem/KeyValue.antt =====
-- crates/filesystem/src/keyvalue.rs with `segment_ok` of lib.rs: a bucket of values, each with an
-- optional expiry, in two trees of files.
--
-- A bucket's lock holds each call apart from the others on its key, so a call is a function of the
-- disk. Every call of the file system takes its outcome from `faults`: a failure leaves the stored
-- files as they are. A call also fails on a path that is a directory or lies below a file. A `rename`
-- is atomic, and temporary files are no part of the state. The sum of two numbers, `add_i64`, is an
-- argument.
pub mod Writes
pub mod Refusals
pub mod Paths
pub mod Swap
mod Tests
use omnia_backends.Base.{
  ℕ, zero, suc, ◌+◌, ◌*◌, ◌/◌, ◌%◌, Bool, true, false, ◌&&◌, ◌||◌, not, Option, none, some, List,
  [], ◌∷◌, ◌++◌, map, keep, any, all, length, is_some, ◌==◌, leb, if◌then◌else◌,
}
use omnia_backends.Base.Results.{Result, ok, err}
use omnia_backends.Base.Map.{Map}
use omnia_backends.Base.Map
use omnia_backends.Base.Order.{bytes_ord, same}
use omnia_backends.Base.Text.{codes}

abbrev pub Bytes : Type 0
Bytes = List ℕ

abbrev pub Key : Type 0
Key = List ℕ

pub data IoError : Type 0 where
  bad_key io_failed bad_number : IoError

-- Two trees, values and expiry times, each with its directories, and the clock in milliseconds.
pub record Disk : Type 0 where
  pub values : Map Key Bytes
  pub value_dirs : List Key
  pub ttls : Map Key Bytes
  pub ttl_dirs : List Key
  pub now : ℕ
  pub faults : List Bool

abbrev pub Io : Type 0 → Type 0
Io A = Disk → Result A IoError × Disk

unfoldable pub continue :
    {A B : Type 0} → (A → Io B) → Result A IoError × Disk → Result B IoError × Disk
continue f (ok a, d) = f a d
continue f (err e, d) = (err e, d)

-- `?`, then the rest.
unfoldable pub and_then : {A B : Type 0} → Io A → (A → Io B) → Io B
and_then m f d = continue f (m d)

unfoldable pub give : {A : Type 0} → A → Io A
give a d = (ok a, d)

unfoldable pub fail : {A : Type 0} → IoError → Io A
fail e d = (err e, d)

-- `let _ = …`: the outcome is dropped.
unfoldable pub ignore : {A : Type 0} → Io A → Io (Unit {0})
ignore m d = (ok tt, (m d).1)

-- A call of the file system, as far as `faults` has it.
unfoldable pub touch : Io (Unit {0})
touch d = elim d.faults [
  | [] ↦ (ok tt, d)
  | f ∷ fs ↦ (if f then err io_failed else ok tt, record d { faults = fs })
]

pub data Tree : Type 0 where
  value_tree ttl_tree : Tree

unfoldable pub files : Tree → Disk → Map Key Bytes
files value_tree d = d.values
files ttl_tree d = d.ttls

unfoldable pub with_files : Tree → Map Key Bytes → Disk → Disk
with_files value_tree m d = record d { values = m }
with_files ttl_tree m d = record d { ttls = m }

unfoldable pub dirs : Tree → Disk → List Key
dirs value_tree d = d.value_dirs
dirs ttl_tree d = d.ttl_dirs

unfoldable pub with_dirs : Tree → List Key → Disk → Disk
with_dirs value_tree ks d = record d { value_dirs = ks }
with_dirs ttl_tree ks d = record d { ttl_dirs = ks }

-- The directories above a path: what stands before each of its slashes.
unfoldable pub parents : Key → List Key
parents [] = []
parents (c ∷ key) =
    let rest = map (λ p. c ∷ p) (parents key) in if c == b'/' then [] ∷ rest else rest

-- ENOTDIR: a directory above the path is a file.
unfoldable pub below_file : Tree → Key → Disk → Bool
below_file tree key d = any (λ p. is_some (Map.get p (files tree d))) (parents key)

-- EISDIR: the path is a directory.
unfoldable pub is_directory : Tree → Key → Disk → Bool
is_directory tree key d = any (same key) (dirs tree d)

unfoldable pub blocked : Tree → Key → Disk → Bool
blocked tree key d = is_directory tree key d || below_file tree key d

-- `create_dir_all` of the path's parent. Directories are never removed.
unfoldable pub create_parents : Tree → Key → Io (Unit {0})
create_parents tree key = and_then touch λ _ d.
    if below_file tree key d
    then (err io_failed, d)
    else (ok tt, with_dirs tree (parents key ++ dirs tree d) d)

unfoldable pub persist : Tree → Key → Bytes → Io (Unit {0})
persist tree key value = and_then touch λ _ d.
    if blocked tree key d
    then (err io_failed, d)
    else (ok tt, with_files tree (Map.insert key value (files tree d)) d)

unfoldable pub unlink : Tree → Key → Io (Unit {0})
unlink tree key = and_then touch λ _ d.
    if blocked tree key d
    then (err io_failed, d)
    else (ok tt, with_files tree (Map.remove key (files tree d)) d)

unfoldable pub read_file : Tree → Key → Io (Option Bytes)
read_file tree key =
    and_then touch
      λ _ d. if blocked tree key d then (err io_failed, d) else (ok (Map.get key (files tree d)), d)

unfoldable pub segment_ok : Key → Bool
segment_ok segment =
    not (same segment [])
    && not (same segment (codes "."))
    && not (same segment (codes ".."))
    && not (any (λ c. c == b'/' || c == b'\\' || c == b':') segment)

-- `key.split('/')`
unfoldable pub segments : Key → List Key
segments [] = [] ∷ []
segments (c ∷ key) = elim (segments key) [
  | [] ↦ [] ∷ []
  | s ∷ rest ↦ if c == b'/' then [] ∷ s ∷ rest else (c ∷ s) ∷ rest
]

unfoldable pub key_ok : Key → Bool
key_ok key = not (same key []) && all segment_ok (segments key)

-- `key_path`, the path being the key in its tree.
unfoldable pub key_path : Key → Io (Unit {0})
key_path key d = if key_ok key then (ok tt, d) else (err bad_key, d)

-- The directories, the temporary file, its bytes and their way to the disk, then the rename.
unfoldable pub write_value : Tree → Key → Bytes → Io (Unit {0})
write_value tree key value = and_then (key_path key) λ _.
    and_then (create_parents tree key)
      λ _. and_then touch λ _. and_then touch λ _. and_then touch λ _. persist tree key value

-- Big-endian numbers of `n` bytes.
unfoldable pub to_be_bytes : ℕ → ℕ → Bytes
to_be_bytes zero k = []
to_be_bytes (suc n) k = to_be_bytes n (k / 256) ++ k % 256 ∷ []

unfoldable pub from_be_bytes : ℕ → Bytes → ℕ
from_be_bytes acc [] = acc
from_be_bytes acc (b ∷ bytes) = from_be_bytes (acc * 256 + b) bytes

-- Whether the expiry has come, of what the file holds: a file of another size is none.
unfoldable pub past : Option Bytes → ℕ → Bool
past none now = false
past (some bytes) now = length bytes == 16 && leb (from_be_bytes 0 bytes) now

unfoldable pub is_expired : Key → Io Bool
is_expired key =
    and_then (key_path key)
      λ _. and_then (read_file ttl_tree key) λ bytes d. (ok (past bytes d.now), d)

abbrev pub u128_max : ℕ
u128_max = 340282366920938463463374607431768211455

unfoldable pub saturating_add : ℕ → ℕ → ℕ
saturating_add a b = if leb (a + b) u128_max then a + b else u128_max

unfoldable pub write_ttl : Key → Option ℕ → Io (Unit {0})
write_ttl key none = and_then (key_path key) λ _. unlink ttl_tree key
write_ttl key (some ttl) =
    and_then touch λ _ d. write_value ttl_tree key (to_be_bytes 16 (saturating_add d.now ttl)) d

unfoldable pub remove_entry : Key → Io (Unit {0})
remove_entry key =
    and_then (key_path key) λ _. and_then (ignore (unlink ttl_tree key)) λ _. unlink value_tree key

unfoldable pub read_live : Key → Io (Option Bytes)
read_live key = and_then (key_path key) λ _. and_then (is_expired key) λ expired.
    if expired then and_then (remove_entry key) (λ _. give none) else read_file value_tree key

unfoldable pub get : Key → Io (Option Bytes)
get key = read_live key

unfoldable pub set : Key → Bytes → Option ℕ → Io (Unit {0})
set key value ttl = and_then (write_value value_tree key value) λ _. write_ttl key ttl

unfoldable pub delete : Key → Io (Unit {0})
delete key = remove_entry key

unfoldable pub exists : Key → Io Bool
exists key = and_then (read_live key) λ value. give (is_some value)

unfoldable pub same_value : Option Bytes → Option Bytes → Bool
same_value none none = true
same_value (some a) (some b) = same a b
same_value _ _ = false

unfoldable pub cas : Key → Option Bytes → Bytes → Io (Result (Unit {0}) (Option Bytes))
cas key expected value = and_then (read_live key) λ observed.
    if same_value observed expected
    then and_then (write_value value_tree key value) (λ _. give (ok tt))
    else give (err observed)

-- Numbers are the bit patterns of `i64`.
unfoldable pub increment : (Option Bytes → ℕ → Option ℕ) → Key → ℕ → Io ℕ
increment add_i64 key delta = and_then (read_live key) λ existing. elim (add_i64 existing delta) [
  | none ↦ fail bad_number
  | some n ↦ and_then (write_value value_tree key (to_be_bytes 8 n)) (λ _. give n)
]
