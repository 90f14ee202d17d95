-- ===== src/Filesystem/KeyValue/Swap.antt =====
-- Compare-and-swap as the key's next reader sees it.
use omnia_backends.Base.{◌≡◌, Option, some, if◌then◌else◌}
use omnia_backends.Base.Results.{Result, ok, err}
use omnia_backends.Base.Map
use omnia_backends.Base.Map.{Map}
use omnia_backends.Base.Order.{bytes_ord}
use omnia_backends.Filesystem.KeyValue.{
  Bytes, Key, IoError, Disk, Io, value_tree, and_then, give, write_value, get, same_value,
}

-- The swap, once the value was read.
swap : Key → Option Bytes → Bytes → Option Bytes → Io (Result (Unit {0}) (Option Bytes))
swap key expected value observed =
    if same_value observed expected
    then and_then (write_value value_tree key value) (λ _. give (ok tt))
    else give (err observed)

-- What a swap answers where `observed` was live, and what the key's next read finds.
pub record Swapped (key : Key) (expected observed : Option Bytes) (value : Bytes)
    (r : Result (Result (Unit {0}) (Option Bytes)) IoError × Disk) : Type 0 where
  pub answer : r.0 ≡ ok (if same_value observed expected then ok tt else err observed)
  pub read_back :
      (get key r.1).0 ≡ ok (if same_value observed expected then some value else observed)
