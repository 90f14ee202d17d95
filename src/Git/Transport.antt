-- ===== src/Git/Transport.antt =====
-- crates/git/src/command/pins.rs, `is_local`, `transport_args`, `pack_arg` and `shell_quote`: the protocols and the
-- pack command of a transport.
pub mod Quoting
mod Tests
use omnia_backends.Base.{
  ℕ, ◌<◌, Bool, true, false, ◌&&◌, Option, none, some, List, [], ◌∷◌, ◌++◌, map, ◌==◌, ltb, leb,
  ◌+◌, if◌then◌else◌,
}
use omnia_backends.Base.Text.{codes}
use omnia_backends.Base.Order.{bytes_ord, same}
use mathlib.Core.Option
use mathlib.Core.List.{flatten}

abbrev pub Text : Type 0
Text = List ℕ

-- The escape of each quote, `'\''`.
unfoldable pub escape : Text → Text
escape [] = []
escape (c ∷ text) =
    if c == b'\'' then b'\'' ∷ b'\\' ∷ b'\'' ∷ b'\'' ∷ escape text else c ∷ escape text

unfoldable pub shell_quote : Text → Text
shell_quote value = b'\'' ∷ (escape value ++ b'\'' ∷ [])

-- `str::find` of a character.
unfoldable pub find_char : ℕ → Text → Option ℕ
find_char k [] = none
find_char k (c ∷ text) = if c == k then some 0 else Option.map (λ i. i + 1) (find_char k text)

unfoldable pub lower : ℕ → ℕ
lower c = if leb 65 c && leb c 90 then c + 32 else c

unfoldable pub begins_scheme : Text → Bool
begins_scheme (c ∷ d ∷ text) = c == b'/' && d == b'/'
begins_scheme text = false

-- `split_once("://")`, the part before.
unfoldable pub scheme_of : Text → Option Text
scheme_of [] = none
scheme_of (c ∷ text) =
    if c == b':' && begins_scheme text then some [] else Option.map (λ s. c ∷ s) (scheme_of text)

unfoldable pub is_local_path : Option ℕ → Option ℕ → Bool
is_local_path (some colon) (some slash) = ltb slash colon
is_local_path (some colon) none = false
is_local_path none slash = true

unfoldable pub is_local : Text → Bool
is_local address = elim (scheme_of address) [
  | some scheme ↦ same (map lower scheme) (codes "file")
  | none ↦ is_local_path (find_char b':' address) (find_char b'/' address)
]

abbrev pub local_pack_pins : List Text
local_pack_pins =
    codes "core.hooksPath=/dev/null"
    ∷ codes "core.alternateRefsCommand="
    ∷ codes "core.fsmonitor=false"
    ∷ codes "receive.denyCurrentBranch=refuse"
    ∷ []

-- ` -c <pin>` for each, then the operation.
unfoldable pub pack_command : Text → Text
pack_command operation =
    flatten (map (λ pin. codes " -c " ++ pin) local_pack_pins) ++ b' ' ∷ operation

unfoldable pub pack_arg : Text → Text → Text
pack_arg binary operation =
    codes "--" ++ operation ++ b'=' ∷ (shell_quote binary ++ pack_command operation)

unfoldable pub transport_args : Text → Text → Bool → Text × Text
transport_args binary address push =
    let operation = if push then codes "receive-pack" else codes "upload-pack" in
    if is_local address
    then (codes "file", pack_arg binary operation)
    else (codes "http:https:ssh", codes "--" ++ operation ++ codes "=git-" ++ operation)
