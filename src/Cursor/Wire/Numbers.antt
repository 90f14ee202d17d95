-- ===== src/Cursor/Wire/Numbers.antt =====
-- Counts and statuses, each of which a message may spell in two ways.
use omnia_backends.Base.{ℕ, suc, ◌≡◌, refl, some, List, [], ◌∷◌}
use omnia_backends.Base.Strings.{Text}
use omnia_backends.Base.Order.{bytes_ord, lex}
use omnia_backends.Base.Text.{codes}
use omnia_backends.Base.Json.{ℤ, pos, integer, number, string}
use omnia_backends.Base.Integers.{InRange, to_text, as_i64-integer, parse_i64-to_text}
use omnia_backends.Cursor.Wire.Readers.{
  lenient_i64, unknown, run_status, status_named, nth_or_unknown,
}

-- A count of 64 bits reads as itself both from a number and from its text in a string.
pub lenient_i64-to_text :
    (z : ℤ)
    → InRange z
    → (lenient_i64 (number (integer z)) ≡ some z) × (lenient_i64 (string (to_text z)) ≡ some z)
unfolding lenient_i64
lenient_i64-to_text z h = (as_i64-integer z h, parse_i64-to_text z h)

-- The names of a status on the wire, by its number.
abbrev pub wire_names : List Text
wire_names =
    codes "RUN_LIFECYCLE_STATUS_UNSPECIFIED"
    ∷ codes "RUN_LIFECYCLE_STATUS_CREATING"
    ∷ codes "RUN_LIFECYCLE_STATUS_RUNNING"
    ∷ codes "RUN_LIFECYCLE_STATUS_FINISHED"
    ∷ codes "RUN_LIFECYCLE_STATUS_ERROR"
    ∷ codes "RUN_LIFECYCLE_STATUS_CANCELLED"
    ∷ codes "RUN_LIFECYCLE_STATUS_EXPIRED"
    ∷ []

-- Each name of a list reads as the status of its number, counted from `n`.
abbrev pub Agree : ℕ → List Text → Type 0
Agree n [] = run_status (number (integer (pos n))) ≡ unknown
Agree n (name ∷ names) =
    (run_status (string name) ≡ run_status (number (integer (pos n)))) × Agree (suc n) names

-- A status reads the same from its name and from its number, and the first number behind them is
-- unknown.
pub run_status-Agree : Agree 0 wire_names
unfolding run_status status_named nth_or_unknown lex
run_status-Agree = (refl, (refl, (refl, (refl, (refl, (refl, (refl, refl)))))))
