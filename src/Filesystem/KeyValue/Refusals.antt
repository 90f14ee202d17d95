-- ===== src/Filesystem/KeyValue/Refusals.antt =====
-- Keys that are no path inside the bucket: what such a key is, apart from the code's test, and that no operation
-- touches the disk for one.
use omnia_backends.Base.{
  ℕ, ◌≡◌, ◌||◌, ◌&&◌, inl, inr, refl, ap, ◌∙◌, Bool, true, false, Option, List, [], ◌∷◌, ◌++◌, any,
  all, ◌==◌, arith, Bool-cases,
}
use omnia_backends.Base.Results.{err}
use omnia_backends.Base.Order.{bytes_ord, lex}
use omnia_backends.Base.Text.{codes}
use omnia_backends.Filesystem.KeyValue.{
  Bytes, Key, bad_key, Disk, Io, value_tree, and_then, continue, key_ok, segment_ok, segments,
  write_value, remove_entry, read_live, get, set, delete, exists, cas, increment,
}
use omnia_backends.Filesystem.KeyValue.Writes.{unkeyed}

-- The text stands in the key between two slashes, or a slash and an end of the key.
pub data IsSegment (segment : Key) : Key → Type 0 where
  alone : IsSegment segment segment
  leads : (after : Key) → IsSegment segment (segment ++ b'/' ∷ after)
  follows : (before key : Key) → IsSegment segment key → IsSegment segment (before ++ b'/' ∷ key)

-- A segment that is no plain name.
pub data IsUnsafe : Key → Type 0 where
  empty : IsUnsafe []
  dot : IsUnsafe (codes ".")
  double_dot : IsUnsafe (codes "..")
  backslash : (before after : Key) → IsUnsafe (before ++ b'\\' ∷ after)
  colon : (before after : Key) → IsUnsafe (before ++ b':' ∷ after)

nonempty : (key : Key) → (s : Key) × (rest : List Key) × (segments key ≡ s ∷ rest)
unfolding segments
nonempty [] = ([], [], refl)
nonempty (c ∷ key) =
    let (s, rest, e) = nonempty key in
    elim (Bool-cases (c == b'/')) [
      | inl h ↦ ([], s ∷ rest, rw (e, h) refl)
      | inr h ↦ (c ∷ s, rest, rw (e, h) refl)
    ]

all_ok : Key → Bool
all_ok key = all segment_ok (segments key)

segments-append : (xs ys : Key) → segments (xs ++ b'/' ∷ ys) ≡ segments xs ++ segments ys
unfolding segments
segments-append [] ys = let (s, rest, e) = nonempty ys in rw e refl
segments-append (c ∷ xs) ys =
    let (s, rest, e) = nonempty xs in
    elim (Bool-cases (c == b'/')) [
      | inl h ↦ rw (segments-append xs ys, e, h) refl
      | inr h ↦ rw (segments-append xs ys, e, h) refl
    ]

all-append :
    (xs ys : List Key) → all segment_ok (xs ++ ys) ≡ (all segment_ok xs && all segment_ok ys)
all-append [] ys = refl
all-append (x ∷ xs) ys = ground (arith, all-append xs ys)

all_ok-append : (xs ys : Key) → all_ok (xs ++ b'/' ∷ ys) ≡ (all_ok xs && all_ok ys)
unfolding all_ok
all_ok-append xs ys =
    ap (all segment_ok) (segments-append xs ys) ∙ all-append (segments xs) (segments ys)

marks : Key → Bool
marks s = any (λ c. c == b'\\' || c == b':') s

any_or : (s : Key) → any (λ c. c == b'/' || c == b'\\' || c == b':') s ≡ false → marks s ≡ false
unfolding marks
any_or [] h = refl
any_or (c ∷ s) h = ground (arith, any_or s)

segment_ok-marks : (s : Key) → marks s ≡ true → segment_ok s ≡ false
unfolding segment_ok
segment_ok-marks s h = ground (arith, any_or s)

any_marks : List Key → Bool
any_marks ss = any marks ss

all-marks : (ss : List Key) → any_marks ss ≡ true → all segment_ok ss ≡ false
unfolding any_marks
all-marks [] h = cc
all-marks (s ∷ ss) h = ground (arith, all-marks ss, segment_ok-marks s)

-- A mark of the key is a mark of one of its segments.
segments-marks : (key : Key) → any_marks (segments key) ≡ marks key
unfolding segments marks any_marks
segments-marks [] = refl
segments-marks (c ∷ key) =
    let (s, rest, e) = nonempty key in
    let ih = segments-marks key in
    elim (Bool-cases (c == b'/')) [
      | inl h ↦ rw (e, h) (ground (arith, e, ih))
      | inr h ↦ rw (e, h) (ground (arith, e, ih))
    ]

marks-append :
    (before after : Key) (c : ℕ) → marks (c ∷ []) ≡ true → marks (before ++ c ∷ after) ≡ true
unfolding marks
marks-append [] after c h = ground arith
marks-append (d ∷ before) after c h = ground (arith, marks-append before after c h)

marked-all_ok : (key : Key) → marks key ≡ true → all_ok key ≡ false
unfolding all_ok
marked-all_ok key h = all-marks (segments key) (segments-marks key ∙ h)

unsafe-all_ok : (segment : Key) → IsUnsafe segment → all_ok segment ≡ false
unfolding all_ok segments segment_ok lex marks
unsafe-all_ok segment empty = refl
unsafe-all_ok segment dot = refl
unsafe-all_ok segment double_dot = refl
unsafe-all_ok segment (backslash before after) =
    marked-all_ok (before ++ b'\\' ∷ after) (marks-append before after b'\\' refl)
unsafe-all_ok segment (colon before after) =
    marked-all_ok (before ++ b':' ∷ after) (marks-append before after b':' refl)

within-all_ok :
    (segment key : Key) → IsSegment segment key → all_ok segment ≡ false → all_ok key ≡ false
within-all_ok segment key alone h = h
within-all_ok segment key (leads after) h = ground (arith, all_ok-append segment after)
within-all_ok segment key (follows before rest i) h =
    ground (arith, all_ok-append before rest, within-all_ok segment rest i h)

unsafe-key_ok : (segment key : Key) → IsSegment segment key → IsUnsafe segment → key_ok key ≡ false
unfolding key_ok all_ok
unsafe-key_ok segment key i u =
    ground (arith, within-all_ok segment key i (unsafe-all_ok segment u))

-- What an operation does with a key that is no path inside the bucket.
pub record Refuses (key : Key) (d : Disk) : Type 0 where
  pub get_lem : get key d ≡ (err bad_key, d)
  pub set_lem : (value : Bytes) (ttl : Option ℕ) → set key value ttl d ≡ (err bad_key, d)
  pub delete_lem : delete key d ≡ (err bad_key, d)
  pub exists_lem : exists key d ≡ (err bad_key, d)
  pub cas_lem :
      (expected : Option Bytes) (value : Bytes) → cas key expected value d ≡ (err bad_key, d)
  pub increment_lem :
      (add_i64 : Option Bytes → ℕ → Option ℕ) (delta : ℕ)
      → increment add_i64 key delta d ≡ (err bad_key, d)

refused : (key : Key) (d : Disk) → key_ok key ≡ false → Refuses key d
unfolding get set delete exists cas increment read_live write_value remove_entry
refused key d bad = record {
  get_lem = unkeyed _ key d bad;
  set_lem = λ value ttl. chain (write_value value_tree key value) _ (unkeyed _ key d bad);
  delete_lem = unkeyed _ key d bad;
  exists_lem = chain (read_live key) _ (unkeyed _ key d bad);
  cas_lem = λ expected value. chain (read_live key) _ (unkeyed _ key d bad);
  increment_lem = λ add_i64 delta. chain (read_live key) _ (unkeyed _ key d bad);
}
  where
    chain :
        {A B : Type 0} (m : Io A) (f : A → Io B)
        → m d ≡ (err bad_key, d)
        → and_then m f d ≡ (err bad_key, d)
    chain m f e = unfold and_then continue in ap (continue f) e

-- A key with a segment between its slashes that is empty, a dot, a double dot, or holds a backslash or
-- a colon is refused by every operation before the disk is touched. The empty key is one of them.
pub key-Refuses :
    (key segment : Key) (d : Disk) → IsSegment segment key → IsUnsafe segment → Refuses key d
key-Refuses key segment d i u = refused key d (unsafe-key_ok segment key i u)
