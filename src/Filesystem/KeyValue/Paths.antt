-- ===== src/Filesystem/KeyValue/Paths.antt =====
-- The bucket's calls where no call of the file system fails but for the shape of the tree: a path that is a
-- directory, or lies below a file.
use omnia_backends.Base.{
  ℕ, ◌≡◌, refl, ap, ◌∙◌, true, false, ◌||◌, Option, none, List, [], ◌∷◌, ◌++◌, any, map, is_some,
  if◌then◌else◌, arith, Bool-cases, inl, inr,
}
use omnia_backends.Base.Results.{ok}
use omnia_backends.Base.Map
use omnia_backends.Base.Map.{Map, get-insert, get-remove}
use omnia_backends.Base.Order.{bytes_ord, same, same_refl, eq_of_same, lex}
use omnia_backends.Filesystem.KeyValue.Writes.{keyed}
use omnia_backends.Filesystem.KeyValue.{
  Bytes, Key, Disk, value_tree, ttl_tree, and_then, continue, touch, give, ignore, create_parents,
  persist, unlink, files, with_files, dirs, with_dirs, parents, below_file, is_directory, blocked,
  key_ok, write_value, remove_entry, read_live, read_file, is_expired, past, get,
}

-- A disk on which no call fails by itself.
abbrev pub sound : Map Key Bytes → List Key → Map Key Bytes → List Key → ℕ → Disk
sound values value_dirs ttls ttl_dirs now = record {
  values = values;
  value_dirs = value_dirs;
  ttls = ttls;
  ttl_dirs = ttl_dirs;
  now = now;
  faults = [];
}

-- The key's path is no directory and lies below no file.
abbrev pub Free : Key → Disk → Type 0
Free key d = (blocked ttl_tree key d ≡ false) × (blocked value_tree key d ≡ false)

-- The key's value, unless its expiry has come.
unfoldable pub live : Key → Disk → Option Bytes
live key d = if past (Map.get key d.ttls) d.now then none else Map.get key d.values

same_cons : (c : ℕ) (a b : Key) → same (c ∷ a) (c ∷ b) ≡ same a b
unfolding lex
same_cons c a b = ground arith

any-map_cons :
    (c : ℕ) (key : Key) (ps : List Key)
    → any (same (c ∷ key)) (map (λ p. c ∷ p) ps) ≡ any (same key) ps
any-map_cons c key [] = refl
any-map_cons c key (p ∷ ps) = ground (arith, same_cons c key p, any-map_cons c key ps)

-- No path is above itself.
any-parents : (key : Key) → any (same key) (parents key) ≡ false
unfolding parents lex
any-parents [] = refl
any-parents (c ∷ key) = ground (arith, any-map_cons c key (parents key), any-parents key)

any-append :
    (key : Key) (xs ys : List Key)
    → any (same key) (xs ++ ys) ≡ (any (same key) xs || any (same key) ys)
any-append key [] ys = refl
any-append key (x ∷ xs) ys = ground (arith, any-append key xs ys)

stored-insert :
    (key : Key) (value : Bytes) (m : Map Key Bytes) (ps : List Key)
    → any (same key) ps ≡ false
    → any (λ p. is_some (Map.get p (Map.insert key value m))) ps
      ≡ any (λ p. is_some (Map.get p m)) ps
stored-insert key value m [] h = refl
stored-insert key value m (p ∷ ps) h =
    ground (
      arith,
      get-insert p key value m,
      eq_of_same p key,
      same_refl key,
      stored-insert key value m ps,
    )

stored-remove :
    (key : Key) (m : Map Key Bytes) (ps : List Key)
    → any (λ p. is_some (Map.get p m)) ps ≡ false
    → any (λ p. is_some (Map.get p (Map.remove key m))) ps ≡ false
stored-remove key m [] h = refl
stored-remove key m (p ∷ ps) h = ground (arith, get-remove p key m, stored-remove key m ps)

module _ (values : Map Key Bytes) (value_dirs : List Key) (ttls : Map Key Bytes)
    (ttl_dirs : List Key) (now : ℕ) (key : Key) (good : key_ok key ≡ true) where
  unfoldable pub before : Disk
  before = sound values value_dirs ttls ttl_dirs now

  -- The disk with the key's expired value taken off.
  unfoldable pub removed : Disk
  removed = sound (Map.remove key values) value_dirs (Map.remove key ttls) ttl_dirs now

  unfoldable pub reaped : Disk
  reaped = if past (Map.get key ttls) now then removed else before

  unfoldable pub written : Bytes → Disk
  written value = sound (Map.insert key value values) (parents key ++ value_dirs) ttls ttl_dirs now

  is_expired_lem :
      blocked ttl_tree key before ≡ false
      → is_expired key before ≡ (ok (past (Map.get key ttls) now), before)
  unfolding is_expired and_then continue read_file touch files before
  is_expired_lem h = keyed _ key before good ∙ rw h refl

  unlink_ttl :
      blocked ttl_tree key before ≡ false
      → unlink ttl_tree key before
        ≡ (ok tt, sound values value_dirs (Map.remove key ttls) ttl_dirs now)
  unfolding and_then continue unlink touch files with_files before
  unlink_ttl h = rw h refl

  unlink_value :
      blocked value_tree key before ≡ false
      → unlink value_tree key before
        ≡ (ok tt, sound (Map.remove key values) value_dirs ttls ttl_dirs now)
  unfolding and_then continue unlink touch files with_files before
  unlink_value h = rw h refl

  create_parents_lem :
      below_file value_tree key before ≡ false
      → create_parents value_tree key before
        ≡ (ok tt, sound values (parents key ++ value_dirs) ttls ttl_dirs now)
  unfolding and_then continue create_parents touch dirs with_dirs before
  create_parents_lem h = rw h refl

  persist_lem :
      (value : Bytes)
      → blocked value_tree key before ≡ false
      → persist value_tree key value before
        ≡ (ok tt, sound (Map.insert key value values) value_dirs ttls ttl_dirs now)
  unfolding and_then continue persist touch files with_files before
  persist_lem value h = rw h refl

module _ (values : Map Key Bytes) (value_dirs : List Key) (ttls : Map Key Bytes)
    (ttl_dirs : List Key) (now : ℕ) (key : Key) (good : key_ok key ≡ true) where
  abbrev pub start : Disk
  start = before values value_dirs ttls ttl_dirs now key good

  remove_entry_lem :
      Free key start
      → remove_entry key start ≡ (ok tt, removed values value_dirs ttls ttl_dirs now key good)
  unfolding remove_entry and_then continue ignore removed before blocked is_directory below_file
      dirs files
  remove_entry_lem (t, v) =
      keyed _ key start good
      ∙ (ap (λ r. unlink value_tree key r.1)
            (unlink_ttl values value_dirs ttls ttl_dirs now key good t)
          ∙ unlink_value values value_dirs (Map.remove key ttls) ttl_dirs now key good v)

  pub read_live_lem :
      Free key start
      → read_live key start
        ≡ (ok (live key start), reaped values value_dirs ttls ttl_dirs now key good)
  unfolding read_live and_then continue read_file give touch files live reaped before
  read_live_lem free =
      keyed _ key start good
      ∙ ap (continue _) (is_expired_lem values value_dirs ttls ttl_dirs now key good free.0)
      ∙ elim (Bool-cases (past (Map.get key ttls) now)) [
        | inl e ↦ rw e (ap (continue (λ _. give none)) (remove_entry_lem free))
        | inr e ↦ rw (e, free.1) refl
      ]

  below-blocked : blocked value_tree key start ≡ false → below_file value_tree key start ≡ false
  unfolding blocked
  below-blocked h = ground arith

  parents-Free :
      blocked value_tree key start ≡ false
      → blocked value_tree key (sound values (parents key ++ value_dirs) ttls ttl_dirs now) ≡ false
  unfolding blocked is_directory below_file files dirs before
  parents-Free v = ground (arith, v, any-append key (parents key) value_dirs, any-parents key)

  pub write_value_lem :
      (value : Bytes)
      → blocked value_tree key start ≡ false
      → write_value value_tree key value start
        ≡ (ok tt, written values value_dirs ttls ttl_dirs now key good value)
  unfolding write_value and_then continue touch before written
  write_value_lem value h =
      keyed _ key start good
      ∙ (ap (continue _)
            (create_parents_lem values value_dirs ttls ttl_dirs now key good (below-blocked h))
          ∙ persist_lem values (parents key ++ value_dirs) ttls ttl_dirs now key good value
              (parents-Free h))

  pub written-Free :
      (value : Bytes)
      → Free key start
      → Free key (written values value_dirs ttls ttl_dirs now key good value)
  unfolding blocked is_directory below_file files dirs before written
  written-Free value (t, v) = (
    t,
    ground (
      arith,
      v,
      any-append key (parents key) value_dirs,
      any-parents key,
      stored-insert key value values (parents key),
    ),
  )

  pub removed-Free :
      Free key start → Free key (removed values value_dirs ttls ttl_dirs now key good)
  unfolding blocked is_directory below_file files dirs before removed
  removed-Free (t, v) = (
    ground (arith, t, stored-remove key ttls (parents key)),
    ground (arith, v, stored-remove key values (parents key)),
  )

  pub get_lem : Free key start → (get key start).0 ≡ ok (live key start)
  unfolding get
  get_lem free = ap (λ r. r.0) (read_live_lem free)
