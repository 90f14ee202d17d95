-- ===== src/Filesystem/KeyValue/Writes.antt =====
-- What a write leaves, whatever fails in it.
use omnia_backends.Base.{
  ◌≡◌, ◌⊎◌, inl, inr, refl, sym, subst, ap, ◌∙◌, Bool, true, false, List, [], ◌∷◌, ◌++◌, Bool-cases,
}
use omnia_backends.Base.Results.{Result, ok, err}
use omnia_backends.Base.Map
use omnia_backends.Base.Map.{Map}
use omnia_backends.Base.Order.{bytes_ord}
use omnia_backends.Filesystem.KeyValue.{
  Bytes, Key, IoError, bad_key, io_failed, Disk, Io, Tree, value_tree, ttl_tree, and_then, continue,
  touch, persist, dirs, with_dirs, parents, below_file, blocked, create_parents, files, with_files,
  key_ok, key_path, write_value,
}

-- The disk but for the outcomes of the calls to come.
pub record Unmoved (d d' : Disk) : Type 0 where
  pub values_lem : d'.values ≡ d.values
  pub ttls_lem : d'.ttls ≡ d.ttls
  pub now_lem : d'.now ≡ d.now

-- A chain that first makes a call: either the call fails and nothing is stored, or the rest runs on a
-- disk that stores the same.
touch-cases :
    {A : Type 0} (P : Result A IoError × Disk → Type 0) (f : (Unit {0}) → Io A) (d : Disk)
    → ((e : IoError) (d' : Disk) → Unmoved d d' → P (err e, d'))
    → ((d' : Disk) → Unmoved d d' → P (f tt d'))
    → P (and_then touch f d)
unfolding and_then continue touch
touch-cases P f d fails runs = go d.faults refl
  where
    go : (fs : List Bool) → d.faults ≡ fs → P (and_then touch f d)
    go [] e = rw e (
        runs (record d { faults = [] })
          (record { values_lem = refl; ttls_lem = refl; now_lem = refl }))
    go (true ∷ fs) e = rw e (
        fails io_failed (record d { faults = fs })
          (record { values_lem = refl; ttls_lem = refl; now_lem = refl }))
    go (false ∷ fs) e = rw e (
        runs (record d { faults = fs })
          (record { values_lem = refl; ttls_lem = refl; now_lem = refl }))

pub unmoved : (d : Disk) → Unmoved d d
unmoved d = record { values_lem = refl; ttls_lem = refl; now_lem = refl }

pub path_ok : (key : Key) (d : Disk) → key_ok key ≡ true → key_path key d ≡ (ok tt, d)
unfolding key_path
path_ok key d h = rw h refl

pub path_bad : (key : Key) (d : Disk) → key_ok key ≡ false → key_path key d ≡ (err bad_key, d)
unfolding key_path
path_bad key d h = rw h refl

pub keyed :
    {A : Type 0} (f : (Unit {0}) → Io A) (key : Key) (d : Disk)
    → key_ok key ≡ true
    → and_then (key_path key) f d ≡ f tt d
unfolding and_then continue
keyed f key d h = ap (continue f) (path_ok key d h)

pub unkeyed :
    {A : Type 0} (f : (Unit {0}) → Io A) (key : Key) (d : Disk)
    → key_ok key ≡ false
    → and_then (key_path key) f d ≡ (err bad_key, d)
unfolding and_then continue
unkeyed f key d h = ap (continue f) (path_bad key d h)

-- A chain that first tests the key.
guard-cases :
    {A : Type 0} (P : Result A IoError × Disk → Type 0) (f : (Unit {0}) → Io A) (key : Key)
    (d : Disk)
    → (key_ok key ≡ false → P (err bad_key, d))
    → (key_ok key ≡ true → P (f tt d))
    → P (and_then (key_path key) f d)
guard-cases P f key d bad good = elim (Bool-cases (key_ok key)) [
  | inl e ↦ subst P (sym (keyed f key d e)) (good e)
  | inr e ↦ subst P (sym (unkeyed f key d e)) (bad e)
]

Unmoved-trans : (d e f : Disk) → Unmoved d e → Unmoved e f → Unmoved d f
Unmoved-trans d e f u v = record {
  values_lem = v.values_lem ∙ u.values_lem;
  ttls_lem = v.ttls_lem ∙ u.ttls_lem;
  now_lem = v.now_lem ∙ u.now_lem;
}

files-Unmoved : (tree : Tree) (d e : Disk) → Unmoved d e → files tree e ≡ files tree d
unfolding files
files-Unmoved value_tree d e u = u.values_lem
files-Unmoved ttl_tree d e u = u.ttls_lem

-- The disk with the file written.
unfoldable pub written : Tree → Key → Bytes → Disk → Disk
written tree key value d = with_files tree (Map.insert key value (files tree d)) d

-- The outcome of a write: an error and nothing stored, or success and the file written.
pub Written : Tree → Key → Bytes → Disk → Result (Unit {0}) IoError × Disk → Type 0
Written tree key value d r =
    ((e : IoError) × (r.0 ≡ err e) × Unmoved d r.1)
    ⊎ ((r.0 ≡ ok tt) × Unmoved (written tree key value d) r.1)

failed :
    (tree : Tree) (key value : Bytes) (d : Disk) (e : IoError) (d' : Disk)
    → Unmoved d d'
    → Written tree key value d (err e, d')
unfolding Written
failed tree key value d e d' u = inl (e, refl, u)

written-Unmoved :
    (tree : Tree) (key value : Bytes) (d d' : Disk)
    → Unmoved d d'
    → Unmoved (written tree key value d) (written tree key value d')
unfolding written with_files files
written-Unmoved value_tree key value d d' u = record {
  values_lem = ap (Map.insert key value) u.values_lem;
  ttls_lem = u.ttls_lem;
  now_lem = u.now_lem;
}
written-Unmoved ttl_tree key value d d' u = record {
  values_lem = u.values_lem;
  ttls_lem = ap (Map.insert key value) u.ttls_lem;
  now_lem = u.now_lem;
}

persist-Written :
    (tree : Tree) (key value : Bytes) (d d' : Disk)
    → Unmoved d d'
    → Written tree key value d (persist tree key value d')
unfolding persist Written written
persist-Written tree key value d d' u =
    touch-cases (Written tree key value d) _ d'
      (λ e f v. failed tree key value d e f (Unmoved-trans d d' f u v))
      (λ f v. elim (Bool-cases (blocked tree key f)) [
        | inl e ↦ rw e (failed tree key value d io_failed f (Unmoved-trans d d' f u v))
        | inr e ↦ rw e (inr (refl, written-Unmoved tree key value d f (Unmoved-trans d d' f u v)))
      ])

with_dirs-Unmoved : (tree : Tree) (ks : List Key) (d : Disk) → Unmoved d (with_dirs tree ks d)
unfolding with_dirs
with_dirs-Unmoved value_tree ks d = record { values_lem = refl; ttls_lem = refl; now_lem = refl }
with_dirs-Unmoved ttl_tree ks d = record { values_lem = refl; ttls_lem = refl; now_lem = refl }

-- Making the directories stores no file.
parents-Written :
    (tree : Tree) (key value : Bytes) (d : Disk) (f : (Unit {0}) → Io (Unit {0}))
    → ((d' : Disk) → Unmoved d d' → Written tree key value d (f tt d'))
    → Written tree key value d (and_then (create_parents tree key) f d)
unfolding create_parents and_then
parents-Written tree key value d f rest =
    touch-cases (λ r. Written tree key value d (continue f r)) _ d
      (λ e d' u. unfold continue in failed tree key value d e d' u)
      (λ d' u.
        unfold continue in
        elim (Bool-cases (below_file tree key d')) [
          | inl e ↦ rw e (failed tree key value d io_failed d' u)
          | inr e ↦ rw e (
              rest (with_dirs tree (parents key ++ dirs tree d') d')
                (Unmoved-trans d d' _ u (with_dirs-Unmoved tree (parents key ++ dirs tree d') d')))
        ])

-- A call before the write leaves it all or nothing.
module _ (tree : Tree) (key value : Bytes) (d : Disk) (f : (Unit {0}) → Io (Unit {0})) where
  before :
      ((d' : Disk) → Unmoved d d' → Written tree key value d (f tt d'))
      → (d' : Disk) → Unmoved d d'
      → Written tree key value d (and_then touch f d')
  before rest d' u =
      touch-cases (Written tree key value d) f d'
        (λ e g v. failed tree key value d e g (Unmoved-trans d d' g u v))
        (λ g v. rest g (Unmoved-trans d d' g u v))

-- A write of a value is all or nothing, whichever of its calls fails: it returns an error and the
-- stored files are the old ones, or it succeeds and the key's file alone is the new one.
pub write_value-Written :
    (tree : Tree) (key value : Bytes) (d : Disk)
    → Written tree key value d (write_value tree key value d)
unfolding write_value
write_value-Written tree key value d =
    guard-cases (Written tree key value d) _ key d
      (λ bad. failed tree key value d bad_key d (unmoved d))
      (λ good. parents-Written tree key value d _ (
        before tree key value d _ (
          before tree key value d _
            (before tree key value d _ (persist-Written tree key value d)))))
