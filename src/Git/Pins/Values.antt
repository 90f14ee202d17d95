-- ===== src/Git/Pins/Values.antt =====
-- What the overrides leave out: nothing of a repository's values reaches one.
use omnia_backends.Base.{◌≡◌, refl, ap, ◌∙◌, List, [], ◌∷◌, ◌++◌, map, arith, if◌then◌else◌}
use omnia_backends.Base.Order.{bytes_ord}
use omnia_backends.Git.Pins.{
  Text, Setting, is_repo_scope, is_repo, is_host, is_driver, is_helper, is_transport_override,
  repo_set, host_value, host_values, credential_keys_loop, repo_credential_keys, host_pins,
  driver_pins, helper_pins, build, forced, host_pinned_keys,
}

-- The same settings, with `f` over every value that the repository set.
pub revalue : (Text → Text) → Setting → Setting
revalue f s = record s { value = if is_repo_scope s.scope then f s.value else s.value }

module _ (f : Text → Text) where
  repo_set-revalue :
      (ss : List Setting) (key : Text) → repo_set (map (revalue f) ss) key ≡ repo_set ss key
  unfolding repo_set revalue is_repo
  repo_set-revalue [] key = refl
  repo_set-revalue (s ∷ ss) key = ground (arith, repo_set-revalue ss key)

  host_value-revalue :
      (ss : List Setting) (key : Text) → host_value (map (revalue f) ss) key ≡ host_value ss key
  unfolding host_value revalue is_host
  host_value-revalue [] key = refl
  host_value-revalue (s ∷ ss) key = ground (arith, host_value-revalue ss key)

  host_values-revalue :
      (ss : List Setting) (key : Text) → host_values (map (revalue f) ss) key ≡ host_values ss key
  unfolding host_values revalue is_host
  host_values-revalue [] key = refl
  host_values-revalue (s ∷ ss) key = ground (arith, host_values-revalue ss key)

  host_pins-revalue :
      (ss : List Setting) (keys : List (Text × Text))
      → host_pins (map (revalue f) ss) keys ≡ host_pins ss keys
  unfolding host_pins
  host_pins-revalue ss [] = refl
  host_pins-revalue ss ((key, pin) ∷ keys) =
      ground (arith, repo_set-revalue ss key, host_value-revalue ss key, host_pins-revalue ss keys)

  driver_pins-revalue : (ss : List Setting) → driver_pins (map (revalue f) ss) ≡ driver_pins ss
  unfolding driver_pins is_repo is_driver revalue
  driver_pins-revalue [] = refl
  driver_pins-revalue (s ∷ ss) = ground (arith, driver_pins-revalue ss)

  credential_keys-revalue :
      (ss : List Setting) (keys : List Text)
      → credential_keys_loop keys (map (revalue f) ss) ≡ credential_keys_loop keys ss
  unfolding credential_keys_loop revalue is_repo is_helper
  credential_keys-revalue [] keys = refl
  credential_keys-revalue (s ∷ ss) keys = credential_keys-revalue ss _

  helper_pins-revalue :
      (ss : List Setting) (keys : List Text)
      → helper_pins (map (revalue f) ss) keys ≡ helper_pins ss keys
  unfolding helper_pins
  helper_pins-revalue ss [] = refl
  helper_pins-revalue ss (key ∷ keys) =
      rw (host_values-revalue ss key, helper_pins-revalue ss keys) refl

  blocked-revalue :
      (ss : List Setting)
      → (build (map (revalue f) ss)).blocked_transport_key ≡ (build ss).blocked_transport_key
  unfolding build is_repo is_transport_override revalue
  blocked-revalue [] = refl
  blocked-revalue (s ∷ ss) = ground (arith, blocked-revalue ss)

  -- No value that the repository set reaches an override, nor the choice of one: whatever the values,
  -- the overrides and the transport key that is refused are the same.
  pub build-revalue : (ss : List Setting) → build (map (revalue f) ss) ≡ build ss
  unfolding build repo_credential_keys
  build-revalue ss = λ i. record {
    pins =
        forced
        ++ host_pins-revalue ss host_pinned_keys i
        ++ driver_pins-revalue ss i
        ++ (helper_pins-revalue ss (repo_credential_keys (map (revalue f) ss))
              ∙ ap (helper_pins ss) (credential_keys-revalue ss []))
            i;
    blocked_transport_key = blocked-revalue ss i;
  }
