-- ===== src/Git/Refusal.antt =====
-- crates/git/src/vcs/refusal.rs: what a failed `git` said, read into a class.
mod Tests
use omnia_backends.Base.{ℕ, Bool, true, false, ◌||◌, ◌&&◌, List, [], ◌∷◌, any, ◌==◌, if◌then◌else◌}
use omnia_backends.Base.Text.{codes}

abbrev pub Text : Type 0
Text = List ℕ

pub data Class : Type 0 where
  not_a_repository exists not_found access diverged other : Class

abbrev pub not_a_repository_patterns : List Text
not_a_repository_patterns = codes "not a git repository" ∷ codes "must be run in a work tree" ∷ []

abbrev pub exists_patterns : List Text
exists_patterns = codes "already exists" ∷ []

abbrev pub diverged_patterns : List Text
diverged_patterns = codes "(non-fast-forward)" ∷ codes "(fetch first)" ∷ codes "(stale info)" ∷ []

abbrev pub not_found_patterns : List Text
not_found_patterns =
    codes "unknown revision"
    ∷ codes "not a valid object name"
    ∷ codes "invalid reference"
    ∷ codes "Needed a single revision"
    ∷ codes "bad revision"
    ∷ codes "does not appear to be a git repository"
    ∷ codes "couldn't find remote ref"
    ∷ codes "no such remote"
    ∷ codes "not something we can merge"
    ∷ codes "remote ref does not exist"
    ∷ codes "Remote branch"
    ∷ codes "does not match any"
    ∷ codes "not found"
    ∷ []

abbrev pub access_patterns : List Text
access_patterns =
    codes "Authentication failed"
    ∷ codes "Permission denied"
    ∷ codes "could not read Username"
    ∷ codes "terminal prompts disabled"
    ∷ codes "Could not resolve host"
    ∷ codes "Could not read from remote repository"
    ∷ codes "Connection refused"
    ∷ codes "Connection timed out"
    ∷ codes "Network is unreachable"
    ∷ codes "Host key verification failed"
    ∷ codes "unable to access"
    ∷ codes "The requested URL returned error: 403"
    ∷ []

unfoldable pub begins : Text → Text → Bool
begins [] text = true
begins (p ∷ pattern) [] = false
begins (p ∷ pattern) (c ∷ text) = c == p && begins pattern text

-- `str::contains`
unfoldable pub holds_text : Text → Text → Bool
holds_text pattern [] = begins pattern []
holds_text pattern (c ∷ text) = begins pattern (c ∷ text) || holds_text pattern text

unfoldable pub says : Text → List Text → Bool
says stderr patterns = any (λ p. holds_text p stderr) patterns

pub classify : Text → Class
classify stderr =
    if says stderr not_a_repository_patterns
    then not_a_repository
    else if says stderr exists_patterns
    then exists
    else if says stderr diverged_patterns
    then diverged
    else if says stderr not_found_patterns
    then not_found
    else if says stderr access_patterns
    then access
    else other
