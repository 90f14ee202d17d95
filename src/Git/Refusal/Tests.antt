-- ===== src/Git/Refusal/Tests.antt =====
-- Runs of the classification.
use omnia_backends.Base.{◌≡◌, refl}
use omnia_backends.Base.Text.{codes}
use omnia_backends.Git.Refusal.{classify, diverged, not_found, says, holds_text, begins}

unknown_remote : classify (codes "fatal: 'x' does not appear to be a git repository") ≡ not_found
unfolding classify says holds_text begins
unknown_remote = refl

-- A message on access behind a rejected push does not hide it.
rejected_push :
    classify (codes " ! [rejected] main (fetch first) error: Permission denied") ≡ diverged
unfolding classify says holds_text begins
rejected_push = refl
