-- ===== src/Git/Pins/Tests.antt =====
-- Runs of the overrides, and the theorems at them.
use omnia_backends.Base.{◌≡◌, refl, List, [], ◌∷◌, ◌++◌, map}
use omnia_backends.Base.Order.{bytes_ord, lex}
use omnia_backends.Base.Text.{codes}
use omnia_backends.Git.Pins.{Text, Setting, host, repo, build, forced}
use omnia_backends.Git.Pins.Values.{revalue, build-revalue}

abbrev helper : Setting
helper = record { scope = repo; key = codes "credential.helper"; value = codes "!sh" }

abbrev settings : List Setting
settings =
    record { scope = host; key = codes "credential.helper"; value = codes "store" }
    ∷ record { scope = repo; key = codes "core.sshcommand"; value = codes "evil" }
    ∷ helper
    ∷ []

pins_of :
    (build settings).pins
    ≡ forced
      ++ codes "core.sshCommand="
        ∷ codes "credential.helper="
        ∷ codes "credential.helper=store"
        ∷ []
unfolding build lex
pins_of = refl

abbrev blank : Text → Text
blank _ = []

build-revalue_example : build (map (revalue blank) settings) ≡ build settings
build-revalue_example = build-revalue blank settings
