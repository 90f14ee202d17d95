-- ===== src/Git/Glob/Tests.antt =====
-- Runs of the matcher.
use omnia_backends.Base.{true, false, ◌≡◌, refl, [], ◌∷◌, ◌↔◌, ◌⊎◌}
use omnia_backends.Base.Text.{codes}
use omnia_backends.Git.Glob.{
  Bytes, byte, star, all, tokens, glob, matches, contains_slash, strip_slash, file_name,
}
use omnia_backends.Git.Glob.Reference.{Matches, raw}
use omnia_backends.Git.Glob.Bound.{glob-Matches}
use omnia_backends.Git.Glob.Paths.{LastComponent, matches-Matches}

last_component : matches (codes "*.lock") (codes "a/b/Cargo.lock") ≡ true
unfolding matches glob contains_slash strip_slash file_name
last_component = refl

across_components : matches (codes "/docs/**/x?.md") (codes "docs/a/b/x1.md") ≡ true
unfolding matches glob contains_slash strip_slash file_name
across_components = refl

star_stops_at_slash : matches (codes "docs/*.md") (codes "docs/a/b.md") ≡ false
unfolding matches glob contains_slash strip_slash file_name
star_stops_at_slash = refl

wildcards_fold : tokens (codes "**/***a*") ≡ all ∷ byte b'a' ∷ star ∷ []
unfolding tokens
wildcards_fold = refl

glob-Matches_example :
    (glob (codes "a*c") (codes "abc") ≡ true) ↔ Matches (raw (codes "a*c")) (codes "abc")
glob-Matches_example = glob-Matches (codes "a*c") (codes "abc")

matches-Matches_example :
    ((contains_slash (codes "*.lock") ≡ true)
      × ((matches (codes "*.lock") (codes "a/b.lock") ≡ true)
          ↔ Matches (raw (strip_slash (codes "*.lock"))) (codes "a/b.lock")))
    ⊎ ((contains_slash (codes "*.lock") ≡ false)
        × ((name : Bytes) × LastComponent (codes "a/b.lock") name
            × ((matches (codes "*.lock") (codes "a/b.lock") ≡ true)
                ↔ Matches (raw (codes "*.lock")) name)))
matches-Matches_example = matches-Matches (codes "*.lock") (codes "a/b.lock")
