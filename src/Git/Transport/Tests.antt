-- ===== src/Git/Transport/Tests.antt =====
-- Runs of the transport's arguments, and the theorem at one.
use omnia_backends.Base.{◌≡◌, refl, true, false, some, ◌∷◌, ◌++◌}
use omnia_backends.Base.Order.{bytes_ord, lex}
use omnia_backends.Base.Text.{codes}
use omnia_backends.Git.Transport.{
  is_local, is_local_path, scheme_of, begins_scheme, find_char, lower, shell_quote,
}
use omnia_backends.Git.Transport.Quoting.{first_word, plain, first_word-shell_quote}

file_url : is_local (codes "FILE:///srv/a") ≡ true
unfolding is_local is_local_path scheme_of begins_scheme find_char lower lex
file_url = refl

scp_like : is_local (codes "host:a/b") ≡ false
unfolding is_local is_local_path scheme_of begins_scheme find_char lower lex
scp_like = refl

path_with_colon : is_local (codes "./a:b") ≡ true
unfolding is_local is_local_path scheme_of begins_scheme find_char lower lex
path_with_colon = refl

first_word-shell_quote_example :
    first_word plain (shell_quote (codes "it's git") ++ b' ' ∷ codes "-c")
    ≡ some (codes "it's git", codes "-c")
first_word-shell_quote_example = first_word-shell_quote (codes "it's git") (codes "-c")
