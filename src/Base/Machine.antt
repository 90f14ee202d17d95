-- ===== src/Base/Machine.antt =====
-- Stateful code that may fail: a function of the state to a result and the next state, its `do` blocks,
-- and what holds of both after a run.
use omnia_backends.Base.Results.{Result, ok, err}

abbrev pub Machine : Type 0 → Type 0 → Type 0 → Type 0
Machine S E A = S → Result A E × S

-- `?`, then the rest on the state behind it.
abbrev pub resume : {S E A B : Type 0} → (A → Machine S E B) → Result A E × S → Result B E × S
resume f (ok a, s) = f a s
resume f (err e, s) = (err e, s)

infixl 5 ◌>>=◌ ◌>>◌
abbrev pub ◌>>=◌ : {S E A B : Type 0} → Machine S E A → (A → Machine S E B) → Machine S E B
◌>>=◌ m f s = resume f (m s)

abbrev pub ◌>>◌ : {S E B : Type 0} → Machine S E (Unit {0}) → Machine S E B → Machine S E B
◌>>◌ m k s = resume (λ _. k) (m s)

abbrev pub pure : {S E A : Type 0} → A → Machine S E A
pure a s = (ok a, s)

abbrev pub raise : {S E A : Type 0} → E → Machine S E A
raise e s = (err e, s)

abbrev pub observe : {S E A : Type 0} → (S → A) → Machine S E A
observe f s = (ok (f s), s)

abbrev pub modify : {S E : Type 0} → (S → S) → Machine S E (Unit {0})
modify f s = (ok tt, f s)

-- `Q` of a value and the state it left, or `R` of an error and that state.
abbrev pub Post : {S E A : Type 0} → (A → S → Type 0) → (E → S → Type 0) → Result A E × S → Type 0
Post Q R (ok a, s) = Q a s
Post Q R (err e, s) = R e s

pub resume-Post :
    {S E A B : Type 0} (Q : A → S → Type 0) (R R' : E → S → Type 0) (T : B → S → Type 0)
    (r : Result A E × S) (f : A → Machine S E B)
    → Post Q R r
    → ((e : E) (s : S) → R e s → R' e s)
    → ((a : A) (s : S) → Q a s → Post T R' (f a s))
    → Post T R' (resume f r)
resume-Post Q R R' T (ok a, s) f h g k = k a s h
resume-Post Q R R' T (err e, s) f h g k = g e s h

pub Post-map :
    {S E A : Type 0} (Q Q' : A → S → Type 0) (R R' : E → S → Type 0) (r : Result A E × S)
    → ((a : A) (s : S) → Q a s → Q' a s)
    → ((e : E) (s : S) → R e s → R' e s)
    → Post Q R r
    → Post Q' R' r
Post-map Q Q' R R' (ok a, s) f g h = f a s h
Post-map Q Q' R R' (err e, s) f g h = g e s h
