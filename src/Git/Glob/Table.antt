-- ===== src/Git/Glob/Table.antt =====
-- The table decides the reference: each row says which cuts of the text the tokens so far reach.
use omnia_backends.Base.{
  ℕ, ◌≡◌, refl, sym, ap, ◌∙◌, Bool, true, false, ◌&&◌, ◌||◌, List, [], ◌∷◌, arith, ◌==◌, fun_ext,
}
use omnia_backends.Git.Glob.{
  Bytes, Token, byte, one, star, dirs, all, Row, row_one, row_run, row_dirs, next_row, rows,
  last_cell, falses, first_row,
}
use omnia_backends.Git.Glob.Reference.{
  take_one, take_run, take_dirs, after, reference, is_empty, slash_free, any_byte,
}

-- A cell for each cut of the text.
abbrev Fits : Bytes → Row → Type 0
Fits [] [] = ⊥
Fits [] (r ∷ []) = Unit
Fits [] (r ∷ s ∷ row) = ⊥
Fits (c ∷ text) [] = ⊥
Fits (c ∷ text) (r ∷ row) = Fits text row

no_fit : (text : Bytes) → Fits text [] → ⊥
no_fit [] f = f
no_fit (c ∷ text) f = f

-- Some cut that the row marks leaves a rest that satisfies `q`.
reaches : (Bytes → Bool) → Bytes → Row → Bool
reaches q text [] = false
reaches q [] (r ∷ row) = r && q []
reaches q (c ∷ text) (r ∷ row) = (r && q (c ∷ text)) || reaches q text row

-- The same, of the later cells.
reaches_later : (Bytes → Bool) → Bytes → Row → Bool
reaches_later q [] row = false
reaches_later q (c ∷ text) row = reaches q text row

reaches-row_one :
    (ok' : ℕ → Bool) (q : Bytes → Bool) (n : Bool) (text : Bytes) (row : Row)
    → Fits text row
    → reaches q text (n ∷ row_one ok' text row)
      ≡ ((n && q text) || reaches (take_one ok' q) text row)
unfolding reaches row_one take_one
reaches-row_one ok' q n [] (r ∷ []) f = ground arith
reaches-row_one ok' q n [] (r ∷ s ∷ row) f = absurd f
reaches-row_one ok' q n [] [] f = absurd f
reaches-row_one ok' q n (c ∷ text) [] f = absurd f
reaches-row_one ok' q n (c ∷ text) (r ∷ row) f =
    ground (arith, reaches-row_one ok' q (r && ok' c) text row f)

reaches-row_run :
    (ok' : ℕ → Bool) (q : Bytes → Bool) (n : Bool) (text : Bytes) (row : Row) (first : Bool)
    → Fits text (first ∷ row)
    → reaches q text (n ∷ row_run ok' n text row)
      ≡ ((n && take_run ok' q text) || reaches_later (take_run ok' q) text row)
unfolding reaches reaches_later row_run take_run
reaches-row_run ok' q n [] [] first f = ground arith
reaches-row_run ok' q n [] (s ∷ row) first f = absurd f
reaches-row_run ok' q n (c ∷ text) [] first f = absurd (no_fit text f)
reaches-row_run ok' q n (c ∷ text) (r ∷ row) first f =
    ground (arith, reaches-row_run ok' q (r || (n && ok' c)) text row r f)

reaches-row_dirs :
    (q : Bytes → Bool) (n open' : Bool) (text : Bytes) (row : Row) (first : Bool)
    → Fits text (first ∷ row)
    → reaches q text (n ∷ row_dirs open' text row)
      ≡ ((n && q text) || (open' && take_dirs q text) || reaches_later (after dirs q) text row)
unfolding reaches reaches_later row_dirs take_dirs after
reaches-row_dirs q n open' [] [] first f = ground arith
reaches-row_dirs q n open' [] (s ∷ row) first f = absurd f
reaches-row_dirs q n open' (c ∷ text) [] first f = absurd (no_fit text f)
reaches-row_dirs q n open' (c ∷ text) (r ∷ row) first f =
    ground (arith, reaches-row_dirs q (r || (open' && (c == b'/'))) (open' || r) text row r f)

reaches-head :
    (q : Bytes → Bool) (text : Bytes) (r : Bool) (row : Row)
    → reaches q text (r ∷ row) ≡ ((r && q text) || reaches_later q text row)
unfolding reaches reaches_later
reaches-head q [] r row = ground arith
reaches-head q (c ∷ text) r row = refl

-- One token's row reaches `q` where the row before it reached a cut from which the token leads on to `q`.
reaches-next_row :
    (t : Token) (q : Bytes → Bool) (text : Bytes) (row : Row)
    → Fits text row
    → reaches q text (next_row t text row) ≡ reaches (after t q) text row
unfolding next_row after
reaches-next_row t q text [] f = absurd (no_fit text f)
reaches-next_row (byte b) q text (r ∷ row) f =
    reaches-row_one (λ c. c == b) q false text (r ∷ row) f
reaches-next_row one q text (r ∷ row) f = reaches-row_one slash_free q false text (r ∷ row) f
reaches-next_row star q text (r ∷ row) f =
    reaches-row_run slash_free q r text row r f
    ∙ sym (reaches-head (take_run slash_free q) text r row)
reaches-next_row all q text (r ∷ row) f =
    reaches-row_run any_byte q r text row r f ∙ sym (reaches-head (take_run any_byte q) text r row)
reaches-next_row dirs q text (r ∷ row) f =
    ground (arith, reaches-row_dirs q r r text row r f, reaches-head (after dirs q) text r row)

row_one-Fits :
    (ok' : ℕ → Bool) (n : Bool) (text : Bytes) (row : Row)
    → Fits text row
    → Fits text (n ∷ row_one ok' text row)
unfolding row_one
row_one-Fits ok' n [] row f = tt
row_one-Fits ok' n (c ∷ text) [] f = absurd f
row_one-Fits ok' n (c ∷ text) (r ∷ row) f = row_one-Fits ok' (r && ok' c) text row f

row_run-Fits :
    (ok' : ℕ → Bool) (n m : Bool) (text : Bytes) (row : Row) (first : Bool)
    → Fits text (first ∷ row)
    → Fits text (m ∷ row_run ok' n text row)
unfolding row_run
row_run-Fits ok' n m [] row first f = tt
row_run-Fits ok' n m (c ∷ text) [] first f = absurd (no_fit text f)
row_run-Fits ok' n m (c ∷ text) (r ∷ row) first f =
    row_run-Fits ok' (r || (n && ok' c)) (r || (n && ok' c)) text row r f

row_dirs-Fits :
    (open' m : Bool) (text : Bytes) (row : Row) (first : Bool)
    → Fits text (first ∷ row)
    → Fits text (m ∷ row_dirs open' text row)
unfolding row_dirs
row_dirs-Fits open' m [] row first f = tt
row_dirs-Fits open' m (c ∷ text) [] first f = absurd (no_fit text f)
row_dirs-Fits open' m (c ∷ text) (r ∷ row) first f =
    row_dirs-Fits (open' || r) (r || (open' && (c == b'/'))) text row r f

next_row-Fits :
    (t : Token) (text : Bytes) (row : Row) → Fits text row → Fits text (next_row t text row)
unfolding next_row
next_row-Fits t text [] f = absurd (no_fit text f)
next_row-Fits (byte b) text (r ∷ row) f = row_one-Fits (λ c. c == b) false text (r ∷ row) f
next_row-Fits one text (r ∷ row) f = row_one-Fits slash_free false text (r ∷ row) f
next_row-Fits star text (r ∷ row) f = row_run-Fits slash_free r r text row r f
next_row-Fits all text (r ∷ row) f = row_run-Fits any_byte r r text row r f
next_row-Fits dirs text (r ∷ row) f = row_dirs-Fits r r text row r f

-- At the end of the tokens the last cell is the only one that counts.
reaches-last_cell :
    (text : Bytes) (row : Row) → Fits text row → reaches is_empty text row ≡ last_cell row
unfolding reaches is_empty last_cell
reaches-last_cell [] [] f = absurd f
reaches-last_cell [] (r ∷ []) f = ground arith
reaches-last_cell [] (r ∷ s ∷ row) f = absurd f
reaches-last_cell (c ∷ text) [] f = absurd f
reaches-last_cell (c ∷ text) (r ∷ []) f = absurd (no_fit text f)
reaches-last_cell (c ∷ text) (r ∷ s ∷ row) f = ground (arith, reaches-last_cell text (s ∷ row) f)

reference_nil : (w : Bytes) → reference [] w ≡ is_empty w
unfolding reference
reference_nil w = refl

reference_cons :
    (t : Token) (ts : List Token) (w : Bytes) → reference (t ∷ ts) w ≡ after t (reference ts) w
unfolding reference
reference_cons t ts w = refl

rows-reaches :
    (ts : List Token) (text : Bytes) (row : Row)
    → Fits text row
    → last_cell (rows ts text row) ≡ reaches (reference ts) text row
unfolding rows
rows-reaches [] text row f =
    sym (reaches-last_cell text row f)
    ∙ ap (λ q. reaches q text row) (fun_ext λ w. sym (reference_nil w))
rows-reaches (t ∷ ts) text row f =
    rows-reaches ts text (next_row t text row) (next_row-Fits t text row f)
    ∙ reaches-next_row t (reference ts) text row f
    ∙ ap (λ q. reaches q text row) (fun_ext λ w. sym (reference_cons t ts w))

falses-Fits : (n : Bool) (text : Bytes) → Fits text (n ∷ falses text)
falses-Fits n [] = tt
falses-Fits n (c ∷ text) = falses-Fits false text

reaches-falses :
    (q : Bytes → Bool) (n : Bool) (text : Bytes) → reaches q text (n ∷ falses text) ≡ (n && q text)
unfolding reaches
reaches-falses q n [] = refl
reaches-falses q n (c ∷ text) = ground (arith, reaches-falses q false text)

-- The table, started at the first cut, computes the reference match of the tokens.
pub rows-reference :
    (ts : List Token) (text : Bytes) → last_cell (rows ts text (first_row text)) ≡ reference ts text
unfolding first_row
rows-reference ts text =
    rows-reaches ts text (true ∷ falses text) (falses-Fits true text)
    ∙ reaches-falses (reference ts) true text
