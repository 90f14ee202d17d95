-- ===== src/GenAi/Truncate/Bounds.antt =====
-- What a truncated text keeps: a head and a tail of the text, whole characters each, within the cap.
use omnia_backends.Base.{
  inl, inr, Bool-cases, length-drop, length-take, take-drop, drop-drop, ℕ, zero, suc, ◌+◌, ◌-◌, ◌/◌,
  ◌≤◌, ◌<◌, ◌≡◌, refl, sym, ap, ◌∙◌, true, false, subst, [], ◌∷◌, ◌++◌, length, take, drop, arith,
  leb, if_lem,
}
use omnia_backends.GenAi.Truncate.{
  Text, continues, starts_char, is_char_boundary, floor_char_boundary, skip_to_char,
  ceil_char_boundary, omitted, truncate,
}

floor_lem :
    (i : ℕ) (text : Text)
    → (floor_char_boundary i text ≤ i) × (is_char_boundary (floor_char_boundary i text) text ≡ true)
unfolding floor_char_boundary is_char_boundary
floor_lem zero text = (omega arith, refl)
floor_lem (suc i) text =
    if_lem (λ n. (n ≤ suc i) × (is_char_boundary n text ≡ true)) (is_char_boundary (suc i) text)
      (suc i) (floor_char_boundary i text) (λ b. (omega arith, b))
      (λ b. (omega (arith, (floor_lem i text).0), (floor_lem i text).1))

-- No boundary lies between the floor and the index.
floor_most :
    (i : ℕ) (text : Text) (j : ℕ)
    → floor_char_boundary i text < j
    → j ≤ i
    → is_char_boundary j text ≡ false
unfolding floor_char_boundary
floor_most zero text j lo hi = absurd (omega arith)
floor_most (suc i) text j lo hi = elim (Bool-cases (is_char_boundary (suc i) text)) [
  | inl b ↦ absurd (ground (arith, b))
  | inr b ↦ elim (Bool-cases (leb j i)) [
    | inl lower ↦ floor_most i text j (ground (arith, b)) (ground arith)
    | inr top ↦ subst (λ k. is_char_boundary k text ≡ false) (ground arith) b
  ]
]

skip_most : (text : Text) (k : ℕ) → k < skip_to_char text → starts_char (drop k text) ≡ false
unfolding skip_to_char starts_char
skip_most [] k h = absurd (omega arith)
skip_most (b ∷ text) zero h = ground arith
skip_most (b ∷ text) (suc k) h = skip_most text k (ground arith)

skip_lem :
    (text : Text)
    → (skip_to_char text ≤ length text) × (starts_char (drop (skip_to_char text) text) ≡ true)
unfolding skip_to_char starts_char
skip_lem [] = (omega arith, refl)
skip_lem (b ∷ text) = elim (Bool-cases (continues b)) [
  | inl more ↦ rw more (omega (arith, (skip_lem text).0), (skip_lem text).1)
  | inr done ↦ rw done (omega arith, rw done refl)
]

ceil_lem :
    (i : ℕ) (text : Text)
    → 0 < i
    → i ≤ length text
    → (i ≤ ceil_char_boundary i text)
      × (ceil_char_boundary i text ≤ length text)
      × (starts_char (drop (ceil_char_boundary i text) text) ≡ true)
unfolding ceil_char_boundary
ceil_lem zero text h g = absurd (omega arith)
ceil_lem (suc i) text h g =
    let (most, starts) = skip_lem (drop (suc i) text) in
    (
      omega arith,
      omega (arith, most, length-drop (suc i) text),
      ap starts_char (
            sym (
              drop-drop (suc i) (skip_to_char (drop (suc i) text)) (ceil_char_boundary (suc i) text)
                text refl))
          ∙ starts,
    )

ceil_most :
    (i : ℕ) (text : Text) (j : ℕ)
    → i ≤ j
    → j < ceil_char_boundary i text
    → is_char_boundary j text ≡ false
unfolding ceil_char_boundary is_char_boundary
ceil_most zero text j lo hi = absurd (omega arith)
ceil_most (suc i) text zero lo hi = absurd (omega arith)
ceil_most (suc i) text (suc j) lo hi =
    ap starts_char (sym (drop-drop (suc i) (j - i) (suc j) text (omega arith)))
    ∙ skip_most (drop (suc i) text) (j - i) (omega arith)

-- The text in three parts, the middle of which is left out.
pub record Cut (text result : Text) (cap : ℕ) : Type 0 where
  pub head : Text
  pub middle : Text
  pub tail : Text
  pub parts : head ++ (middle ++ tail) ≡ text
  pub shown : result ≡ head ++ (omitted (length middle) ++ tail)
  pub within : length head + length tail ≤ cap
  pub whole_head : is_char_boundary (length head) text ≡ true
  pub whole_tail : starts_char tail ≡ true
  -- a longer head would be cut within a character or be over half the cap
  pub longest_head : (i : ℕ) → length head < i → i ≤ cap / 2 → is_char_boundary i text ≡ false
  -- and a longer tail within a character or be over what the head leaves
  pub longest_tail :
      (i : ℕ)
      → length text - (cap - length head) ≤ i
      → i + length tail < length text
      → is_char_boundary i text ≡ false

-- The cut at a place before, and at a place behind.
cut_lem :
    (text : Text) (cap from to : ℕ)
    → from ≤ to
    → to ≤ length text
    → from + (length text - to) ≤ cap
    → is_char_boundary from text ≡ true
    → starts_char (drop to text) ≡ true
    → ((i : ℕ) → from < i → i ≤ cap / 2 → is_char_boundary i text ≡ false)
    → ((i : ℕ) → length text - (cap - from) ≤ i → i < to → is_char_boundary i text ≡ false)
    → Cut text (take from text ++ (omitted (to - from) ++ drop to text)) cap
cut_lem text cap from to ordered inside small starts ends no_head no_tail =
    let middle = take (to - from) (drop from text) in
    let rest = drop-drop from (to - from) to text (omega arith) in
    let size = length-take from text (omega arith) in
    record {
      head = take from text;
      middle = middle;
      tail = drop to text;
      parts =
          ap (λ ys. take from text ++ (middle ++ ys)) (sym rest)
          ∙ (ap (λ ys. take from text ++ ys) (take-drop (to - from) (drop from text))
              ∙ take-drop from text);
      shown =
          ap (λ n. take from text ++ (omitted n ++ drop to text))
            (sym (length-take (to - from) (drop from text) (omega (arith, length-drop from text))));
      within = omega (arith, size, length-drop to text);
      whole_head = ap (λ n. is_char_boundary n text) size ∙ starts;
      whole_tail = ends;
      longest_head = λ i lo hi. no_head i (omega (arith, size)) hi;
      longest_tail =
          λ i lo hi. no_tail i (omega (arith, size)) (omega (arith, length-drop to text));
    }

-- Of a text longer than the cap a head and a tail stay, no more than the cap together, with the count of
-- the bytes between them, and both cuts fall between characters. The head is the longest such of at most
-- half the cap, and the tail the longest such that the rest of the cap holds.
pub truncate-Cut : (text : Text) (cap : ℕ) → cap < length text → Cut text (truncate text cap) cap
unfolding truncate
truncate-Cut text cap long =
    if_lem (λ r. Cut text r cap) (leb (length text) cap) text _ (λ short. absurd (ground arith))
      (λ over.
        let (low, starts) = floor_lem (cap / 2) text in
        let head = floor_char_boundary (cap / 2) text in
        let (high, most, ends) =
          ceil_lem (length text - (cap - head)) text (omega arith) (omega arith) in
        cut_lem text cap head _ (omega arith) most (omega arith) starts ends
          (floor_most (cap / 2) text) (ceil_most (length text - (cap - head)) text))
