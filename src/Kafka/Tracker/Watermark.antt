-- ===== src/Kafka/Tracker/Watermark.antt =====
-- The delivery watermark: `delivered` with the set of reports that came early is the set of all
-- sends reported so far, and `delivered` is the least send not yet reported.
use omnia_backends.Base.{
  ℕ, zero, suc, ◌+◌, ◌≤◌, ◌<◌, ◌≡◌, refl, Bool, true, false, ◌||◌, none, [], ◌∷◌, All, arith, ltb,
  ◌==◌, length, Option-cases, inl, inr,
}
use omnia_backends.Base.Map.{Map, get, remove, contains_key, get-insert, get-remove}
use omnia_backends.Base.Ascending.{Above, Ascending, remove-Ascending, length-remove-lt, get-Above}
use omnia_backends.Base.Order.{nat_ord}
use omnia_backends.Kafka.Tracker.{Tracker, advance_loop, advance, resolve_all, note_delivered}

abbrev pub Waiting : Type 0
Waiting = Map ℕ (Unit {0})

-- The send is below the watermark, or its report came early.
abbrev pub reported_in : ℕ → Waiting → ℕ → Bool
reported_in delivered waiting id = ltb id delivered || contains_key id waiting

abbrev pub reported : Tracker → ℕ → Bool
reported t id = reported_in t.delivered t.out_of_order id

-- Every early report is at or above `k`.
abbrev pub From : ℕ → Waiting → Type 0
From k m = All (λ e. k ≤ e.0) m

pub remove-Above_self : (k : ℕ) (m : Waiting) → From k m → Above k (remove k m)
unfolding remove
remove-Above_self k [] h = tt
remove-Above_self k ((j, v) ∷ m) h = ground (arith, remove-Above_self k m h.1)

pub Above-of_absent : (k : ℕ) (m : Waiting) → From k m → get k m ≡ none → Above k m
unfolding get
Above-of_absent k [] h e = tt
Above-of_absent k ((j, v) ∷ m) h e = ground (arith, Above-of_absent k m h.1)

pub From-of_Above : (k : ℕ) (m : Waiting) → Above k m → From (k + 1) m
From-of_Above k [] h = tt
From-of_Above k ((j, v) ∷ m) h = (omega arith, From-of_Above k m h.1)

pub record Advanced (d : ℕ) (m : Waiting) (r : ℕ × Waiting) : Type 0 where
  pub grows : d ≤ r.0
  pub above : Above r.0 r.1
  pub ascending : Ascending r.1
  pub same_reports : (id : ℕ) → reported_in r.0 r.1 id ≡ reported_in d m id

-- With fuel for every early report the loop ends by its test: no report waits at the new watermark.
pub advance_loop-Advanced :
    (fuel d : ℕ) (m : Waiting)
    → length m ≤ fuel
    → From d m
    → Ascending m
    → Advanced d m (advance_loop fuel d m)
unfolding advance_loop
advance_loop-Advanced zero d [] h f a = record {
  grows = omega arith;
  above = tt;
  ascending = tt;
  same_reports = λ id. refl;
}
advance_loop-Advanced zero d (e ∷ m) h f a = absurd (omega arith)
advance_loop-Advanced (suc fuel) d m h f a = elim (Option-cases (get d m)) [
  | inl e ↦ rw e (record {
    grows = omega arith;
    above = Above-of_absent d m f e;
    ascending = a;
    same_reports = λ id. refl;
  })
  | inr (v, e) ↦ rw e (
      let ih =
        advance_loop-Advanced fuel (d + 1) (remove d m) (omega (arith, length-remove-lt d v m e))
          (From-of_Above d (remove d m) (remove-Above_self d m f)) (remove-Ascending d m a) in
      record {
        grows = omega (arith, ih.grows);
        above = ih.above;
        ascending = ih.ascending;
        same_reports = λ id. ground (arith, ih.same_reports id, get-remove id d m, e);
      })
]

-- `resolve_all` does not touch the watermark.
pub resolve_all_watermark :
    (t : Tracker)
    → ((resolve_all t).1.delivered ≡ t.delivered)
      × ((resolve_all t).1.out_of_order ≡ t.out_of_order)
      × ((resolve_all t).1.tickets ≡ t.tickets)
unfolding resolve_all
resolve_all_watermark t = (refl, refl, refl)

pub advance-Advanced :
    (t : Tracker)
    → Above t.delivered t.out_of_order
    → Ascending t.out_of_order
    → Advanced (t.delivered + 1) t.out_of_order ((advance t).delivered, (advance t).out_of_order)
unfolding advance
advance-Advanced t h a =
    advance_loop-Advanced (length t.out_of_order) (t.delivered + 1) t.out_of_order (omega arith)
      (From-of_Above t.delivered t.out_of_order h) a

-- A report adds its own number to the set of reported sends, and no other, in whatever order reports
-- come.
pub reported-note_delivered :
    (t : Tracker) (id j : ℕ)
    → Above t.delivered t.out_of_order
    → Ascending t.out_of_order
    → reported (note_delivered t id).1 j ≡ (j == id || reported t j)
unfolding note_delivered
reported-note_delivered t id j h a = ground (
  arith,
  (advance-Advanced t h a).same_reports j,
  resolve_all_watermark (advance t),
  get-insert j id tt t.out_of_order,
)

-- The watermark is the least send not reported.
pub watermark_least :
    (t : Tracker)
    → Above t.delivered t.out_of_order
    → (reported t t.delivered ≡ false) × ((id : ℕ) → id < t.delivered → reported t id ≡ true)
watermark_least t h =
    (ground (arith, get-Above t.delivered t.out_of_order h), λ id lt. ground arith)

-- No report moves the watermark back.
pub delivered-note_delivered :
    (t : Tracker) (id : ℕ)
    → Above t.delivered t.out_of_order
    → Ascending t.out_of_order
    → t.delivered ≤ (note_delivered t id).1.delivered
unfolding note_delivered
delivered-note_delivered t id h a =
    ground (arith, (advance-Advanced t h a).grows, resolve_all_watermark (advance t))
