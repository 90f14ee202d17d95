-- ===== src/GenAi/Conversation/Budget/Rounds.antt =====
-- The budgets of whole runs: the rounds bound the requests, and the candidates the checks.
use omnia_backends.Base.{
  ℕ, zero, suc, ◌+◌, ◌*◌, ◌≤◌, ◌<◌, ◌≡◌, refl, ◌∙◌, Bool, false, Option, none, some, List, [], ◌∷◌,
  arith, ltb, ltb→lt, if_lem,
}
use omnia_backends.Base.Machine.{Post, resume-Post, Post-map, pure}
use omnia_backends.GenAi.Chat.{Text, ToolCall}
use omnia_backends.GenAi.Conversation.{
  Setup, State, Error, M, transport_retry_waits, closing, round_options, is_cut,
}
use omnia_backends.GenAi.Conversation.Round.{
  exec_chat, dispatch, reply_content, take_reply, attempt, next_reply,
}
use omnia_backends.GenAi.Conversation.Budget.{
  asks, checks, is_stuck, Spends, Fails, exec_chat-Costs, dispatch-Costs,
}

-- A reply that came took a round.
abbrev pub some_reply : Option Text → ℕ
some_reply none = 0
some_reply (some text) = 1

-- Over rounds up to the budget of `max`: four requests each, and no candidate checked.
abbrev pub Within : ℕ → ℕ → State → State → Type 0
Within max n s s' =
    (s.round + n ≤ s'.round)
    × (s'.round ≤ max)
    × (s'.candidates ≡ s.candidates)
    × (checks s'.log ≡ checks s.log)
    × (asks s'.log + 4 * s.round ≤ asks s.log + 4 * s'.round)

abbrev pub Lost : ℕ → State → Error → State → Type 0
Lost max s e s' = Within max 0 s s' × (is_stuck e ≡ false)

abbrev pub Got : ℕ → State → Option Text → State → Type 0
Got max s r s' = Within max (some_reply r) s s'

-- A round behind which `s` is `t`, and then more.
abbrev Begun : ℕ → State → State → Type 0
Begun max s t =
    (t.round ≡ suc s.round)
    × (t.round ≤ max)
    × (t.candidates ≡ s.candidates)
    × (checks t.log ≡ checks s.log)
    × (asks t.log ≤ asks s.log + 4)

behind : (max n : ℕ) (s t u : State) → Begun max s t → Within max n t u → Within max n s u
behind max n s t u (a, b, c, d, e) (f, g, h, i, j) = (omega arith, g, h ∙ c, i ∙ d, omega arith)

reply_content_lem :
    (c : Setup) (max : ℕ) (text : Option Text) (s t : State)
    → Begun max s t
    → Post (Got max s) (Lost max s) (reply_content c text t)
unfolding reply_content is_stuck
reply_content_lem c max none s t (a, b, d, e, f) = ((omega arith, b, d, e, omega arith), refl)
reply_content_lem c max (some text) s t (a, b, d, e, f) = (omega arith, b, d, e, omega arith)

take_reply_lem :
    (c : Setup) (max : ℕ) (again : M (Option Text)) (due cut : Bool) (text : Option Text)
    (calls : List ToolCall) (s t : State)
    → ((u : State) → u.round ≡ suc s.round → Post (Got max u) (Lost max u) (again u))
    → Begun max s t
    → Post (Got max s) (Lost max s) (take_reply c again due cut text calls t)
unfolding take_reply
take_reply_lem c max again due cut text [] s t h b = reply_content_lem c max text s t b
take_reply_lem c max again due cut text (call ∷ calls) s t h (a, b, d, e, f) =
    resume-Post (λ _. Spends 0 t) (Fails 0 t) (Lost max s) (Got max s)
      (dispatch c due cut (call ∷ calls) t) (λ _. again) (dispatch-Costs c due cut (call ∷ calls) t)
      (λ o u ((p, q, r, v), w). ((omega arith, omega arith, q ∙ d, r ∙ e, omega arith), w))
      (λ _ u (p, q, r, v).
        Post-map (Got max u) (Got max s) (Lost max u) (Lost max s) (again u)
          (λ reply w g.
            behind max (some_reply reply) s u w (p ∙ a, omega arith, q ∙ d, r ∙ e, omega arith) g)
          (λ o w (g, i). (behind max 0 s u w (p ∙ a, omega arith, q ∙ d, r ∙ e, omega arith) g, i))
          (h u (p ∙ a)))

attempt_lem :
    (c : Setup) (again : M (Option Text)) (s : State)
    → s.round < c.budgets.max_rounds
    → ((u : State)
        → u.round ≡ suc s.round
        → Post (Got c.budgets.max_rounds u) (Lost c.budgets.max_rounds u) (again u))
    → Post (Got c.budgets.max_rounds s) (Lost c.budgets.max_rounds s) (attempt c again s)
unfolding attempt
attempt_lem c again s more h =
    let t : State = record s { round = suc s.round } in
    let options = round_options c t in
    resume-Post (λ _. Spends 4 t) (Fails 4 t) (Lost c.budgets.max_rounds s)
      (Got c.budgets.max_rounds s) (exec_chat c transport_retry_waits s.chat options t)
      (λ response.
        take_reply c again (closing c t) (is_cut c response) response.first_text response.calls)
      (exec_chat-Costs c transport_retry_waits s.chat options t)
      (λ o u ((p, q, r, v), w). ((omega arith, omega arith, q, r, omega arith), w))
      (λ response u (p, q, r, v).
        take_reply_lem c c.budgets.max_rounds again (closing c t) (is_cut c response)
          response.first_text response.calls s u h (p, omega arith, q, r, v))

pub next_reply_lem :
    (c : Setup) (fuel : ℕ) (s : State)
    → c.budgets.max_rounds < fuel + s.round
    → s.round ≤ c.budgets.max_rounds
    → Post (Got c.budgets.max_rounds s) (Lost c.budgets.max_rounds s) (next_reply c fuel s)
unfolding next_reply
next_reply_lem c zero s h g = absurd (omega arith)
next_reply_lem c (suc fuel) s h g =
    if_lem (λ m. Post (Got c.budgets.max_rounds s) (Lost c.budgets.max_rounds s) (m s))
      (ltb s.round c.budgets.max_rounds) (attempt c (next_reply c fuel)) (pure none)
      (λ more.
        attempt_lem c (next_reply c fuel) s (ltb→lt s.round c.budgets.max_rounds more) (λ u e.
          next_reply_lem c fuel u (omega arith)
            (omega (arith, ltb→lt s.round c.budgets.max_rounds more))))
      (λ done. (omega arith, g, refl, refl, omega arith))
