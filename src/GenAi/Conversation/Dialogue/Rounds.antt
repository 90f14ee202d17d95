-- ===== src/GenAi/Conversation/Dialogue/Rounds.antt =====
-- One round keeps the dialogue proper.
use omnia_backends.Base.{
  ℕ, zero, suc, ◌≡◌, refl, sym, subst, Bool, true, false, Option, none, some, List, [], ◌∷◌, inl,
  inr, ltb, if_lem, arith,
}
use omnia_backends.Base.Results.{Result, ok, err}
use omnia_backends.Base.Machine.{Post, resume-Post, pure, raise}
use omnia_backends.GenAi.Chat.{
  Text, ToolCall, ChatRequest, ChatOptions, ChatResponse, CallError, transport, refused, elapsed,
  Halt, host_failed, overdue, ToolOutcome, asked,
}
use omnia_backends.GenAi.Conversation.{
  Setup, State, Error, M, transport_retry_waits, append_message, closing, round_options, is_cut,
  ask, run_tool, refused_in_closing, refused_when_cut, or_zero, provider_failed,
}
use omnia_backends.GenAi.Conversation.Round.{
  retry, respond, open_calls, refuse_each, refuse, exec_chat, failed, told, run_each, tool_round,
  dispatch, reply_content, take_reply, attempt, next_reply,
}
use omnia_backends.GenAi.Conversation.Dialogue.{
  Awaits, opened, responded, Settled, Among, Licensed, Proper,
}

-- The state's chat waits for the responses to `calls`, behind a proper log.
abbrev pub Waits : Setup → List ToolCall → State → Type 0
Waits c calls s = Awaits s.chat.messages calls × Proper c s.log

abbrev pub Ends : Setup → Error → State → Type 0
Ends c e s = Proper c s.log

refuse_each_lem :
    (c : Setup) (refusal : Text) (calls : List ToolCall) (s : State)
    → Waits c calls s
    → Post (λ _. Waits c []) (Ends c) (refuse_each refusal calls s)
unfolding refuse_each respond append_message
refuse_each_lem c refusal [] s w = w
refuse_each_lem c refusal (call ∷ calls) s (p, l) =
    refuse_each_lem c refusal calls _ (responded p refusal, l)

-- The result of a call changes no chat and no log.
told_lem :
    (c : Setup) (call : ToolCall) (outcome : Result ToolOutcome Halt) (s : State)
    → Post
        (λ _ t. (t.chat ≡ s.chat) × (t.log ≡ s.log))
        (λ _ t. t.log ≡ s.log)
        (told c call outcome s)
unfolding told failed
told_lem c call (err host_failed) s = refl
told_lem c call (err overdue) s = refl
told_lem c call (ok (ok output)) s = (refl, refl)
told_lem c call (ok (err reason)) s = ground arith

run_each_lem :
    (c : Setup) (calls : List ToolCall) (s : State)
    → Waits c calls s
    → ((call : ToolCall) → Among call calls → Licensed c s.log call)
    → Post (λ _. Waits c []) (Ends c) (run_each c calls s)
unfolding run_each run_tool Proper Licensed respond append_message
run_each_lem c [] s w licensed = w
run_each_lem c (call ∷ calls) s (p, l) licensed =
    let t : State = (run_tool c call s).1 in
    let outcome = c.world.host_call s.log call in
    resume-Post (λ _ u. (u.chat ≡ t.chat) × (u.log ≡ t.log)) (λ _ u. u.log ≡ t.log) (Ends c)
      (λ _. Waits c []) (told c call outcome t) _ (told_lem c call outcome t)
      (λ e u same. subst (λ log. Proper c log) (sym same) (licensed call (inl refl), l))
      (λ result u (same, logged).
        run_each_lem c calls _
          (
            responded (subst (λ chat. Awaits chat.messages (call ∷ calls)) (sym same) p) result,
            subst (λ log. Proper c log) (sym logged) (licensed call (inl refl), l),
          )
          (λ other among.
            subst (λ log. Licensed c log other) (sym logged) (licensed other (inr among))))

dispatch_lem :
    (c : Setup) (due cut : Bool) (calls : List ToolCall) (s : State)
    → Waits c [] s
    → (due ≡ false → cut ≡ false → (call : ToolCall) → Among call calls → Licensed c s.log call)
    → Post (λ _. Waits c []) (Ends c) (dispatch c due cut calls s)
unfolding dispatch refuse tool_round open_calls append_message
dispatch_lem c true cut calls s (p, l) h =
    refuse_each_lem c refused_in_closing calls _ (opened p calls, l)
dispatch_lem c false true calls s (p, l) h =
    refuse_each_lem c (refused_when_cut (or_zero c.options.max_tokens)) calls _ (opened p calls, l)
dispatch_lem c false false calls s (p, l) h =
    run_each_lem c calls _ (opened p calls, l) (h refl refl)

-- A reply came to the request that the log has last.
abbrev Replied : Setup → ChatOptions → State → ChatResponse → State → Type 0
Replied c options s response t =
    Waits c [] t
    × ((call : ToolCall)
        → closing c s ≡ false
        → options ≡ c.options
        → is_cut c response ≡ false
        → Among call response.calls
        → Licensed c t.log call)

retry_lem :
    (c : Setup) (options : ChatOptions) (chat : ChatRequest)
    (outcome : Result ChatResponse CallError) (again : M ChatResponse) (s t : State)
    → Waits c [] s
    → Settled chat
    → t ≡ record s { log = asked s.round s.nudged chat options outcome ∷ s.log }
    → (Waits c [] t → Post (Replied c options s) (Ends c) (again t))
    → Post (Replied c options s) (Ends c) (retry outcome again t)
unfolding retry Proper Licensed closing
retry_lem c options chat (ok response) again s t (p, l) q e g =
    rw e (
      (p, (q, l)),
      λ call ongoing same whole among. (ground arith, ground arith, same, whole, among),
    )
retry_lem c options chat (err transport) again s t (p, l) q e g = g (rw e (p, (q, l)))
retry_lem c options chat (err refused) again s t (p, l) q e g = rw e (q, l)
retry_lem c options chat (err elapsed) again s t (p, l) q e g = rw e (q, l)

exec_chat_lem :
    (c : Setup) (waits : List ℕ) (chat : ChatRequest) (options : ChatOptions) (s : State)
    → Waits c [] s
    → Settled chat
    → Post (Replied c options s) (Ends c) (exec_chat c waits chat options s)
unfolding exec_chat ask closing
exec_chat_lem c [] chat options s w q =
    retry_lem c options chat _ (raise provider_failed) s _ w q refl (λ (p, l). l)
exec_chat_lem c (wait ∷ waits) chat options s w q =
    retry_lem c options chat _ (exec_chat c waits chat options) s _ w q refl
      (λ w'. exec_chat_lem c waits chat options _ w' q)

abbrev Continues : Setup → M (Option Text) → Type 0
Continues c again = (s : State) → Waits c [] s → Post (λ _. Waits c []) (Ends c) (again s)

take_reply_lem :
    (c : Setup) (again : M (Option Text)) (due cut : Bool) (text : Option Text)
    (calls : List ToolCall) (s : State)
    → Continues c again
    → Waits c [] s
    → (due ≡ false → cut ≡ false → (call : ToolCall) → Among call calls → Licensed c s.log call)
    → Post (λ _. Waits c []) (Ends c) (take_reply c again due cut text calls s)
unfolding take_reply reply_content
take_reply_lem c again due cut none [] s g (p, l) h = l
take_reply_lem c again due cut (some text) [] s g w h = w
take_reply_lem c again due cut text (call ∷ calls) s g w h =
    resume-Post (λ _. Waits c []) (Ends c) (Ends c) (λ _. Waits c [])
      (dispatch c due cut (call ∷ calls) s) (λ _. again)
      (dispatch_lem c due cut (call ∷ calls) s w h) (λ e t l. l) (λ _. g)

round_options-open : (c : Setup) (s : State) → closing c s ≡ false → round_options c s ≡ c.options
unfolding round_options closing
round_options-open c s h = ground arith

attempt_lem :
    (c : Setup) (again : M (Option Text)) → Continues c again → Continues c (attempt c again)
unfolding attempt
attempt_lem c again g s w =
    let t : State = record s { round = suc s.round } in
    resume-Post (Replied c (round_options c t) t) (Ends c) (Ends c) (λ _. Waits c [])
      (exec_chat c transport_retry_waits s.chat (round_options c t) t) _
      (exec_chat_lem c transport_retry_waits s.chat (round_options c t) t w w.0) (λ e u l. l)
      (λ response u (waits, licensed).
        take_reply_lem c again (closing c t) (is_cut c response) response.first_text response.calls
          u g waits
          (λ ongoing whole call among.
            licensed call ongoing (round_options-open c t ongoing) whole among))

pub next_reply_lem : (c : Setup) (fuel : ℕ) → Continues c (next_reply c fuel)
unfolding next_reply
next_reply_lem c zero s (p, l) = l
next_reply_lem c (suc fuel) s w =
    if_lem {A = M (Option Text)} (λ m. Post (λ _. Waits c []) (Ends c) (m s))
      (ltb s.round c.budgets.max_rounds) (attempt c (next_reply c fuel)) (pure none)
      (λ more. attempt_lem c (next_reply c fuel) (next_reply_lem c fuel) s w) (λ done. w)
