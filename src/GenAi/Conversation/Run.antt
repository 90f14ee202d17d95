-- ===== src/GenAi/Conversation/Run.antt =====
-- The conversation: replies, nudges and the guest's checks, until an answer or the end of a budget.
use omnia_backends.Base.{
  ℕ, zero, suc, Bool, true, false, ◌||◌, not, Option, none, some, [], ◌++◌, leb, ◌==◌,
  if◌then◌else◌,
}
use omnia_backends.Base.Results.{Result, ok, err}
use omnia_backends.Base.Machine.{◌>>=◌, ◌>>◌, raise, observe, modify}
use omnia_backends.Base.Text.{codes, decimal}
use omnia_backends.GenAi.Chat.{
  Text, assistant, user, ChatRequest, Verdict, Format, plain, json, schema,
}
use omnia_backends.GenAi.Conversation.{
  Answer, Setup, State, Error, no_host, stuck, budget_exhausted, M, append_message, ill_formed,
  shape_faults, run_check,
}
use omnia_backends.GenAi.Conversation.Round.{next_reply}

unfoldable pub no_answer : ℕ → Text
no_answer rounds = codes "no answer after " ++ (decimal rounds ++ codes " model round-trips")

unfoldable pub wants_json : Format → Bool
wants_json plain = false
wants_json json = true
wants_json (schema s) = true

unfoldable pub exchange : Text → Text → State → ChatRequest
exchange candidate prompt s =
    append_message (user prompt) (append_message (assistant candidate) s.chat)

unfoldable pub nudge : Text → Text → M (Unit {0})
nudge candidate prompt =
    modify (λ s. record s { nudged = true; chat = exchange candidate prompt s })

unfoldable pub reject : Text → Text → M (Unit {0})
reject candidate correction =
    modify (λ s. record s { nudged = false; chat = exchange candidate correction s })

unfoldable pub finish : Text → M Answer
finish text s =
    (ok (record { answer_text = text; transcript = s.transcript }), record s { transcript = [] })

module _ (c : Setup) where
  unfoldable pub parsed_faults : Result Text Text → Option Text
  parsed_faults (err fault) = some (ill_formed fault)
  parsed_faults (ok value) = shape_faults c.validator value

  unfoldable pub off_shape : Text → Option Text
  off_shape candidate =
      if wants_json c.format then parsed_faults (c.world.from_str candidate) else none

  unfoldable pub spent : State → Bool
  spent s = leb c.budgets.max_candidates s.candidates || s.round == c.budgets.max_rounds

  unfoldable pub heed : M Answer → Text → Option Verdict → M Answer
  heed again candidate none = raise no_host
  heed again candidate (some (ok accepted)) = finish candidate
  heed again candidate (some (err correction)) = do
    over ← observe spent
    if over then raise (budget_exhausted correction) else (reject candidate correction >> again)

  unfoldable pub validate : M Answer → Text → M Answer
  validate again candidate = do
    modify (λ s. record s { candidates = suc s.candidates })
    verdict ← run_check c candidate
    heed again candidate verdict

  unfoldable pub shape : M Answer → Text → Option Text → M Answer
  shape again candidate none = validate again candidate
  shape again candidate (some prompt) = do nudge candidate prompt; again

  unfoldable pub judge : M Answer → Text → M Answer
  judge again candidate = do
    nudged ← observe (λ s. s.nudged)
    if not c.checking
        then finish candidate
        else shape again candidate (if nudged then none else off_shape candidate)

  unfoldable pub after_reply : M Answer → Option Text → M Answer
  after_reply again none = raise (budget_exhausted (no_answer c.budgets.max_rounds))
  after_reply again (some text) = judge again (c.world.candidate c.format text)

  -- The loop, on fuel: each reply takes a round.
  unfoldable pub run : ℕ → M Answer
  run zero = raise stuck
  run (suc fuel) = do reply ← next_reply c (suc c.budgets.max_rounds); after_reply (run fuel) reply

  -- `Conversation::new` and `complete`: from no round and an empty log.
  unfoldable pub start : ChatRequest → State
  start chat = record {
    chat = chat;
    round = 0;
    candidates = 0;
    repeats = [];
    nudged = false;
    transcript = [];
    log = [];
  }

  unfoldable pub complete : ChatRequest → Result Answer Error × State
  complete chat = run (suc c.budgets.max_rounds) (start chat)
