-- ===== src/GenAi/Tools/Dispatch.antt =====
-- Whom a tool call reaches, and how much it may bring back.
use omnia_backends.Base.{
  ℕ, ◌≡◌, ◌≤◌, ◌⊎◌, inl, inr, refl, subst, false, Option, some, any, length, ltb, ltb→le,
  Bool-cases,
}
use omnia_backends.Base.Results.{ok, err, >>=-eq-ok}
use omnia_backends.Base.Order.{bytes_ord, same, lex}
use omnia_backends.Base.Text.{codes}
use omnia_backends.GenAi.Chat.{Text, ToolCall, ToolOutcome}
use omnia_backends.GenAi.Tools.{
  Host, Tools, within_cap, read_tool, list_tool, call_by_name, undeclared, as_text,
}

-- A call of a name that the request did not declare, the shell's apart, reaches nobody: whatever the guest and the
-- workspace are, the answer is the refusal with the names that are declared.
pub call_by_name-Undeclared :
    (t : Tools) (h : Host) (call : ToolCall)
    → same call.fn_name (codes "shell") ≡ false
    → any (same call.fn_name) t.declared ≡ false
    → call_by_name t h call ≡ some (err (undeclared call.fn_name t.declared))
unfolding call_by_name
call_by_name-Undeclared t h call other absent = rw (other, absent) refl

abbrev the_text : Text → ToolOutcome
the_text a = ok a

outcome-eq : (a b : Text) → the_text a ≡ the_text b → a ≡ b
outcome-eq a b h = cc

within_cap-le :
    (cap : ℕ) (text result : Text) → within_cap cap text ≡ ok result → length result ≤ cap
unfolding within_cap
within_cap-le cap text result = elim (Bool-cases (ltb cap (length text))) [
  | inl over ↦ rw over (λ h. cc)
  | inr fits ↦
      rw fits (λ h.
        subst (λ r. length r ≤ cap) (outcome-eq text result h) (ltb→le cap (length text) fits))
]

workspace-Within :
    (t : Tools) (h : Host) (arguments result : Text)
    → (read_tool t h arguments ≡ ok result) ⊎ (list_tool t h arguments ≡ ok result)
    → length result ≤ t.result_cap
unfolding read_tool list_tool
workspace-Within t h arguments result (inl e) =
    let (path, e1, h1) = >>=-eq-ok (h.read_args arguments) _ result e in
    let (bytes, e2, h2) = >>=-eq-ok (h.read_file path) _ result h1 in
    let (text, e3, h3) = >>=-eq-ok (as_text t h path bytes) _ result h2 in
    within_cap-le t.result_cap text result h3
workspace-Within t h arguments result (inr e) =
    let (path, e1, h1) = >>=-eq-ok (h.list_args arguments) _ result e in
    let (text, e2, h2) = >>=-eq-ok (h.list_directory _) _ result h1 in
    within_cap-le t.result_cap text result h2

abbrev the_outcome : ToolOutcome → Option ToolOutcome
the_outcome a = some a

some-outcome : (a b : ToolOutcome) → the_outcome a ≡ the_outcome b → a ≡ b
some-outcome a b h = cc

refused-none : (a : Text) (b : Text) → the_outcome (err a) ≡ the_outcome (ok b) → ⊥
refused-none a b h = cc

-- What the workspace's own tools, `read` and `list`, bring back to the model stays within the cap.
pub call_by_name-Within :
    (t : Tools) (h : Host) (call : ToolCall) (result : Text)
    → (call.fn_name ≡ codes "read") ⊎ (call.fn_name ≡ codes "list")
    → call_by_name t h call ≡ some (ok result)
    → length result ≤ t.result_cap
unfolding call_by_name lex
call_by_name-Within t h call result (inl e) =
    elim (Bool-cases (any (same (codes "read")) t.declared)) [
      | inl known ↦
          rw (e, known)
            (λ r.
              workspace-Within t h call.fn_arguments result
                (inl (some-outcome (read_tool t h call.fn_arguments) (ok result) r)))
      | inr absent ↦ rw (e, absent) (λ r. absurd (refused-none _ result r))
    ]
call_by_name-Within t h call result (inr e) =
    elim (Bool-cases (any (same (codes "list")) t.declared)) [
      | inl known ↦
          rw (e, known)
            (λ r.
              workspace-Within t h call.fn_arguments result
                (inr (some-outcome (list_tool t h call.fn_arguments) (ok result) r)))
      | inr absent ↦ rw (e, absent) (λ r. absurd (refused-none _ result r))
    ]
