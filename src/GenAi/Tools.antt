-- ===== src/GenAi/Tools.antt =====
-- crates/genai/src/tools.rs: a tool call, answered by the shell, the workspace or the guest. The result of a
-- command is rendered as shell.rs does.
--
-- The guest, the shell's processes and serde's reading of arguments are the record `Host`; a call that
-- ends the completion is none. Logs are left out.
pub mod Dispatch
pub mod Tests
use mathlib.Core.Option
use omnia_backends.Base.{
  ℕ, Bool, true, false, Option, none, some, List, [], ◌∷◌, ◌++◌, map, any, length, ltb, ◌==◌,
  if◌then◌else◌,
}
use omnia_backends.Base.Results.{Result, ok, err, ◌>>=◌}
use omnia_backends.Base.Order.{bytes_ord, same}
use omnia_backends.Base.Text.{codes, decimal, join}
use omnia_backends.GenAi.Chat.{Text, ToolCall, ToolOutcome}

-- A finished process: what it wrote, and its exit code or signal.
pub record Output : Type 0 where
  pub stdout : Text
  pub stderr : Text
  pub exit_code : Option ℕ
  pub signal : Option ℕ

pub record Host : Type 0 where
  pub read_file : Text → Result Text Text
  -- the entries of a directory, as JSON
  pub list_directory : Text → Result Text Text
  pub call_tool : Text → Text → Option ToolOutcome
  -- a command in the shell: its output, or the seconds after which it was killed; none where it cannot run
  pub run_command : Text → Option (Result Output ℕ)
  pub read_args : Text → Result Text Text
  pub list_args : Text → Result (Option Text) Text
  pub shell_args : Text → Result Text Text
  -- the bytes as text, lossily where they are not UTF-8, and the fault in them
  pub lossy : Text → Text
  pub utf8_fault : Text → Option Text

pub record Tools : Type 0 where
  pub has_shell : Bool
  pub declared : List Text
  pub result_cap : ℕ

unfoldable pub ends_line : Text → Bool
ends_line [] = true
ends_line (c ∷ []) = c == 10
ends_line (c ∷ d ∷ text) = ends_line (d ∷ text)

unfoldable pub end_line : Text → Text
end_line text = if ends_line text then text else text ++ codes "\n"

unfoldable pub with_stderr : (Text → Text) → Text → Text → Text
with_stderr lossy text [] = text
with_stderr lossy text (b ∷ stderr) =
    end_line text ++ (codes "--- stderr ---\n" ++ lossy (b ∷ stderr))

unfoldable pub exit_line : Option ℕ → Option ℕ → Text
exit_line (some code) signal = codes "exit " ++ decimal code
exit_line none (some signal) = codes "killed by signal " ++ decimal signal
exit_line none none = codes "exit unknown"

unfoldable pub is_zero : Option ℕ → Bool
is_zero none = false
is_zero (some code) = code == 0

unfoldable pub or_exit : Text → Text
or_exit [] = codes "exit 0"
or_exit (c ∷ text) = c ∷ text

unfoldable pub render : (Text → Text) → Output → Text
render lossy output =
    let text = with_stderr lossy (lossy output.stdout) output.stderr in
    if is_zero output.exit_code
    then or_exit text
    else end_line text ++ (codes "--- exit ---\n" ++ exit_line output.exit_code output.signal)

unfoldable pub run_result : (Text → Text) → Result Output ℕ → Text
run_result lossy (ok output) = render lossy output
run_result lossy (err seconds) =
    codes "the command did not exit within "
    ++ (decimal seconds ++ codes "s and was killed with everything it started")

unfoldable pub undeclared : Text → List Text → Text
undeclared name [] =
    codes "`" ++ (name ++ codes "` is not declared; this request declares no tools")
undeclared name (first ∷ names) =
    codes "`"
    ++ (name
        ++ (codes "` is not declared; the tools are "
            ++ join (codes ", ") (map (λ n. codes "`" ++ (n ++ codes "`")) (first ∷ names))))

unfoldable pub within_cap : ℕ → Text → ToolOutcome
within_cap cap text =
    if ltb cap (length text)
    then err (
        codes "result of "
        ++ (decimal (length text)
            ++ (codes " bytes exceeds the " ++ (decimal cap ++ codes "-byte cap"))))
    else ok text

module _ (t : Tools) (h : Host) where
  unfoldable pub as_text : Text → Text → ToolOutcome
  as_text path bytes = elim (h.utf8_fault bytes) [
    | none ↦ ok bytes
    | some fault ↦ err (codes "`" ++ (path ++ (codes "` is not UTF-8: " ++ fault)))
  ]

  unfoldable pub read_tool : Text → ToolOutcome
  read_tool arguments = h.read_args arguments >>= λ path.
      h.read_file path >>= λ bytes. as_text path bytes >>= within_cap t.result_cap

  unfoldable pub path_or_root : Option Text → Text
  path_or_root none = []
  path_or_root (some path) = path

  unfoldable pub list_tool : Text → ToolOutcome
  list_tool arguments = h.list_args arguments >>= λ path.
      h.list_directory (path_or_root path) >>= within_cap t.result_cap

  unfoldable pub run_shell : Result Text Text → Option ToolOutcome
  run_shell (err reason) = some (err reason)
  run_shell (ok command) =
      Option.map (λ ended. ok (run_result h.lossy ended)) (h.run_command command)

  unfoldable pub shell_tool : Text → Option ToolOutcome
  shell_tool arguments =
      if t.has_shell
      then run_shell (h.shell_args arguments)
      else some (err (codes "no shell on this workspace"))

  unfoldable pub call_by_name : ToolCall → Option ToolOutcome
  call_by_name call =
      if same call.fn_name (codes "shell")
      then shell_tool call.fn_arguments
      else if any (same call.fn_name) t.declared
      then (if same call.fn_name (codes "read")
          then some (read_tool call.fn_arguments)
          else if same call.fn_name (codes "list")
          then some (list_tool call.fn_arguments)
          else h.call_tool call.fn_name call.fn_arguments)
      else some (err (undeclared call.fn_name t.declared))
