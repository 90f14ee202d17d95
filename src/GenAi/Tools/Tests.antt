-- ===== src/GenAi/Tools/Tests.antt =====
-- A call of `read` that the request declares, on a file within the cap.
use omnia_backends.Base.{◌≡◌, ◌≤◌, refl, inl, false, none, some, [], ◌∷◌, length}
use omnia_backends.Base.Results.{ok}
use omnia_backends.Base.Order.{bytes_ord, lex}
use omnia_backends.Base.Text.{codes, decimal}
use omnia_backends.GenAi.Chat.{ToolCall}
use omnia_backends.GenAi.Tools.{
  Host, Tools, call_by_name, read_tool, as_text, within_cap, render, with_stderr, end_line,
  ends_line, exit_line, is_zero,
}
use omnia_backends.GenAi.Tools.Dispatch.{call_by_name-Within}

abbrev a_host : Host
a_host = record {
  read_file = λ path. ok (codes "hello");
  list_directory = λ path. ok (codes "[]");
  call_tool = λ name arguments. none;
  run_command = λ command. none;
  read_args = λ arguments. ok (codes "a.txt");
  list_args = λ arguments. ok none;
  shell_args = λ arguments. ok arguments;
  lossy = λ bytes. bytes;
  utf8_fault = λ bytes. none;
}

abbrev tools : Tools
tools = record { has_shell = false; declared = codes "list" ∷ codes "read" ∷ []; result_cap = 5 }

abbrev a_read : ToolCall
a_read = record { call_id = codes "c1"; fn_name = codes "read"; fn_arguments = codes "{}" }

a_read-ok : call_by_name tools a_host a_read ≡ some (ok (codes "hello"))
unfolding call_by_name read_tool as_text within_cap lex
a_read-ok = refl

call_by_name-Within_example : length (codes "hello") ≤ tools.result_cap
call_by_name-Within_example =
    call_by_name-Within tools a_host a_read (codes "hello") (inl refl) a_read-ok

-- A command that failed with both streams written.
render_failed :
    render
      (λ bytes. bytes)
      (record { stdout = codes "out"; stderr = codes "bad"; exit_code = some 2; signal = none })
    ≡ codes "out\n--- stderr ---\nbad\n--- exit ---\nexit 2"
unfolding render with_stderr end_line ends_line exit_line is_zero decimal
render_failed = refl
