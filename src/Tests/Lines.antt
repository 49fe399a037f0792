-- ===== src/Tests/Lines.antt =====
-- src/process_win32.cpp: arguments with blanks, quotes and backslashes.
use copilot_cpp.Prelude.{suc, ◌≡◌, List, [], ◌∷◌, length}
use copilot_cpp.Prelude.Text.{Bytes, codes}
use copilot_cpp.Quoting.{build_command_line}
use copilot_cpp.Quoting.Splitting.{split_line}
use copilot_cpp.Quoting.RoundTrip.{build_command_line-split}

abbrev arguments : List Bytes
arguments = codes "--server" ∷ codes "C:\\my dir\\" ∷ codes "say \"hi\\\"" ∷ [] ∷ []

build_command_line-split_example :
    split_line (suc (length arguments)) (build_command_line (codes "copilot.exe") arguments)
    ≡ (codes "copilot.exe" ∷ arguments, [])
build_command_line-split_example = build_command_line-split (codes "copilot.exe") arguments
