-- ===== src/Rogo/Repl/Stopping.antt =====
-- Where the loop of src/host/rogo/repl.py stops, and what its lines do.
use radio_robot_lib.Prelude.{ℕ, ◌≡◌, refl, false, List, [], ◌∷◌}
use radio_robot_lib.Prelude.Text.{Text}
use radio_robot_lib.Python.Error.{Result, ok, err}
use radio_robot_lib.Python.Exec.{Exec, pure, continue, ◌>>=◌, ◌>>◌}
use radio_robot_lib.Rogo.Repl.{
  Parsed, unreadable, no_tokens, refused, command, Line, ignored, quits, runs, read_line,
  dispatch_parsed, act, dispatch_one_line, unless_stopped, run,
}

module _ {C S R : Type 0} (parse : Text → Parsed C) (dispatch : C → Exec S R) where
  -- The commands of the lines, in order, before the first `quit` or `exit`.
  unfoldable pub commands_of : List (Line C) → List C
  commands_of [] = []
  commands_of (ignored ∷ lines) = commands_of lines
  commands_of (quits ∷ lines) = []
  commands_of (runs (command c) ∷ lines) = c ∷ commands_of lines
  commands_of (runs _ ∷ lines) = commands_of lines

  unfoldable pub read_lines : List Text → List (Line C)
  read_lines [] = []
  read_lines (line ∷ lines) = read_line parse dispatch line ∷ read_lines lines

  -- One command after the other, until one raises; the results are not looked at.
  unfoldable pub dispatch_all : List C → Exec S ℕ
  dispatch_all [] = pure 0
  dispatch_all (c ∷ cs) = dispatch c >> dispatch_all cs

  dispatched :
      (r : Result R × S) (rest next : Exec S ℕ)
      → ((t : S) → rest t ≡ next t)
      → ((λ t. r) >> pure tt >> pure false >>= unless_stopped parse dispatch rest) r.1
        ≡ continue r.0 (λ x. next) r.1
  unfolding unless_stopped
  dispatched (ok x, s) rest next same = same s
  dispatched (err e, s) rest next same = refl

  line_lem :
      (line : Line C) (lines : List (Line C)) (rest : Exec S ℕ) (s : S)
      → ((t : S) → rest t ≡ dispatch_all (commands_of lines) t)
      → (act parse dispatch line >>= unless_stopped parse dispatch rest) s
        ≡ dispatch_all (commands_of (line ∷ lines)) s
  unfolding act dispatch_parsed unless_stopped commands_of dispatch_all
  line_lem ignored lines rest s same = same s
  line_lem quits lines rest s same = refl
  line_lem (runs (command c)) lines rest s same =
      dispatched (dispatch c s) rest (dispatch_all (commands_of lines)) same
  line_lem (runs unreadable) lines rest s same = same s
  line_lem (runs no_tokens) lines rest s same = same s
  line_lem (runs refused) lines rest s same = same s

  -- The loop dispatches the commands of the lines before the first `quit` or `exit`, in order and
  -- whatever their results, and nothing else: blank lines, comments and lines that do not parse are
  -- passed over. It comes to 0 unless a dispatch raises, and what is raised passes through.
  pub run-dispatch_all :
      (lines : List Text) (s : S)
      → run parse dispatch lines s ≡ dispatch_all (commands_of (read_lines lines)) s
  unfolding run dispatch_one_line read_lines commands_of dispatch_all
  run-dispatch_all [] s = refl
  run-dispatch_all (line ∷ lines) s =
      line_lem (read_line parse dispatch line) (read_lines lines) (run parse dispatch lines) s
        (run-dispatch_all lines)
