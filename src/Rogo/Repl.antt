-- ===== src/Rogo/Repl.antt =====
-- src/host/rogo/repl.py: the loop over the lines. `shlex`, `argparse` and the dispatch are outside.
pub mod Stopping
use radio_robot_lib.Prelude.{
  ℕ, Bool, true, false, ◌&&◌, ◌||◌, not, Option, none, some, List, [], ◌∷◌, ◌++◌, if◌then◌else◌,
  ◌==◌,
}
use radio_robot_lib.Prelude.Text.{Text, codes, text_eq}
use radio_robot_lib.Python.Error.{Result, ok, err}
use radio_robot_lib.Python.Exec.{Exec, pure, ◌>>=◌, ◌>>◌}
use radio_robot_lib.Python.Split.{is_space}

-- `str.strip()`
unfoldable pub lstrip : Text → Text
lstrip [] = []
lstrip (c ∷ t) = let rest = lstrip t in if is_space c then rest else c ∷ t

unfoldable pub rstrip : Text → Text
rstrip [] = []
rstrip (c ∷ t) = let rest = rstrip t in if is_space c && text_eq rest [] then [] else c ∷ rest

unfoldable pub strip : Text → Text
unfolding lstrip rstrip
strip t = rstrip (lstrip t)

-- What the tokens of a line come to: `shlex` refuses, there is none, `argparse` raises
-- `SystemExit`, or the parsed arguments.
pub data Parsed (C : Type 0) : Type 0 where
  unreadable no_tokens refused : Parsed C
  command : C → Parsed C

pub data Line (C : Type 0) : Type 0 where
  -- blank, or a comment
  ignored : Line C
  quits : Line C
  runs : Parsed C → Line C

unfoldable pub is_comment : Text → Bool
is_comment [] = true
is_comment (c ∷ t) = c == b'#'

unfoldable pub is_quit : Text → Bool
is_quit t = text_eq t (codes "quit") || text_eq t (codes "exit")

module _ {C S R : Type 0} (parse : Text → Parsed C) (dispatch : C → Exec S R) where
  unfoldable pub read_text : Text → Line C
  unfolding is_comment is_quit
  read_text t = if is_comment t then ignored else if is_quit t then quits else runs (parse t)

  unfoldable pub read_line : Text → Line C
  unfolding read_text strip
  read_line line = read_text (strip line)

  unfoldable pub dispatch_parsed : Parsed C → Exec S (Unit {0})
  dispatch_parsed (command args) = dispatch args >> pure tt
  dispatch_parsed _ = pure tt

  -- Whether to stop is `true` for `_STOP`.
  unfoldable pub act : Line C → Exec S Bool
  unfolding dispatch_parsed
  act ignored = pure false
  act quits = pure true
  act (runs parsed) = dispatch_parsed parsed >> pure false

  unfoldable pub dispatch_one_line : Text → Exec S Bool
  unfolding act read_line
  dispatch_one_line line = act (read_line line)

  unfoldable pub unless_stopped : Exec S ℕ → Bool → Exec S ℕ
  unless_stopped rest true = pure 0
  unless_stopped rest false = rest

  -- Over the argument list, or over the lines that are read until the end of the input, which is
  -- the same loop; it comes to the process code.
  unfoldable pub run : List Text → Exec S ℕ
  unfolding dispatch_one_line unless_stopped
  run [] = pure 0
  run (line ∷ lines) = do stop ← dispatch_one_line line; unless_stopped (run lines) stop
