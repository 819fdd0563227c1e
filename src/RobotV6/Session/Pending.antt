-- ===== src/RobotV6/Session/Pending.antt =====
-- The buffer of commands that are sent and not acknowledged: an `OrderedDict` from ids to lines.
pub mod Order
use radio_robot_lib.Prelude.{
  ℕ, suc, ◌+◌, ◌≤◌, ◌<◌, ◌≡◌, refl, Bool, Option, none, some, List, [], ◌∷◌, ◌++◌, map, arith, leb,
  ◌==◌, if◌then◌else◌, length,
}
use radio_robot_lib.Prelude.Text.{Text}
use radio_robot_lib.Prelude.Int.{ℤ, pos, leb_ℤ}

abbrev pub Outbox : Type 0
Outbox = List (ℕ × Text)

-- `pending[i] = line`
unfoldable pub put : ℕ → Text → Outbox → Outbox
put i line [] = (i, line) ∷ []
put i line ((j, old) ∷ rest) = if j == i then (i, line) ∷ rest else (j, old) ∷ put i line rest

unfoldable pub get_line : ℕ → Outbox → Option Text
get_line i [] = none
get_line i ((j, line) ∷ rest) = if j == i then some line else get_line i rest

-- The deletion of every id up to `n`.
unfoldable pub retire : ℤ → Outbox → Outbox
retire n [] = []
retire n ((i, line) ∷ rest) =
    let kept = retire n rest in if leb_ℤ (pos i) n then kept else (i, line) ∷ kept

-- `i for i in pending if i >= n`
unfoldable pub ids_from : ℤ → Outbox → List ℕ
ids_from n [] = []
ids_from n ((i, line) ∷ rest) =
    let ids = ids_from n rest in if leb_ℤ n (pos i) then i ∷ ids else ids

-- `sorted`
unfoldable pub place : ℕ → List ℕ → List ℕ
place i [] = i ∷ []
place i (j ∷ rest) = if leb i j then i ∷ j ∷ rest else j ∷ place i rest

unfoldable pub sorted : List ℕ → List ℕ
unfolding place
sorted [] = []
sorted (i ∷ rest) = place i (sorted rest)
