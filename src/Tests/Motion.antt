-- ===== src/Tests/Motion.antt =====
-- Motion calls at concrete inputs.
use radio_robot_lib.Prelude.{◌≡◌, refl, some, [], ◌∷◌, arith}
use radio_robot_lib.Prelude.Text.{codes}
use radio_robot_lib.Prelude.Int.{pos}
use radio_robot_lib.Python.Error.{ok}
use radio_robot_lib.Python.Decimal
use radio_robot_lib.Python.Split.{join, is_space}
use radio_robot_lib.RobotV6.Codec.{int, parse_reply, format_fields}
use radio_robot_lib.RobotV6.Codec.FixedPoint.{finite}
use radio_robot_lib.RobotV6.Transport.{fresh, is_ascii}
use radio_robot_lib.RobotV6.Session.{Session, init}
use radio_robot_lib.RobotV6.Session.Invariant.{init-IsWell}
use radio_robot_lib.RobotV6.Session.Sending.{write}
use radio_robot_lib.RobotV6.Motion.{FloatOps, deg_to_mrad}
use radio_robot_lib.RobotV6.Motion.Wire.{body_travel, perform, wire_form, perform_accepted}

-- Every angle comes out as 1571 milliradians.
abbrev ops : FloatOps
ops = record {
  mul = λ a b. a;
  divide = λ a b. a;
  pi = finite (codes "3.14");
  round = λ a. ok (pos 1571);
}

abbrev opened : Session
opened = init fresh 2 10

perform_accepted_example :
    (perform ops
        (body_travel (int (pos 300)) (finite (codes "90.0")) (int (pos 100)) (int (pos 5)))
        opened
      ≡ (
        ok 1,
        record opened {
          next_id = 2;
          pending = (1, codes "MOVE_X 300 1571 100 5 #1") ∷ [];
          transport = write (codes "MOVE_X 300 1571 100 5 #1") fresh;
        },
      ))
    × (parse_reply (codes "MOVE_X 300 1571 100 5 #1")
        ≡ ok (record {
          verb = codes "MOVE_X";
          fields = codes "300" ∷ codes "1571" ∷ codes "100" ∷ codes "5" ∷ [];
          id = some 1;
        }))
unfolding init wire_form deg_to_mrad format_fields Decimal.str Decimal.str_ℕ join is_ascii is_space
perform_accepted_example =
    perform_accepted ops
      (body_travel (int (pos 300)) (finite (codes "90.0")) (int (pos 100)) (int (pos 5))) opened
      (codes "MOVE_X") (int (pos 300) ∷ int (pos 1571) ∷ int (pos 100) ∷ int (pos 5) ∷ [])
      (codes "300" ∷ codes "1571" ∷ codes "100" ∷ codes "5" ∷ []) (init-IsWell fresh 2 10)
      (omega arith) refl refl
      (
        (cc, (refl, (refl, (refl, tt)))),
        (
          (cc, (refl, (refl, (refl, (refl, tt))))),
          ((cc, (refl, (refl, (refl, tt)))), ((cc, (refl, tt)), tt)),
        ),
      )
      refl
