-- ===== src/Tests/Codec.antt =====
-- The codec and the transport at concrete inputs.
use radio_robot_lib.Prelude.{ℕ, ◌≡◌, refl, some, List, [], ◌∷◌}
use radio_robot_lib.Prelude.Text.{codes}
use radio_robot_lib.Prelude.Int.{pos, negsuc}
use radio_robot_lib.Python.Error.{ok, ◌>>=◌}
use radio_robot_lib.Python.Decimal
use radio_robot_lib.Python.Split.{is_space}
use radio_robot_lib.RobotV6.Codec.{Field, int, str, format_fields, encode_command, parse_reply}
use radio_robot_lib.RobotV6.Codec.RoundTrip.{parse_reply-encode_command}
use radio_robot_lib.RobotV6.Transport.{chunk, read_lines, fresh}
use radio_robot_lib.RobotV6.Transport.Reassembly.{read_chunks, concat, read_chunks-concat}

abbrev arguments : List Field
arguments = int (pos 100) ∷ int (negsuc 49) ∷ str (codes "now") ∷ []

parse_reply-encode_command_example :
    (encode_command (codes "WHEELS_V") arguments (some (pos 7)) >>= parse_reply)
    ≡ ok (record {
      verb = codes "WHEELS_V";
      fields = codes "100" ∷ codes "-50" ∷ codes "now" ∷ [];
      id = some 7;
    })
unfolding format_fields Decimal.str Decimal.str_ℕ is_space
parse_reply-encode_command_example =
    parse_reply-encode_command (codes "WHEELS_V") arguments
      (codes "100" ∷ codes "-50" ∷ codes "now" ∷ []) 7
      (cc, (refl, (refl, (refl, (refl, (refl, (refl, (refl, (refl, tt))))))))) refl
      (
        (cc, (refl, (refl, (refl, tt)))),
        ((cc, (refl, (refl, (refl, tt)))), ((cc, (refl, (refl, (refl, tt)))), tt)),
      )

abbrev chunks : List (List ℕ)
chunks = codes "ack 1" ∷ [] ∷ codes " 0 none\r\nack 2 " ∷ codes "0 none\n" ∷ []

read_chunks-concat_example : read_chunks chunks fresh ≡ read_lines (chunk (concat chunks)) fresh
read_chunks-concat_example = read_chunks-concat chunks fresh tt
