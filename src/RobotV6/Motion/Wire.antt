-- ===== src/RobotV6/Motion/Wire.antt =====
-- What the motion calls of src/host/robot_v6/motion.py put on the wire.
use radio_robot_lib.Prelude.{
  ℕ, ◌+◌, ◌<◌, ◌≡◌, refl, subst, Bool, true, false, Option, none, some, List, [], ◌∷◌, ◌++◌, arith,
  All, length, not, ◌&&◌, ◌∙◌,
}
use radio_robot_lib.Prelude.Text.{Text, codes, text_eq}
use radio_robot_lib.Prelude.Int.{ℤ, pos}
use radio_robot_lib.Python.Error.{Result, ok, err, ◌>>=◌}
use radio_robot_lib.Python.Exec.{Exec, continue}
use radio_robot_lib.Python.Split.{IsToken, is_space, join, contains}
use radio_robot_lib.RobotV6.Codec.{
  Field, int, str, hash_token, format_fields, encode_command, parse_reply,
}
use radio_robot_lib.RobotV6.Codec.FixedPoint.{Float}
use radio_robot_lib.RobotV6.Codec.RoundTrip.{encode_command-join, parse_reply-encode_command}
use radio_robot_lib.RobotV6.Transport.{is_ascii, send_line}
use radio_robot_lib.RobotV6.Session.{
  Session, send, send_unsequenced, is_unsequenced, transmit, on_transport,
}
use radio_robot_lib.RobotV6.Session.Invariant.{IsWell}
use radio_robot_lib.RobotV6.Session.Sending.{send_accepted, write}
use radio_robot_lib.RobotV6.Motion.{
  FloatOps, deg_to_mrad, wheels_x, wheels_v, move_x, move_v, go_to_r, go_to_w, stop, estop, get,
  set,
}

-- A call that is answered by a sequence id, with its arguments.
pub data Motion : Type 0 where
  wheel_travel : Field → Field → Field → Field → Motion
  wheel_speed : Field → Field → Field → Motion
  body_travel : Field → Float → Field → Field → Motion
  body_speed : Field → Float → Field → Motion
  to_robot_frame to_world_frame : Field → Field → Field → Field → Field → Motion
  halt : Bool → Motion
  read_config : Option Text → Motion
  write_config : Text → Field → Motion

unfoldable pub perform : FloatOps → Motion → Exec Session ℕ
unfolding wheels_x wheels_v move_x move_v go_to_r go_to_w stop get set
perform ops (wheel_travel a b c d) = wheels_x a b c d
perform ops (wheel_speed a b c) = wheels_v a b c
perform ops (body_travel a b c d) = move_x ops a b c d
perform ops (body_speed a b c) = move_v ops a b c
perform ops (to_robot_frame a b c d e) = go_to_r a b c d e
perform ops (to_world_frame a b c d e) = go_to_w a b c d e
perform ops (halt immediate) = stop immediate
perform ops (read_config name) = get name
perform ops (write_config name value) = set name value

-- The verb table of the wire: what each call means as a verb and its arguments. Angles are in
-- milliradians there.
unfoldable pub wire_form : FloatOps → Motion → Result (Text × List Field)
wire_form ops (wheel_travel a b c d) = ok (codes "WHEELS_X", a ∷ b ∷ c ∷ d ∷ [])
wire_form ops (wheel_speed a b c) = ok (codes "WHEELS_V", a ∷ b ∷ c ∷ [])
wire_form ops (body_travel a b c d) = do
  mrad ← deg_to_mrad ops b
  ok (codes "MOVE_X", a ∷ int mrad ∷ c ∷ d ∷ [])
wire_form ops (body_speed a b c) = do
  mrad ← deg_to_mrad ops b
  ok (codes "MOVE_V", a ∷ int mrad ∷ c ∷ [])
wire_form ops (to_robot_frame a b c d e) = ok (codes "GO_TO_R", a ∷ b ∷ c ∷ d ∷ e ∷ [])
wire_form ops (to_world_frame a b c d e) = ok (codes "GO_TO_W", a ∷ b ∷ c ∷ d ∷ e ∷ [])
wire_form ops (halt true) = ok (codes "STOP", str (codes "now") ∷ [])
wire_form ops (halt false) = ok (codes "STOP", [])
wire_form ops (read_config none) = ok (codes "GET", [])
wire_form ops (read_config (some name)) = ok (codes "GET", str name ∷ [])
wire_form ops (write_config name value) = ok (codes "SET", str name ∷ value ∷ [])

-- What was done is to send the command of the wire form, whose verb is a word and is sequenced.
abbrev IsSent : Result ℕ × Session → Session → Result (Text × List Field) → Type 0
IsSent done s (err e) = done ≡ (err e, s)
IsSent done s (ok (verb, fields)) =
    (done ≡ send verb fields s) × IsToken verb × (is_unsequenced verb ≡ false)

no_space : Text → Bool
no_space [] = true
no_space (c ∷ t) = not (is_space c) && no_space t

word-IsToken : (c : ℕ) (t : Text) → no_space (c ∷ t) ≡ true → IsToken (c ∷ t)
unfolding no_space
word-IsToken c [] h = (cc, (ground arith, tt))
word-IsToken c (d ∷ t) h =
    let (_, rest) = word-IsToken d t (ground arith) in (cc, (ground arith, rest))

angle-IsSent :
    (verb : Text) (f : ℤ → List Field) (r : Result ℤ) (s : Session)
    → IsToken verb
    → is_unsequenced verb ≡ false
    → IsSent (continue r (λ mrad. send verb (f mrad)) s) s (r >>= λ mrad. ok (verb, f mrad))
angle-IsSent verb f (err e) s t u = refl
angle-IsSent verb f (ok n) s t u = (refl, t, u)

perform-IsSent :
    (ops : FloatOps) (m : Motion) (s : Session) → IsSent (perform ops m s) s (wire_form ops m)
unfolding perform wire_form is_unsequenced text_eq is_space no_space
perform-IsSent ops (wheel_travel a b c d) s = (refl, word-IsToken _ _ refl, refl)
perform-IsSent ops (wheel_speed a b c) s = (refl, word-IsToken _ _ refl, refl)
perform-IsSent ops (body_travel a b c d) s =
    angle-IsSent (codes "MOVE_X") (λ mrad. a ∷ int mrad ∷ c ∷ d ∷ []) (deg_to_mrad ops b) s
      (word-IsToken _ _ refl) refl
perform-IsSent ops (body_speed a b c) s =
    angle-IsSent (codes "MOVE_V") (λ mrad. a ∷ int mrad ∷ c ∷ []) (deg_to_mrad ops b) s
      (word-IsToken _ _ refl) refl
perform-IsSent ops (to_robot_frame a b c d e) s = (refl, word-IsToken _ _ refl, refl)
perform-IsSent ops (to_world_frame a b c d e) s = (refl, word-IsToken _ _ refl, refl)
perform-IsSent ops (halt true) s = (refl, word-IsToken _ _ refl, refl)
perform-IsSent ops (halt false) s = (refl, word-IsToken _ _ refl, refl)
perform-IsSent ops (read_config none) s = (refl, word-IsToken _ _ refl, refl)
perform-IsSent ops (read_config (some name)) s = (refl, word-IsToken _ _ refl, refl)
perform-IsSent ops (write_config name value) s = (refl, word-IsToken _ _ refl, refl)

-- A call with room in the buffer, whose arguments have a wire form made of words, and whose line is
-- ASCII, gets the next id; its line is buffered and written once, and is parsed back into the verb
-- of the call, its arguments as they are spelt, and the id.
pub perform_accepted :
    (ops : FloatOps) (m : Motion) (s : Session) (verb : Text) (fields : List Field) (ts : List Text)
    → IsWell s
    → length s.pending < s.max_pending
    → wire_form ops m ≡ ok (verb, fields)
    → format_fields fields ≡ ok ts
    → All IsToken ts
    → is_ascii (join (verb ∷ ts ++ hash_token (pos s.next_id) ∷ [])) ≡ true
    → let line = join (verb ∷ ts ++ hash_token (pos s.next_id) ∷ []) in
      (perform ops m s ≡ (
        ok s.next_id,
        record s {
          next_id = s.next_id + 1;
          pending = s.pending ++ (s.next_id, line) ∷ [];
          transport = write line s.transport;
        },
      ))
      × (parse_reply line ≡ ok (record { verb = verb; fields = ts; id = some s.next_id }))
perform_accepted ops m s verb fields ts well room form spelt words ascii =
    let (sent, token, fine) = subst (IsSent (perform ops m s) s) form (perform-IsSent ops m s) in
    let e = encode_command-join verb fields ts s.next_id token spelt in
    (
      sent ∙ send_accepted verb fields s _ well fine room e ascii,
      subst
          (λ r. (r >>= parse_reply) ≡ ok (record { verb = verb; fields = ts; id = some s.next_id }))
          e (parse_reply-encode_command verb fields ts s.next_id token spelt words),
    )

-- An emergency stop is written to the wire whatever the state of the session, a full buffer or an
-- open gap included, and changes nothing else.
pub estop_always :
    (s : Session) → estop s ≡ (ok tt, record s { transport = write (codes "ESTOP") s.transport })
unfolding estop send_unsequenced is_unsequenced text_eq encode_command format_fields contains
    transmit on_transport send_line is_ascii join
estop_always s = refl
