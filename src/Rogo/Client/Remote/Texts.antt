-- ===== src/Rogo/Client/Remote/Texts.antt =====
-- What a client of src/host/rogo/daemon_client.py reads of the replies of a robot.
use radio_robot_lib.Prelude.{
  ℕ, ◌≡◌, refl, ap, ◌∙◌, ◌<◌, Option, none, some, List, [], ◌∷◌, map, All, subst,
}
use radio_robot_lib.Prelude.Text.{Text, codes}
use radio_robot_lib.Prelude.Chars.{string_of, IsDecoded, codes-string_of}
use radio_robot_lib.Prelude.Int.{ℤ, pos}
use radio_robot_lib.Python.Error.{ok}
use radio_robot_lib.RobotV6.Codec.{Reply}
use radio_robot_lib.RobotV6.Codec.Texts.{IsOf}
use radio_robot_lib.RobotV6.Session as Session
use radio_robot_lib.RobotV6.Session.{Session}
use radio_robot_lib.RobotV6.Session.Heard.{RepliesDecoded, pump-RepliesDecoded}
use radio_robot_lib.Rogo.Client.{pump}
use radio_robot_lib.Rogo.Client.Remote.{
  Caller, gives, wire_timeout, remote_call, local_call, seen, wire_reply,
}
use radio_robot_lib.Rogo.Client.Remote.Agreement.{remote_call-local_call}
use radio_robot_lib.Rogo.Client.Remote.Deadline.{awaited}
use radio_robot_lib.Rogo.Client.Remote.Reading.{WireReply, pumped}
use radio_robot_lib.Rogo.Client.Table.{Host}
use radio_robot_lib.Rogo.Client.Values.{id_value}
use radio_robot_lib.Rogo.Json.{Json, null, int, str}

-- The texts and the number that a reply's values stand for, if they are such.
unfoldable pub text_of : Json → Option Text
text_of (str s) = some (codes s)
text_of _ = none

unfoldable pub with_first : Option Text → Option (List Text) → Option (List Text)
with_first (some t) (some ts) = some (t ∷ ts)
with_first _ _ = none

unfoldable pub texts_of : List Json → Option (List Text)
texts_of [] = some []
texts_of (j ∷ js) = with_first (text_of j) (texts_of js)

unfoldable pub number_of : Json → Option (Option ℕ)
number_of null = some none
number_of (int (pos n)) = some (some n)
number_of _ = none

unfoldable pub assemble : Option Text → Option (List Text) → Option (Option ℕ) → Option Reply
assemble (some verb) (some fields) (some id) =
    some (record { verb = verb; fields = fields; id = id })
assemble _ _ _ = none

unfoldable pub reply_of : WireReply → Option Reply
reply_of r = assemble (text_of r.verb) (texts_of r.fields) (number_of r.id)

text_of-string_of : (t : Text) → All IsDecoded t → text_of (str (string_of t)) ≡ some t
unfolding text_of
text_of-string_of t h = ap some (codes-string_of t h)

texts_of-map :
    (ts : List Text) → All (All IsDecoded) ts → texts_of (map (λ t. str (string_of t)) ts) ≡ some ts
unfolding texts_of with_first
texts_of-map [] h = refl
texts_of-map (t ∷ ts) (h, k) = rw (text_of-string_of t h, texts_of-map ts k) refl

number_of-id_value : (id : Option ℕ) → number_of (id_value id) ≡ some id
unfolding number_of id_value
number_of-id_value none = refl
number_of-id_value (some n) = refl

reply_of-wire_reply : (r : Reply) → IsOf IsDecoded r → reply_of (wire_reply r) ≡ some r
unfolding reply_of wire_reply assemble
reply_of-wire_reply r (h, k) =
    rw (text_of-string_of r.verb h, texts_of-map r.fields k, number_of-id_value r.id) refl

map-reply_of :
    (rs : List Reply) → All (IsOf IsDecoded) rs → map reply_of (map wire_reply rs) ≡ map some rs
map-reply_of [] h = refl
map-reply_of (r ∷ rs) (h, k) = rw (reply_of-wire_reply r h, map-reply_of rs k) refl

-- Where `pump` on the session returns replies, `pump` through the daemon leaves the same session, and,
-- if its reply is found in time, returns values of which each reply can be read with its verb, its
-- fields and its id, in the same order, whatever bytes the robot sent. The conditions are those of
-- any call: the client can add its margin to the timeout, and enough looks are followed.
pub pump-exact :
    (h : Host) (k : Caller) (request_id : ℤ) (timeout : Json) (limit : Option ℕ) (s t : Session)
    (rs : List Reply)
    → Session.pump h.world s ≡ (ok rs, t)
    → wire_timeout k (pump timeout) ≡ ok limit
    → k.replied_at < k.looks
    → (ws : List WireReply) × (remote_call h k request_id (pump timeout) s
        ≡ (awaited k limit (some (gives (pumped ws))), t))
      × (map reply_of ws ≡ map some rs)
unfolding local_call seen
pump-exact h k request_id timeout limit s t rs e allowed enough = (
  map wire_reply rs,
  remote_call-local_call h k request_id (pump timeout) limit s allowed enough ∙ rw e refl,
  map-reply_of rs (subst RepliesDecoded e (pump-RepliesDecoded h.world s)),
)
