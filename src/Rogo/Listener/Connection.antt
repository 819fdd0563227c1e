-- ===== src/Rogo/Listener/Connection.antt =====
-- `UnixSocketListener._serve_client` of src/host/rogo/daemon.py for a `rogo serve` that one client
-- uses: the loop over the lines of its connection, on the daemon's session.
use radio_robot_lib.Prelude.{
  ◌≡◌, Bool, true, false, Option, none, some, List, [], ◌∷◌, String, if◌then◌else◌, ◌⊎◌,
}
use radio_robot_lib.RobotV6.Session.{Session}
use radio_robot_lib.Rogo.Client.Table.{Host, execute_request}
use radio_robot_lib.Rogo.Client.{is_estop_request}
use radio_robot_lib.Rogo.Json.{Json, bool, obj, empty, entry}
use radio_robot_lib.Rogo.Protocol.{
  Request, Reply, Decoded, refused, decoded, decode_request, succeed,
}
use text.Mathlib.Text.{◌==◌}

-- What the reader gives: an empty line, or one with what JSON makes of it and whether the reply to it
-- can be sent, or an exception, as for bytes that are not UTF-8 or a connection that is lost.
pub data Line : Type 0 where
  blank : Line
  content : Option Json → Bool → Line
  broken : Line

abbrev pub liveness_probe_verb : String
liveness_probe_verb = "__rogo_daemon_liveness_probe__"

abbrev pub alive : Json
alive = obj (entry "alive" (bool true) empty)

module _ (h : Host) where
  -- `submit()` after the classifier; `none` where it raises or does not return.
  unfoldable pub submit_classified : Option Bool → Request → Session → Option Reply × Session
  submit_classified none request s = (none, s)
  submit_classified (some is_estop) request s = execute_request h request s

  unfoldable pub answer : Request → Session → Option Reply × Session
  unfolding submit_classified
  answer request s =
      if request.verb == liveness_probe_verb
      then (some (succeed request.id alive), s)
      else submit_classified (is_estop_request request) request s

  -- `sendall`, and the other lines; the thread ends where there is no reply, or none can be sent.
  unfoldable pub send_reply :
      Bool → Option Reply → (Session → List Reply × Session) → Session → List Reply × Session
  send_reply sent none rest s = ([], s)
  send_reply false (some reply) rest s = ([], s)
  send_reply true (some reply) rest s = let (replies, t) = rest s in (reply ∷ replies, t)

  unfoldable pub serve_line :
      Decoded Request → Bool → (Session → List Reply × Session) → Session → List Reply × Session
  unfolding answer send_reply
  serve_line (refused e) sent rest s = rest s
  serve_line (decoded request) sent rest s =
      let (reply, t) = answer request s in send_reply sent reply rest t

  -- The replies in the order in which they are sent, and the session afterwards.
  unfoldable pub serve_client : List Line → Session → List Reply × Session
  unfolding serve_line
  serve_client [] = λ s. ([], s)
  serve_client (blank ∷ lines) = serve_client lines
  serve_client (broken ∷ lines) = λ s. ([], s)
  serve_client (content line sent ∷ lines) =
      serve_line (decode_request line) sent (serve_client lines)

  -- The requests among the lines.
  abbrev pub request_before : Decoded Request → List Request → List Request
  request_before (refused e) later = later
  request_before (decoded request) later = request ∷ later

  abbrev pub requests_of : List Line → List Request
  requests_of [] = []
  requests_of (blank ∷ lines) = requests_of lines
  requests_of (broken ∷ lines) = requests_of lines
  requests_of (content line sent ∷ lines) = request_before (decode_request line) (requests_of lines)

  -- Each reply is under the id of its request, in order, and the requests without one are the last.
  abbrev pub AnswersFirst : List Reply → List Request → Type 0
  AnswersFirst [] later = Unit
  AnswersFirst (reply ∷ replies) [] = ⊥
  AnswersFirst (reply ∷ replies) (request ∷ later) =
      (reply.id ≡ request.id) × AnswersFirst replies later

  abbrev pub AnswersAll : List Reply → List Request → Type 0
  AnswersAll [] later = later ≡ []
  AnswersAll (reply ∷ replies) [] = ⊥
  AnswersAll (reply ∷ replies) (request ∷ later) =
      (reply.id ≡ request.id) × AnswersAll replies later

  -- A line at which a connection can end.
  abbrev pub Ends : Decoded Request → Bool → Type 0
  Ends (refused e) sent = ⊥
  Ends (decoded request) sent =
      (sent ≡ false)
      ⊎ ((is_estop_request request ≡ none)
          ⊎ ((t : Session) × ((execute_request h request t).0 ≡ none)))

  abbrev pub EndsIn : List Line → Type 0
  EndsIn [] = ⊥
  EndsIn (blank ∷ lines) = EndsIn lines
  EndsIn (broken ∷ lines) = Unit
  EndsIn (content line sent ∷ lines) = Ends (decode_request line) sent ⊎ EndsIn lines

  abbrev pub IsServed : List Request → Type 0 → List Reply → Type 0
  IsServed asked ends replies = AnswersAll replies asked ⊎ (AnswersFirst replies asked × ends)

  -- What comes of one request.
  abbrev IsAnswered : Request → Option Reply → Type 0
  IsAnswered request none =
      (is_estop_request request ≡ none) ⊎ ((t : Session) × ((execute_request h request t).0 ≡ none))
  IsAnswered request (some reply) = reply.id ≡ request.id
