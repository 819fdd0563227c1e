-- ===== src/Rogo/Client/Remote/Robust.antt =====
-- What the requests of clients, whatever they hold, can do to the session of a daemon of
-- src/host/rogo/daemon_client.py and src/host/rogo/daemon.py.
use radio_robot_lib.Prelude.{ℕ, Option, none, some, List, [], ◌∷◌, ◌≡◌, refl, Bool-cases, inl, inr}
use radio_robot_lib.RobotV6.Session.{Session, init}
use radio_robot_lib.RobotV6.Session.Invariant.{IsWell, IsWell-stable, init-IsWell}
use radio_robot_lib.RobotV6.Transport.{Transport}
use radio_robot_lib.Rogo.Client.Table.Kept.{Handler, table-FoundKeeps, execute_on-Keeps}
use radio_robot_lib.Rogo.Client.Table.{
  Host, session_dispatch_table, config, outcome_of, reply_with, execute_on, execute_request,
}
use radio_robot_lib.Rogo.Daemon.{Config, Outcome, returned, raised, execute}
use radio_robot_lib.Rogo.Json.{null}
use radio_robot_lib.Rogo.Protocol.{Request, Reply}

-- A dispatch answers under the id of the request, however it ends.
pub execute-id :
    (c : Config) (request : Request) (o : Outcome) → (execute c request o).id ≡ request.id
unfolding execute
execute-id c request (returned result) = elim (Bool-cases (c.registered request.verb)) [
  | inl known ↦ rw known refl
  | inr unknown ↦ rw unknown refl
]
execute-id c request (raised message type) = elim (Bool-cases (c.registered request.verb)) [
  | inl known ↦ rw known refl
  | inr unknown ↦ rw unknown refl
]

-- The requests of a history, each with what its handler runs on, executed one after the other.
unfoldable pub execute_all : List (Host × Request) → Session → List (Option Reply) × Session
execute_all [] s = ([], s)
execute_all ((h, request) ∷ rest) s =
    let (reply, t) = execute_request h request s in
    let (replies, u) = execute_all rest t in (reply ∷ replies, u)

-- A reply, if the dispatch came to an end, is under the id of its request.
abbrev pub IsUnder : Request → Option Reply → Type 0
IsUnder request none = Unit
IsUnder request (some reply) = reply.id ≡ request.id

abbrev pub AreUnder : List (Host × Request) → List (Option Reply) → Type 0
AreUnder [] replies = replies ≡ []
AreUnder (_ ∷ rest) [] = ⊥
AreUnder ((h, request) ∷ rest) (reply ∷ replies) = IsUnder request reply × AreUnder rest replies

module _ (h : Host) (request : Request) where
  reply_with-IsUnder : (o : Option Outcome) → IsUnder request (reply_with h request o)
  unfolding reply_with
  reply_with-IsUnder none = tt
  reply_with-IsUnder (some outcome) = execute-id (config h) request outcome

  pub execute_on-IsUnder :
      (found : Option Handler) (s : Session) → IsUnder request (execute_on h request found s).0
  unfolding execute_on
  execute_on-IsUnder none s = execute-id (config h) request (returned null)
  execute_on-IsUnder (some handler) s =
      reply_with-IsUnder (outcome_of h (handler request.params s).0)

executed-IsWell :
    (requests : List (Host × Request)) (s : Session)
    → IsWell s
    → IsWell (execute_all requests s).1 × AreUnder requests (execute_all requests s).0
unfolding execute_all execute_request
executed-IsWell [] s well = (well, refl)
executed-IsWell ((h, request) ∷ rest) s well =
    let found = session_dispatch_table h request.verb in
    let later = executed-IsWell rest (execute_on h request found s).1 (
      execute_on-Keeps IsWell-stable h request found s
        (table-FoundKeeps IsWell-stable h request.verb) well) in
    (later.0, (execute_on-IsUnder h request found s, later.1))

-- Whatever requests a daemon with a new session executes, of any verb and with any parameters,
-- malformed ones included, and whatever the robot sends meanwhile: the session stays well-formed, its
-- buffered ids rising, below the next id, at most `max_pending` of them and each at the end of its
-- own line; and each request that comes to an end has one reply, under its own id.
pub execute_all-IsWell :
    (requests : List (Host × Request)) (t : Transport) (max_pending resend_cooldown : ℕ)
    → IsWell (execute_all requests (init t max_pending resend_cooldown)).1
      × AreUnder requests (execute_all requests (init t max_pending resend_cooldown)).0
execute_all-IsWell requests t max_pending resend_cooldown =
    executed-IsWell requests (init t max_pending resend_cooldown)
      (init-IsWell t max_pending resend_cooldown)
