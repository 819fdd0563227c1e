-- ===== src/RobotV6/Link/Prefix.antt =====
-- That the robot executes what the session numbered, in order and once each.
use radio_robot_lib.Prelude.{
  ℕ, zero, suc, ◌≤◌, ◌<◌, ◌≡◌, refl, sym, ap, ◌∙◌, subst, Bool, true, false, Option, none, some,
  List, [], ◌∷◌, ◌++◌, append_assoc, leb, ltb, ltb-false, leb→le, arith, Bool-cases, inl, inr, All,
  All-append, All-weaken,
}
use radio_robot_lib.Prelude.Text.{Text}
use radio_robot_lib.RobotV6.Session.{World, init}
use radio_robot_lib.RobotV6.Transport.{fresh}
use radio_robot_lib.RobotV6.Session.Pending.{Outbox}
use radio_robot_lib.RobotV6.Session.Pending.Order.{Ascends, Ascends-append, Ascends-weaken}
use radio_robot_lib.RobotV6.Session.History
use radio_robot_lib.RobotV6.Session.History.{Call, step, step-Keeps}
use radio_robot_lib.RobotV6.Session.Invariant.{IsWell, IsWell-stable, init-IsWell}
use radio_robot_lib.RobotV6.Session.Progress.{Advances-stable, Advances-refl}
use radio_robot_lib.RobotV6.Link.{
  accept, receive, System, Event, sends, pumps, polls, delivers, get_elem?, numbered_from, call,
  arrive, happen, happen_all, connected,
}

kept-Ascends : (lo a : ℕ) (p : Outbox) (hi : ℕ) → Ascends a p hi → Ascends a (numbered_from lo p) hi
unfolding numbered_from
kept-Ascends lo a [] hi h = h
kept-Ascends lo a ((i, line) ∷ p) hi (above, h) = elim (Bool-cases (leb lo i)) [
  | inl new ↦ rw new (above, kept-Ascends lo (suc i) p hi h)
  | inr old ↦ rw old (Ascends-weaken a (suc i) _ hi (omega arith) (kept-Ascends lo (suc i) p hi h))
]

pub numbered_from-Ascends :
    (lo a : ℕ) (p : Outbox) (hi : ℕ) → lo ≤ hi → Ascends a p hi → Ascends lo (numbered_from lo p) hi
unfolding numbered_from
numbered_from-Ascends lo a [] hi le h = le
numbered_from-Ascends lo a ((i, line) ∷ p) hi le (above, h) = elim (Bool-cases (leb lo i)) [
  | inl new ↦ rw new (leb→le lo i new, kept-Ascends lo (suc i) p hi h)
  | inr old ↦ rw old (numbered_from-Ascends lo (suc i) p hi le h)
]

pub Ascends-join :
    (lo : ℕ) (p : Outbox) (mid : ℕ) (q : Outbox) (hi : ℕ)
    → Ascends lo p mid
    → Ascends mid q hi
    → Ascends lo (p ++ q) hi
Ascends-join lo [] mid q hi le h = Ascends-weaken lo mid q hi le h
Ascends-join lo ((i, line) ∷ p) mid q hi (le, h) k = (le, Ascends-join (suc i) p mid q hi h k)

-- An entry's id is not below the start.
pub entry_above :
    (lo : ℕ) (p : Outbox) (hi n i : ℕ) (line : Text)
    → Ascends lo p hi
    → get_elem? p n ≡ some (i, line)
    → lo ≤ i
entry_above lo [] hi n i line h e = absurd (cc)
entry_above lo ((j, old) ∷ p) hi zero i line (le, h) e = ground (arith, e)
entry_above lo ((j, old) ∷ p) hi (suc n) i line (le, h) e =
    omega (arith, entry_above (suc j) p hi n i line h e)

-- The entry at the start is the first.
first_entry :
    (i : ℕ) (p : Outbox) (hi n : ℕ) (line : Text)
    → Ascends i p hi
    → get_elem? p n ≡ some (i, line)
    → (rest : Outbox) × (p ≡ (i, line) ∷ rest)
first_entry i [] hi n line h e = absurd (cc)
first_entry i ((j, old) ∷ p) hi zero line (le, h) e = (p, cc)
first_entry i ((j, old) ∷ p) hi (suc n) line (le, h) e =
    absurd (omega (arith, entry_above (suc j) p hi n i line h e))

-- An entry whose id is not among the past ones stands behind them.
behind :
    (p rest : Outbox) (n i bound : ℕ) (line : Text)
    → All (λ e. e.0 < bound) p
    → bound ≤ i
    → get_elem? (p ++ rest) n ≡ some (i, line)
    → (m : ℕ) × (get_elem? rest m ≡ some (i, line))
behind [] rest n i bound line past le e = (n, e)
behind ((j, old) ∷ p) rest zero i bound line (lt, past) le e = absurd (ground (arith, e))
behind ((j, old) ∷ p) rest (suc n) i bound line (lt, past) le e =
    behind p rest n i bound line past le e

-- What was executed is the log up to where the robot is, and what is ahead of it rises from the id
-- that it expects.
record IsLinked (sys : System) : Type 0 where
  ahead : Outbox
  logged : sys.log ≡ sys.robot.executed ++ ahead
  past : All (λ e. e.0 < sys.robot.expected) sys.robot.executed
  done : Ascends 1 sys.robot.executed sys.robot.expected
  rises : Ascends sys.robot.expected ahead sys.host.next_id
  well : IsWell sys.host

call-IsLinked : (w : World) (sys : System) (c : Call) → IsLinked sys → IsLinked (call w sys c)
unfolding call
call-IsLinked w sys c h =
    let host = step w sys.host c in
    let well = step-Keeps IsWell-stable w sys.host c h.well in
    let grown = (step-Keeps (Advances-stable sys.host) w sys.host c (Advances-refl sys.host)).ids in
    let fresh_lines = numbered_from sys.host.next_id host.pending in
    record {
      ahead = h.ahead ++ fresh_lines;
      logged =
          ap (λ l. l ++ fresh_lines) h.logged ∙ append_assoc sys.robot.executed h.ahead fresh_lines;
      past = h.past;
      done = h.done;
      rises =
          Ascends-join sys.robot.expected h.ahead sys.host.next_id fresh_lines host.next_id h.rises
            (numbered_from-Ascends sys.host.next_id 1 host.pending host.next_id grown
              well.ascending);
      well = well;
    }

-- The expected line, if it decodes, moves from what is ahead to what is done.
accept-IsLinked :
    (sys : System) (id : ℕ) (line : Text) (decodes : Bool) (rest : Outbox) (h : IsLinked sys)
    → id ≡ sys.robot.expected
    → h.ahead ≡ (id, line) ∷ rest
    → IsLinked (record sys { robot = (accept id line decodes sys.robot).0 })
unfolding accept
accept-IsLinked sys id line true rest h same first = record {
  ahead = rest;
  logged =
      h.logged
      ∙ ap (λ l. sys.robot.executed ++ l) first
      ∙ sym (append_assoc sys.robot.executed ((id, line) ∷ []) rest);
  past =
      All-append (λ e. e.0 < suc id) sys.robot.executed ((id, line) ∷ [])
        (All-weaken _ _ sys.robot.executed (λ e lt. omega arith) h.past) (omega arith, tt);
  done =
      subst (λ i. Ascends 1 (sys.robot.executed ++ (i, line) ∷ []) (suc i)) (sym same)
        (Ascends-append 1 sys.robot.executed sys.robot.expected line h.done);
  rises = (subst (λ p. Ascends sys.robot.expected p sys.host.next_id) first h.rises).1;
  well = h.well;
}
accept-IsLinked sys id line false rest h same first = record {
  ahead = h.ahead;
  logged = h.logged;
  past = h.past;
  done = h.done;
  rises = h.rises;
  well = h.well;
}

receive-IsLinked :
    (sys : System) (n id : ℕ) (line : Text) (decodes : Bool)
    → IsLinked sys
    → get_elem? sys.log n ≡ some (id, line)
    → IsLinked (record sys { robot = (receive id line decodes sys.robot).0 })
unfolding receive
receive-IsLinked sys n id line decodes h e = elim (Bool-cases (ltb id sys.robot.expected)) [
  | inl stale ↦ rw stale h
  | inr fresh_id ↦ elim (Bool-cases (ltb sys.robot.expected id)) [
    | inl gap ↦ rw (fresh_id, gap) h
    | inr next ↦
        let le = ltb-false id sys.robot.expected fresh_id in
        let same : id ≡ sys.robot.expected =
          omega (arith, le, ltb-false sys.robot.expected id next) in
        let (m, found) =
          behind sys.robot.executed h.ahead n id sys.robot.expected line h.past le
            (ap (λ l. get_elem? l n) (sym h.logged) ∙ e) in
        let (rest, first) =
          first_entry id h.ahead sys.host.next_id m line
            (subst (λ i. Ascends i h.ahead sys.host.next_id) (sym same) h.rises) found in
        rw (fresh_id, next) (accept-IsLinked sys id line decodes rest h same first)
  ]
]

arrive-IsLinked :
    (sys : System) (n : ℕ) (o : Option (ℕ × Text)) (decodes : Bool)
    → IsLinked sys
    → get_elem? sys.log n ≡ o
    → IsLinked (arrive sys o decodes)
unfolding arrive
arrive-IsLinked sys n none decodes h e = h
arrive-IsLinked sys n (some (id, line)) decodes h e = receive-IsLinked sys n id line decodes h e

happen_all-IsLinked :
    (w : World) (events : List Event) (sys : System)
    → IsLinked sys
    → IsLinked (happen_all w sys events)
unfolding happen_all happen
happen_all-IsLinked w [] sys h = h
happen_all-IsLinked w (sends verb fields ∷ events) sys h =
    happen_all-IsLinked w events _ (call-IsLinked w sys (History.sends verb fields) h)
happen_all-IsLinked w (pumps ∷ events) sys h =
    happen_all-IsLinked w events _ (call-IsLinked w sys History.pumps h)
happen_all-IsLinked w (polls ∷ events) sys h =
    happen_all-IsLinked w events _ (call-IsLinked w sys History.polls h)
happen_all-IsLinked w (delivers n decodes ∷ events) sys h =
    happen_all-IsLinked w events _ (arrive-IsLinked sys n _ decodes h refl)

connected-IsLinked : (max_pending cooldown : ℕ) → IsLinked (connected max_pending cooldown)
unfolding connected init
connected-IsLinked max_pending cooldown = record {
  ahead = [];
  logged = refl;
  past = tt;
  done = omega arith;
  rises = omega arith;
  well = init-IsWell fresh max_pending cooldown;
}

-- The abstract view: a queue of numbered commands, of which the robot has taken the first ones.
abbrev pub IsQueue : System → Type 0
IsQueue sys =
    Ascends 1 sys.log sys.host.next_id
    × ((ahead : Outbox) × (sys.log ≡ sys.robot.executed ++ ahead))

-- Over a link that loses, repeats, delays and reorders lines as it likes, and whatever the session
-- reads, sends and polls, the lines that the session numbered have strictly rising ids, and the
-- robot has executed a first part of exactly these lines: in the order of sending, none of them
-- twice, none left out before another. The robot starts from a fresh sequence and gets no `HELLO`.
pub happen_all-IsQueue :
    (w : World) (max_pending cooldown : ℕ) (events : List Event)
    → IsQueue (happen_all w (connected max_pending cooldown) events)
happen_all-IsQueue w max_pending cooldown events =
    let sys = happen_all w (connected max_pending cooldown) events in
    let h = happen_all-IsLinked w events _ (connected-IsLinked max_pending cooldown) in
    (
      subst (λ l. Ascends 1 l sys.host.next_id) (sym h.logged)
          (Ascends-join 1 sys.robot.executed sys.robot.expected h.ahead sys.host.next_id h.done
            h.rises),
      (h.ahead, h.logged),
    )
