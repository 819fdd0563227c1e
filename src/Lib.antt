-- ===== src/Lib.antt =====
-- A verification library for the host side of radio-robot-lib: the Python packages `robot_v6`, which
-- speaks protocol v6 to a robot, and `rogo`, the command line and the daemon on top of it.
--
-- The parts, from the wire up. `Codec` makes command lines and parses reply lines. A `Transport`
-- turns the chunks that a link reads into lines, and writes lines. A `Session` gives each command a
-- sequence id, keeps its line until the robot acknowledges it, and sends the lines from a gap on
-- again when the robot reports one. `Motion` names the commands. A daemon holds one session for
-- many clients: requests come in by a protocol of JSON lines, wait in a queue in which an emergency
-- stop goes first, and are dispatched by one worker thread to the session; the client side has a
-- stand-in for the session which turns each call into a request. A configuration file keeps what
-- was calibrated for a robot. The command line runs one command on a connection of its own, or many
-- lines on one connection in a repl; a server of tools does the same for an agent; a calibration
-- drives trials, asks for what was measured, and saves what comes out of it. At the other end of the
-- link the robot takes the numbered commands in order.
--
-- The files, with the source they are about:
--   Prelude, Prelude/*          numbers, lists and texts that all parts share
--   Python/*                    exceptions, methods that change an object, `str` and `int`, `split`
--   RobotV6/Codec, Codec/*      src/host/robot_v6/codec.py
--   RobotV6/Transport, ...      src/host/robot_v6/transport.py: class `Transport`, and how a serial
--                               port is read
--   RobotV6/Session, Session/*  src/host/robot_v6/reliability.py
--   RobotV6/Motion, Motion/*    src/host/robot_v6/motion.py
--   RobotV6/Link, Link/*        src/protocol/protocol_handler.cpp, the sequence, against the session
--   Rogo/Json                   what `json.loads` returns, and dictionaries of it
--   Rogo/Protocol, ...          src/host/rogo/daemon_protocol.py
--   Rogo/Daemon, Daemon/*       src/host/rogo/daemon.py, class `DaemonServer`
--   Rogo/Client, Client/*       src/host/rogo/daemon_client.py: requests, waits for replies, policy
--   Rogo/Client/Table, Values   the daemon's handlers, and `DaemonServer._execute` on them
--   Rogo/Client/Remote, ...     the remoted session against that daemon and its session
--   Rogo/Listener, Listener/*   src/host/rogo/daemon.py: the life of a listener, and the loop
--                               over the lines of a connection
--   Rogo/Naming, Naming/*       src/host/rogo/daemon.py, the name of a robot and its socket
--   Rogo/Target, Target/*       src/host/rogo/connection.py: the target, the simulator's build
--   Rogo/RobotConfig, ...       src/host/rogo/config.py
--   Rogo/Pumping, Pumping/*     src/host/rogo/cli.py and mcp_server.py, `_pump_until`
--   Rogo/Cli, Cli/*             src/host/rogo/cli.py
--   Rogo/Repl, Repl/*           src/host/rogo/repl.py
--   Rogo/Serve, Serve/*         src/host/rogo/cli.py, `serve`, and daemon_client.py, the worker
--   Rogo/TurnModel              src/host/rogo/turn_model.py
--   Rogo/Calibrate, ...         src/host/rogo/calibrate.py
--   Rogo/Mcp, Mcp/*             src/host/rogo/mcp_server.py
--   Rogo/Floats                 the float arithmetic of these
--   Tests/*                     the theorems at concrete inputs
--
-- A definition has the name of its function, without a leading underscore. A class is a record with
-- its attributes as fields, and a method is a function from the record to a result and the record
-- after it; an exception is a value of `Error`, and what was written before a raise stays written.
--
-- What the environment decides is a parameter. `World` gives the readings of the monotonic clock,
-- as whole numbers of one unit, and the chunks that are read, each by its number; theorems about
-- waits say what they need of the clock. A finite float is its `repr`, and the arithmetic that
-- `motion.py` does on floats is the record `FloatOps`; that of the other modules is `Floats`, on
-- the `repr` of a float. A command's result is its process code with a `Report`, the message that
-- it prints by name. The operator's answers and the files are part of the state of a calibration.
-- Texts are code points; digits are the ASCII ones. The threads of the daemon are lists of events,
-- one event for what a thread does between two points where another may run, and a dispatch ends
-- with an arbitrary outcome; theorems quantify over all lists. `abort.is_set()` is a function of
-- how often it was asked. What the daemon's handlers run on besides their session is the record
-- `Host`; the client's clock, its margin and the look that finds the reply are the record
-- `Caller`. A listener's calls and the rounds of its accept loop are events too, on a directory
-- and a path that several listeners may share. A serial port is the results of its reads, by their
-- number; a compiler is what it returns and the executable that it leaves, and `mkdir` succeeds or
-- raises.
--
-- The loops of the waits are recursions on fuel. For a wait with a timeout as many rounds are
-- enough as the clock has readings up to the deadline; for an aborted wait, one more round than
-- there were looks at the abort event before it was set; for a client's call, one more than rounds
-- before the clock has reached the deadline, and more than the number of the look that finds the
-- reply; for a command, one whose number of rounds takes at least the time-out on the clock; for a
-- daemon's wait, one more than looks before it is idle. The loop that drains the `get` lines goes
-- on as long as such lines come, and has no bound. Every other loop is structural recursion.
--
-- Over the link any line that the session has numbered may arrive at any time; ids do not wrap at 32
-- bits there.
--
-- Not modelled: sockets, pipes and child processes, which are I/O: a write succeeds, but for that
-- of a daemon's reply, a read is a result of the world, and the timeout of a read counts only on a
-- serial port; the hook `on_reply`, which is left unset; the text of JSON, which is the library's
-- (a line is the value that it is parsed to, or nothing); the loop of a daemon on the standard
-- streams; the order of the list inside a heap; the argument parser and the texts of messages;
-- Ctrl-C, but in a stream and in a daemon's wait; the library that runs the tools; the rest of the
-- firmware and of the simulator, which are in C++; the archived libraries.
mod Prelude
pub mod Python
pub mod RobotV6
mod Tests
pub mod Rogo
