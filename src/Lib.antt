-- ===== src/Lib.antt =====
-- fw16_ledmatrix: the LED matrix panels of a laptop, from the configuration to the bytes on the
-- serial port, and from the desktop's commands to the daemon's answers.
--
-- The program's parts. crates/matrix-core renders frames and checks configurations and feeds; it
-- keeps no state. crates/matrix-daemon keeps the configuration store, reads the assistants' feeds and
-- the power supply, builds a snapshot every second, drives the panels and serves its clients over a
-- local socket; crates/matrix-client is the other end of that socket, starts a daemon where none
-- listens, and keeps one frame in flight; apps/desktop/src-tauri passes the user interface's commands
-- on to it; crates/matrix-claude writes one of the feeds.
--
--  * Base: Boolean tests, lists, texts, `str::trim` and loops that all parts share.
--  * Core.Frame: crates/matrix-core/src/lib.rs. Core.Layout: src/layout.rs, `render` in Layout.Render,
--    the areas that a slot may write in Render.Slots and Render.Area. Core.Config: src/config.rs,
--    `validate` in Config.Defs and what a configuration has to be in Config.Spec. Core.Assistant:
--    src/assistant.rs. Core.Brightness: src/brightness.rs. Core.Protocol: src/protocol.rs.
--  * Daemon.Store: crates/matrix-daemon/src/config.rs; the disk is the interface Store.Files, and
--    Store.History is every sequence of calls. Daemon.Feeds: src/feeds.rs. Daemon.Devices:
--    src/devices.rs, one panel and its job in Devices.Panel, the roles and ports in Devices.Route, the
--    map of the panels in Devices.Panels, what is sent to a port in Panel.Sending, the identification
--    of a port in Devices.Registry, every sequence of its calls in Registry.Holds, and
--    Devices.Identify, `list` in Devices.Listing, `shutdown` in Devices.Shutdown. Daemon.Clock: the tick
--    of src/main.rs. Daemon.Session: src/lib.rs, what a message does in Session, the sessions of all
--    clients as a step relation in Session.Steps, and the whole way from a command of the desktop to
--    the daemon and back in Session.Answers. Daemon.Power: src/power.rs. Daemon.Probe: src/probe.rs.
--  * Client.Messages, Wire, Check, Conversation: crates/matrix-client/src/lib.rs. Client.Failure:
--    src/failure.rs. Client.Flow: src/flow.rs. Client.Startup: src/startup.rs. Client.Local:
--    src/local/unix.rs.
--  * Desktop.Commands and Desktop.Bridge: apps/desktop/src-tauri/src/main.rs; every sequence of calls
--    on the bridge in Desktop.Calls.
--  * Claude: crates/matrix-claude/src/lib.rs, `update` on parsed data in Claude, with its files and its
--    lock in Claude.Files. Claude.Command: src/main.rs.
--  * Examples: the theorems at concrete inputs.
--
-- How the code is read. A struct is a record with the source's fields, an enum a data type; a method
-- that changes its object returns the new one. A panic (an index out of range, an `expect`) is `none`
-- of an outer option, and an error is a value. Numbers are natural numbers: a saturating, checked or
-- wrapping operation is written out, and `saturating_sub` is the subtraction that stops at 0. A text
-- is its UTF-8 bytes, a BTreeSet a list, an instant a number of milliseconds. Loops recurse on the
-- list or the range that they run over. Fuel is used five times: a decimal number has one more than
-- the number itself, `trim` as much as the text has bytes, the wait for a started daemon 161 rounds of
-- 50 milliseconds within its 8 seconds, the shutdown 251 rounds of 20 milliseconds within its 5, and
-- the wait for the helper's lock 26 rounds of 2 milliseconds within its 50.
--
-- Tasks. A step of Session.Steps is what one task does between two waits, since the store's lock is
-- taken and given back within it; which task goes next is free. A task that is aborted does nothing
-- more. A job runs alone on its panel, whose lock it holds; jobs of different panels share nothing
-- but the set of busy ports.
--
-- What is not the program's is a parameter: 64-bit floats (Layout.Float, of which only the range of
-- `as u8` is used, and Claude.Number, of which the rounding is bounded), the disk and the JSON codec
-- (Store.Files with its documented behaviour, Wire.Json),
-- the directories of the feeds (Feeds.FeedFiles), the serial port and the process list (Panel.Serial),
-- the answers of system calls (Local.Calls, Startup.Process, Conversation, Power.Supplies,
-- Claude.Files.UpdateCalls), and what tasks of other modules do meanwhile (Shutdown.Others).
--
-- Not modelled: the Windows pipes of crates/matrix-client/src/local/windows.rs, the choice of directories and endpoints, the command
-- line and the signals of the daemon, the timers around `scan` and `route`, and the user interface in
-- TypeScript.
pub mod Base
pub mod Core
pub mod Daemon
pub mod Client
pub mod Claude
pub mod Desktop
pub mod Examples
