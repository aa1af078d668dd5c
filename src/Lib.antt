-- ===== src/Lib.antt =====
-- Verification library of the mobile-edge-computing system: a central controller that decides when
-- users' services (docker containers) migrate between edge servers and when users hand over
-- between base stations, and the edge servers that run the services.
--
-- The parts and their files. The central controller (centralized_controller.py) is in
-- `Controller`: `State` is its object with the messages that it publishes and the timers that it
-- starts, `Word` the six bits of a user's migration state, `Triggers` the timers' callbacks,
-- `Plans` the planning rounds (run_optimization_planner, trigger_other_planners), `Reports` the
-- handlers of the reports on a move, `Discovery` the requests and the leaving of users, `Servers`
-- the registration, the monitors and the loss of edge servers, `Monitors` the reports that may
-- start a planning round, `Records` those that only reach the database. `Rounds`, `Cycles` and
-- `System` put these together: sequences of rounds and timers, whole episodes, and the step
-- relation over the handlers. It asks a planner
-- (`Planner`: `Lifetime` and `Plans` of planner.py, `Optimizing` and `Differences` of
-- optimization_planner.py, over the look-ups `Stats` of stats_edge.py with what
-- they say of the `Signals`, and `DataRate` of stats_edge.py
-- and communication_models.py) and keeps what it learns in the central database
-- (central_database.py, `Database`): `Rows` are the mapped classes, `Estimate` the estimated times
-- of a user, `Queries`, `Updates` and `Servers` the methods, `History`, `Migrations` and
-- `Containers` what is made of the monitors' and the migrations' reports, and `Handover` the
-- forecast of handovers with the geometry of estimator.py. An edge server (edge_controller.py) keeps two
-- registries (edge_servers.py, edge_services.py) of neighbours and of service descriptions
-- (migrate_node.py), in `Edge`; its handlers are `Edge.ControllerServer`: `Deploy` starts and
-- removes services, `Moves` sends and receives them and counts their requests, `Reports` tells of
-- neighbours and migrations, and `Services` has the look-ups of utilities.py. The commands that
-- these handlers put into the source's queue are carried out in `Migration`: `Source`
-- (migrate_source.py) and `Dest` (migrate_dest.py) are the two ends with their state (`State`),
-- over the commands on containers and folders (migrate_controller.py, `Commands`) and the
-- differences of folders (diff_patch.py, `DiffPatch`); `Datagrams` is what the source sends and how
-- the destination reads it, `Measuring` the two checkpoints before a migration, and `Relocation` a
-- migration as a whole against its specification `relocate`. `Protocol` is the framing of messages
-- over TCP (edge_protocol.py), on the byte strings of `Bytes`. `Examples` applies the theorems to
-- a small system.
--
-- How code is read. A method that changes an object returns the new object; one that may raise is
-- an `Action` of `Effects`, whose state comes back after an exception too. Handlers take the
-- decoded payload of a message: a text that is no YAML is logged and changes nothing. Logging is
-- left out. What comes from outside the repository is the record `Platform`: Python's floats with
-- their operations, and the tables that SQLAlchemy keeps, with what it documents of a look-up
-- after a write; `Docker` is the daemon of an edge server's host, `Random` the choices of
-- `random`, and query_neighbor's grouped query is a parameter too. `IsOrdered` is the order of
-- floats that are not NaN. For a migration the tools `xdelta`, `rsync` and `du`
-- and the existence of checkpoint folders are the record `Tools`, with what the first two document
-- (`IsDocumented`), and the command line of docker is `Daemon`; a folder is
-- the list of its files, by name, and holds no folders itself; the parallel work on the files of a
-- folder is done in the order of the list. The loops are recursions on lists and take no fuel, but
-- for the two loops of client_thread: they read at least a byte in a round, so a fuel above the
-- length of the frame is enough.
--
-- Not modelled: the MQTT client, the measurements of the monitors, update_rssi_monitor with its
-- regressions (a parameter of `Controller.Monitors`), the cost functions of stats_edge.py, the
-- methods of MigrateSource and MigrateDest that no command calls, the
-- backups of checkpoint folders and the measured times, the simulated end users, plots and log
-- analysis. Where a timer holds the JSON object
-- of a handover that the plan holds too, a later change of its elapsed time does not reach the
-- timer's copy.
pub mod Prelude
pub mod Platform
pub mod Effects
pub mod Bytes
pub mod Protocol
pub mod Edge
pub mod Migration
pub mod Database
pub mod Planner
pub mod Controller
pub mod Examples
