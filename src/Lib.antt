-- ===== src/Lib.antt =====
-- OpenWave is a mixer for Elgato Wave microphones on PipeWire. Its crate crates/openwave-core
-- holds the decisions, as pure state and functions; crates/openwave-runtime runs them against USB
-- devices, ALSA and PipeWire; crates/openwave-desktop draws them. This library models the decisions
-- of the core and, of the runtime, what must hold in every order of events: the life of a command,
-- the sinks of the mixer, the recovery of a device and the saved files.
--
-- The parts and their files, with the code that each is about:
--
--   Model, Sources   crates/openwave-core/src/model.rs: error codes, results, observations that may
--                    be unknown, node identities, the saved sources and what discovery observes.
--   Matrix           crates/openwave-core/src/model.rs: stable ids, mixes, levels, the matrix of
--                    sends and the keys of its cells.
--   Snapshots        crates/openwave-core/src/model.rs: preferences, and units and captures as a
--                    client is shown them.
--   Scenes           crates/openwave-core/src/scenes.rs: the data of a scene, and
--                    pick_hardware_entry and resolve_hardware, which find the unit of an entry.
--   Effects          crates/openwave-core/src/effects.rs: FxSettings with validated, active and
--                    toggle, and the checks of a raw node.
--   Calibration      crates/openwave-core/src/calibration.rs: the measured proposals, analyze_tone and
--                    proposed_settings, which makes the settings of an accepted calibration.
--   Profiles         crates/openwave-core/src/profiles.rs: the table of devices, each with the
--                    layout of its legacy block, and the look-ups by name and by USB identity.
--   Protocol         crates/openwave-core/src/protocol.rs: validate_setting and, in
--                    Protocol/Config, the ConfigBuffer that decode fills, apply patches, state reads
--                    and blocks writes back; Protocol/Units: the enumeration of devices, the card of
--                    a unit and the device of a capture; Protocol/Alsa: meters and control ranges.
--   Routing          crates/openwave-core/src/routing.rs: Routing/Mutes is set_source_muted,
--                    Routing/Groups source_groups and switch_group, Routing/Output
--                    resolve_output_with_wave, Routing/Claims NormalizedMatcher and its claims, and
--                    Routing/Properties the names of nodes, properties and pulse_properties.
--   Health           crates/openwave-core/src/health.rs: GlitchWatch in Health/Glitch, StallWatch in
--                    Health/Stall, SinkStallWatch in Health/Sink, CaptureWatch, which joins the
--                    first two, in Health/Capture, and HealthWatch, which runs a check of the whole
--                    graph over all of them, in Health/Watch; Health/Graph is parse_health_graph, and
--                    Health/Parse the readers of pw-top, of a playback status and of mutes.
--   Recovery         crates/openwave-runtime/src/recovery.rs: Recovery/Session the Commands and the
--                    obligation that is pending, Recovery/Discovery what a target is known by, and
--                    Recovery/Steps cycle_card_with, recycle_sink_with and restore_with.
--   Store            crates/openwave-runtime/src/store.rs: prepare_atomic and Stored, with its load,
--                    prepare, publish and replace, over the disk of Store/Disk.
--   Controller       crates/openwave-runtime/src/controller.rs, controller/state.rs,
--                    controller/state/mutations.rs and, for the mark of a scene's request,
--                    controller/state/scene.rs: Controller/Requests and Controller/Keys the data
--                    of a command, Controller/Steps submit, accept, defer, operation_failure and
--                    finish_if_ready, Controller/Jobs queue_device and DeviceFinished, and
--                    Controller/Exit freeze, shutdown and the end of the loop.
--   Mixer            crates/openwave-runtime/src/mixer.rs: Mixer/Graph the observed graph and
--                    definition_matches, Mixer/Sinks fresh_cleanup_graph and observe_cookie,
--                    Mixer/Ensure ensure_sink, Mixer/Cleanup cleanup_sinks, Mixer/Restore
--                    restore_streams, which asks Routing/Output, and Mixer/Links link_nodes.
--   Prelude          tests, lists, maps, integers, bytes, texts, the interfaces of f64 and of JSON
--                    values, and functions that change a state and may fail (Prelude/Action), which
--                    the others share.
--
-- How the state corresponds: a struct is a record with the same fields, a handler that takes &mut
-- self is a function that returns the new record beside its answer, and Result is a data type of
-- Model. A HashMap or an IndexMap is a list of pairs in the order of insertion. Early returns are
-- branches of the same function. Effects on a graph or a device are the values that the functions
-- return: mute changes, output decisions, blocks to write, recovery decisions.
--
-- Numbers: u16, u32 and u64 are natural numbers, with the wrap-around or the saturation of the code
-- written out where it happens; i16, i32 and i64 are integers; a Duration is a count of
-- nanoseconds. f64 is a parameter, Prelude/Float: an order and an equality with the few laws of
-- IEEE 754 that the proofs use, arithmetic as opaque operations, and Rust's casts with the ranges of
-- their results. The integers instantiate it for the examples. A byte that the source reads out of
-- range would panic; the model reads 0. Every loop is structural recursion over its list or its
-- count of attempts, so that no fuel is used.
--
-- What the runtime does is an Action: a function of the state that answers a result and the new
-- state, also where it fails. A program that is called and a file that is written are logged or seen
-- in that state, so that a theorem can say what was done before what; the mixer's log also keeps what
-- it adopted and the graph that each move was decided on. Where events come in any order,
-- a data type Run lists the steps, and a theorem holds for every run. The only loop that is bounded by
-- a count is fresh_cleanup_graph, whose count is the attempts of the source.
--
-- Parameters stand for the case folding of the caseless crate, for serde_json's values (an interface
-- of their shape, with trees as an instance), their parsing and printing, for the digest of a mix, for
-- the ids that uuid and the names that tempfile draw, for what the commands of Recovery and the
-- backend of the mixer answer, for the outcome of each operation on a file, and for the text of a
-- rejected id in an error message.
--
-- Not modelled: the JSON decoders of the saved data, the rendering of effect chains, the measuring of
-- levels in calibration, the routes and effects of the mixer, what a command does to the stores, the
-- scenes in the runtime beyond the mark of their requests, and the rest of the runtime and the desktop crates, which are processes,
-- threads, USB and widgets around these parts.
pub mod Calibration
pub mod Controller
pub mod Effects
pub mod Health
pub mod Matrix
pub mod Mixer
pub mod Model
pub mod Prelude
pub mod Profiles
pub mod Protocol
pub mod Recovery
pub mod Routing
pub mod Scenes
pub mod Snapshots
pub mod Sources
pub mod Store
