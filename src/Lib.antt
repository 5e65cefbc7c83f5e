-- ===== src/Lib.antt =====
-- whispy is a dictation daemon: a client sends commands over a socket, the daemon records the
-- microphone, has the clip transcribed by a local STT server, filters the transcript and pastes it
-- into the focused window, and publishes what it does in a state file for the UI. This library
-- models the core of it and proves what makes it correct.
--
-- The parts, and the files that model them:
--
--   Protocol    the commands, the replies and the published snapshot: crates/common/src/lib.rs.
--   Status      the published state, crates/daemon/src/state.rs. `Status` and `StatePublisher` are
--               one record with the state file; an operation here is one call there, made under the
--               `shared` lock (recording, transcribing, idle, success and error are named
--               set_recording and so on; `wake` is the body of the revert thread). Calls lists all
--               that may happen to it.
--   Filter      the hallucination filter, crates/daemon/src/filter.rs.
--   Session     the dictation session, crates/daemon/src/app.rs. State holds its types, the module
--               itself one function for each method of `App` and each callback of a capture. Steps
--               cuts the methods at the points where other threads may come in, and makes a step
--               relation of the pieces, whose runs are all the interleavings. Contract is the
--               session without clips, ports and threads, which Serves and Refines compare it with.
--   Server      the socket server, crates/daemon/src/server.rs.
--   Supervisor  the supervisor of the STT server, crates/daemon/src/stt_server.rs; Delays is its
--               backoff.
--   Proc        subprocesses with deadlines, crates/daemon/src/proc.rs.
--   Deadline    the polling loops that these two share.
--   Inference   the request that the daemon sends, crates/common/src/inference.rs.
--   Multipart   the server's parser of it, crates/stt/src/multipart.rs.
--   Stt         the daemon's client of the server, crates/daemon/src/stt.rs.
--   Reply       the server's reply, crates/stt/src/reply.rs.
--   Pipeline    what an accepted transcript goes through, crates/daemon/src/pipeline.rs; Phrases is
--               the replacement of phrases.
--   Vocab       the correction of custom words, crates/daemon/src/vocab.rs; Tokens is what it does
--               with one word, Score when a key is near enough, Fits which window is corrected,
--               Dressed what takes its place.
--   Llm         the workflow's endpoint, crates/daemon/src/llm.rs.
--   Audio       the sample loop of a capture, crates/daemon/src/audio.rs, with the settings that it
--               reads of crates/daemon/src/config.rs.
--   Choice      the keywords of the settings, the trait `ConfigChoice` of
--               crates/daemon/src/config.rs.
--   Display     the display server, crates/daemon/src/display.rs.
--   Engine      the STT engines, crates/daemon/src/engine.rs.
--   Config      the validation of the settings, crates/daemon/src/config.rs, over those it reads.
--   Desktop     the interface to the display server, the trait of crates/daemon/src/desktop.rs,
--               with the laws of a clipboard; Adapters are its Wayland and X11 adapters over the
--               tools they run.
--   Json        JSON values, which some of those tools print.
--   Inject      pasting and typing, crates/daemon/src/inject.rs, over that interface.
--   Transcripts the transcript log, crates/daemon/src/transcripts.rs.
--   Stats       its summary, crates/daemon/src/stats.rs.
--   Settings    the settings screen, crates/daemon/src/settings: Form is form.rs, Sources the
--               choices of sources.rs, and Editable the table of settings, their sections and the
--               writing of the file in editable.rs.
--   Host        what the machine has to provide, crates/daemon/src/host.rs.
--   Setup       the setup command, crates/daemon/src/setup.rs: Plan is the order of its steps,
--               Download the model's download, Indicators the edit of Omarchy's bar.
--   Text, Float what the source uses of the standard library: strings, UTF-8, comparison of floats.
--   Base        shared names, Boolean tests and list lemmas.
--   Tests       runs on concrete inputs.
--
-- The session calls the filter and the published state as app.rs does; the parser meets the encoder
-- in Multipart.RoundTrip, and the client of the daemon in Stt.Wire; the server's reply meets the
-- client's reading of it and the filter in Reply.Silence. The session takes the pipeline and the
-- injector as the answers of its delivery port. The server takes any handler of commands, and is
-- run with the session's in Tests.Server. The sections of the settings screen come from the
-- settings and the microphones, go through the form, and are written back in
-- Settings.Editable.Saving.
--
-- Conventions. A string is the list of its code points, or of its UTF-8 bytes where the source
-- works on bytes. A float is its bit pattern. A u64 counter wraps at 2 ^ 64. What a port, a clock
-- or the file system answers comes as an argument, and what is asked of a port is a list of events.
-- One call of an operation reads each clock once.
--
-- Bounds and fuel. The loop of the multipart parser has one unit of fuel for each byte of the body
-- and one more, and each round takes at least one byte, so it is never out of fuel
-- (Multipart.Fuel). The loops of Vocab and of Pipeline.Phrases have one unit for each token or
-- character and one more, and give an Option that is shown to be `some`. Results on the session
-- hold for fewer than 2 ^ 64 recordings, results on reverts for fewer than 2 ^ 64 - 1 calls during
-- a flash. A polling loop is a search in the list of what its looks see; that the list is long
-- enough for the deadline is a hypothesis on the clock (Deadline.Ticks), and `none` stands for a
-- list that is too short. A panic of the settings screen is `none` as well.
--
-- Not modelled. The Unicode tables (Text.Chars), float arithmetic (Float.Arith, Audio.Signal,
-- Stats.Mean), `strsim`, `serde_json`, the WAV codec and HTTP are parameters. The document of
-- `toml_edit` and the answers of files, sockets, processes, the network and the display are
-- arguments too. Left out are the wiring of the session's ports (`LivePorts`, `App::new`), files
-- and TOML (`Hallucinations::load`, loading the configuration), the drawing of the settings screen
-- and its meter, the builds and units of the setup, and what commands print.
mod Base
pub mod Text
pub mod Float
pub mod Protocol
pub mod Status
pub mod Filter
pub mod Session
pub mod Inference
pub mod Multipart
pub mod Vocab
pub mod Llm
pub mod Pipeline
pub mod Transcripts
pub mod Reply
pub mod Stats
pub mod Audio
pub mod Desktop
pub mod Inject
pub mod Stt
pub mod Json
pub mod Choice
pub mod Deadline
pub mod Supervisor
pub mod Proc
pub mod Settings
pub mod Display
pub mod Server
pub mod Host
pub mod Setup
pub mod Engine
pub mod Config
mod Tests
