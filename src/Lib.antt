-- ===== src/Lib.antt =====
-- A server for a desk robot: devices connect over WebSocket, send Opus audio and JSON messages, and
-- get speech, text and device commands back. The server of the directory main/xiaozhi-server runs as
-- one process (app.py) or as a cluster of cores and workers (core/cluster).
--
-- The parts that are modelled, with paths below main/xiaozhi-server:
--   Prelude, Dict, Text   what the modules share: Boolean tests and lists over native numbers, Python's
--                         `dict` with string keys as an association list in insertion order, and the
--                         cut of a text at a number of UTF-8 bytes; `Text.Words` has the other functions on texts.
--   Cache                 core/utils/cache (strategies.py, config.py, manager.py): the process-wide
--                         cache. `Cache.Manager` has one function for each method, from the state and
--                         the clock reading; `Cache.View` is what a reader can see.
--   VoiceTurn             core/cluster/voice_turn.py and the check of calls of core/cluster/
--                         tool_stream_protocol.py: a session's turns. `VoiceTurn.Control` has the methods that
--                         the transport calls, `VoiceTurn.Turn` the stages of a task, `VoiceTurn.Tools` the
--                         execution of tools, and `VoiceTurn.Runs` their interleavings.
--   Devices               core/connected_devices.py: the newest connection of each device. A handler
--                         is a number, which stands for the identity of the object.
--   Transport             core/cluster/transport_core.py: the frames of a connection after its hello, the
--                         check of audio frames, the clean-up, and the quota of connections.
--   Playback              core/cluster/tts_playback.py: the framing and the pace of a response's packets.
--   History               `SessionHistory` of core/cluster/memory_client.py: the completed turns.
--   Dialogue              core/utils/dialogue.py: the messages for the language model, and the answers made
--                         up for tool calls that were cut off.
--   Diagnostics           core/cluster/voice_diagnostics.py: the bounded list of events, and a peer's check.
--   SpeechText            core/utils/text_utils.py: what of a text is spoken, and the emotion that is shown; and
--                         the cut of a streamed text, of core/providers/tts/segmenter.py, in `SpeechText.Boundary`.
--   Segments              core/providers/tts/segmenter.py and first_segment.py, core/utils/soundbank_text.py,
--                         core/cluster/tts_segments.py and tts_turn.py: the segments of a streamed text.
--                         `Segments.FirstSegment` has the boundary of a first segment, `Segments.Buffer` the
--                         buffer, whose `pop` runs on fuel, one more than the characters that are left, and
--                         `Segments.Turn` the tasks of a turn, each of whose steps lies between two waits.
--   Synthesis             core/cluster/tts_protocol.py, tts_worker.py and tts_client.py: the sound of one segment.
--                         `Synthesis.Service` is the worker, whose events may come in any order, and
--                         `Synthesis.Fetch` the core that polls it.
--   CloudConfig           config/cloud_layers.py and merge_configs of config/config_loader.py: `CloudConfig.Layers`
--                         has the configuration of a node, from layers, and its updates.
--   Memory                core/explicit_memory.py and core/memory_schema.py: the facts to remember. `Memory.Entries`
--                         normalizes them, `Memory.Store` has the methods that change them, `Memory.Render`
--                         shows them within a budget.
--   LlmStream             core/cluster/llm_stream_protocol.py, llm_worker.py and llm_stream_client.py: a streamed
--                         text. `LlmStream.Sender` is the worker, also with an exception on the way, `LlmStream.Receiver` the core, and
--                         `LlmStream.Admission` the requests that the worker has taken.
--   AudioRate             core/utils/audioRateController.py: the queue that paces audio packets.
--                         `AudioRate.Loop` has one turn of the loops of `check_queue`, and its run
--                         over the clock readings that the event loop gives it.
--   LogBuffer             core/utils/ui_log_buffer.py: the bounded log of the settings page.
--
-- A time is a number of ticks of one clock. Locks and the single event loop make each method one step,
-- so that an interleaving is a sequence of calls. A loop over a container is structural recursion; the
-- loop of `check_queue` is a recursion on the readings, and enough of them are shown to drain it. What
-- the code takes from outside, such as the connection's `send_json`, is an argument of its definition.
-- A send to the device may fail: the argument `sends` says which messages get through. The stages of a
-- task stand for what the task does between two waits for a provider; a wait inside a control method
-- counts as part of its step. The match of wake words and the size of an encoded list of calls are
-- arguments too.
--
-- Not modelled: the calls that record diagnostics, and logging; the speech, language and vision providers, the tools and plugins, HTTP, WebSocket and
-- MQTT input and output, the storage of the configuration, and the web pages. They call services, models
-- and frameworks; their own logic is small beside those calls.
pub mod Prelude
pub mod Dict
pub mod Text
pub mod AudioRate
pub mod Cache
pub mod CloudConfig
pub mod Devices
pub mod Diagnostics
pub mod Dialogue
pub mod History
pub mod LlmStream
pub mod LogBuffer
pub mod Memory
pub mod Playback
pub mod Segments
pub mod SpeechText
pub mod Synthesis
pub mod Transport
pub mod VoiceTurn
