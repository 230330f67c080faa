-- ===== src/Lib.antt =====
-- A model of lynne_social's modules: the data models, the configuration loader, the logger, the
-- storage, the scheduler, the browser manager, the LLM engine and the WebSocket client, with the
-- theorems on them.
--
-- The parts. Storage (JsonlStorage) keeps items, reports and summaries of a day on disk. The
-- scheduler (UvScheduler) runs posted callbacks, timers and blocking work on libuv's loop. The
-- browser manager (CdpBrowserManager) talks to Chrome over a WebSocket, from the scheduler's loop,
-- and hands out one context (CdpBrowserContext) for each platform. The LLM engine (DeepSeekEngine)
-- sends a chat as blocking work of its own scheduler. The WebSocket client (IxWsClient) posts what
-- the socket's thread receives to a scheduler, and calls its client from there. The configuration
-- loader (JsonConfigLoader) reads the settings of all of them from one JSON file, and the logger
-- (SpdlogLogger) writes what the LOG macros give it.
--
-- Files and sources.
--   Common: src/common/models.h and models.cpp.
--   Config, Config/Loader: src/wheel/config/, the structs with their from_json, and the methods of
--     imp/json_config_loader.cpp.
--   Logger, Logger/Macro: src/wheel/logger/, the methods of imp/spdlog_logger.cpp over the record
--     Spdlog, whose laws are that library's documented behaviour (Logger/Example is an instance),
--     and logger_macros.h.
--   Storage, Storage/Fs, Storage/Lines: src/wheel/storage/, one function for each method of
--     imp/jsonl_storage.cpp; Fs is the part of std::filesystem and of the streams that it uses.
--     Storage/Archive says without files what the storage is to keep.
--   Scheduler, Scheduler/Loop, Scheduler/Config: src/wheel/scheduler/, the methods of
--     imp/uv_scheduler.cpp and the static callbacks that libuv calls. Scheduler/Timetable says
--     without handles which jobs it is to have.
--   Browser and its children: src/wheel/browser/. State is imp/cdp_browser_manager.h; Pages the
--     methods of CdpBrowserContext; Contexts do_get_context and the contexts' lives; Commands
--     send_command, the event handlers and the WebSocket callback; Messages on_ws_message and the
--     loop's side; Callbacks the lambdas that wait for a reply; Lifecycle start, stop and
--     health_check; Launch launch_chrome and http_get, over what the system answers; Sessions
--     save_session and restore_session; Selector, Base64 and Scripts the texts; Config
--     browser_models.h and browser_models.cpp.
--   Llm, Llm/Url: src/wheel/llm/, DeepSeekEngine and parse_base_url; Llm/Hosted is the engine with
--     its UvScheduler.
--   WsClient: src/wheel/ws_client/, IxWsClient; WsClient/Hosted is the client over any scheduler
--     that keeps IsPosting, as UvScheduler does (Scheduler/Api, Scheduler/Posting).
--   Json: the calls of nlohmann::json, as a record that all the others take as a parameter; its
--     laws are the library's documented behaviour, and Json/Example is an instance.
--   The other files hold proofs, named for what they are about; Tests holds runs at one input.
--
-- How the code is read. A text is the list of its bytes. A method that changes state takes the
-- state and returns the new one; where it may throw, the result stands beside the state, and `none`
-- is an exception. A lambda is a constructor with what it captures, and a client's callback is a
-- number whose calls are recorded; what a client does in a callback comes as later operations. In
-- the scheduler a callback is a number too, and a parameter says which scheduler calls it makes.
-- Pointers are addresses in a heap, and a field tells whether a freed one was used. libuv's contract
-- stands in the premises of the scheduler's steps: a timer fires only while its handle is open, and
-- its close callback comes after the close. `fault` speaks of timer handles and their contexts, and
-- `async_fault` of the async handle (Scheduler/Restart). The counter of after() is static: calls of
-- after on other schedulers are calls of their own, `calls_after_elsewhere`, before and between
-- those of the one that is modelled.
--
-- Bounds. `decimal` has ten digits of fuel, which every `int` fits in, and the reader of
-- Json/Example the length of its text. The 60 polls and the 5 requests of launch_chrome are the
-- source's own counts. base64_decode keeps the 32 bits of its `int`.
--
-- Not modelled. Path names . and .., which are not resolved; the process of an earlier launch
-- when start is called again before the launch has ended and no child is made; when the loop
-- picks a timer, and time but for wait_for_selector; a full disk, names that the system refuses,
-- and files that cannot be opened in the storage; JSON values outside RFC 8259, such as NaN,
-- which nlohmann::json can hold; empty std::function values in the browser; ids that reach 2^31
-- and timeouts that reach 2^63; what Chrome, its HTTP server and the HTTPS server of the LLM
-- engine do, whose answers are arguments; the console sink of the logger and the wording of its
-- lines; that the other modules call the LOG macros.
mod Prelude
pub mod Json
pub mod Common
pub mod Config
pub mod Logger
pub mod Storage
pub mod Scheduler
pub mod Browser
pub mod Llm
pub mod WsClient
mod Tests
