-- ===== src/Lib.antt =====
-- llama-cli, a terminal assistant in C++: a verification library of its core logic.
--
-- Text is a list of bytes, `std::string::npos` is `none`, and positions are native numbers. A C++
-- exception, signed overflow or a read outside a container is a value of the result type wherever
-- the code can meet it; the line number of `<add_line>` and the bits of an image wrap around instead.
-- The counters of nested braces have no bound, as they overflow only behind 2 ^ 31 - 1 open ones. A loop runs on fuel, a round for each byte and one more where the loop moves
-- through a text; a theorem says that this is enough, and where none can the loop is shown to run on.
--
-- Parts, with the files of the repository that they model:
-- - Base: what the parts share. `Base.Bytes` is `std::string` with `find`, `substr` and comparison,
--   `Base.Search` its laws; `Base.Collect` is the loop of every scanner of annotations with its
--   termination; `Base.Words` is `std::getline` and the like, `Base.Int` an `int` counter.
-- - Json (src/json/json.cpp): `Json.Scan` finds a key, `Json.Strings`, `Json.Numbers` and
--   `Json.Braces` read its value, `Json.Escape` writes and reads escapes. `Json.Reading`,
--   `Json.Hex`, `Json.RoundTrip` and `Json.Objects` hold the proofs.
-- - Annotation (src/annotation/annotation.cpp): `Annotation.Block` finds attributes and blocks,
--   `Annotation.Parse` has the seven parse functions over it, `Annotation.Strip` the summaries.
--   `Annotation.Repair` is `fix_malformed_tags`. `Annotation.Total`, `Shift`, `Found`, `Attr`,
--   `RoundTrip`, `Runaway` and `Repaired` hold the proofs. The
--   theme's escape sequences are arguments.
-- - Sync (src/sync/sync.cpp, src/sync/sync_annotations.cpp): `Sync.Caps`, `Sync.ReadOnly`,
--   `Sync.Paths` and `Sync.Tags` are the tests and scanners of sync.cpp, `Sync.Lines` the edits of a
--   file's content, `Sync.Process` the whole of `process_sync_annotations`, which uses Annotation for
--   its input. The file system, `realpath` and the shell are a record of operations (`System`). The
--   proofs are in `Sync.Safety`, `Sync.Granted`, `Sync.Commands` and `Sync.Editing`.
-- - Provider (src/provider/multi_host_provider.cpp): `Provider.MultiHost` is `MultiHostProvider`, its
--   constructor, `failover` and requests; the servers are a record of requests that change a world
--   (`Backend`). The proofs are in `Provider.Failover`, `Routing`, `Models` and `Calls`.
--   `Provider.Registry` is registry.cpp, over what it asks of the machine; `Provider.Fastest` and `Catalog`
--   hold its proofs, the loop over a catalog having a round for each byte.
-- - Tui (src/tui): `Tui.Table` is table.cpp, `Tui.Lines` the block rules of markdown.cpp, `Tui.Stream`
--   the `StreamRenderer` of markdown_stream.cpp, over a record of what it calls and of where that throws
--   (`Display`); a call that throws gives the state of that moment (`Flushed`). The proofs are in
--   `Tui.Cells`, `Visible`, `Aligned`, `Feed`, `Hidden` and `Streaming`.
-- - Util (src/util/util.cpp): `Util.Encode`, `Util.Colors` and `Util.Resolve` with its cache as a
--   state; `Util.Shell`, `Url` and `Ansi` hold the proofs.
-- - Orchestrator (src/orchestrator/task.cpp): `Orchestrator.Task` has the plans and `parse_task_plan`,
--   `Orchestrator.Plans` its proofs, `Orchestrator.Serialize` is `serialize_task_plan`.
--   `Orchestrator.Template` (prompt_template.cpp) fills in templates, a round of its loop for each byte
--   being enough; `Orchestrator.Render` has its proof. `Orchestrator.Orchestrate`
--   (orchestrator.cpp) chooses the agent of a complex prompt, `Orchestrator.Subagent` (subagent.cpp) calls it.
-- - Planner (src/planner/planner.cpp): `Planner.Classify` is `classify_prompt`, `Planner.Route` the choice of a
--   host and a model, over a function that gives the models of a server and the
--   floating-point numbers (`Doubles`).
-- - Session (src/session/session.cpp): `Session.Store` saves and loads the text of a file, with the
--   reader and the escapes of Json; `Session.Reload` holds the proofs.
-- - Command (src/exec/exec.cpp, src/command/command.cpp): `Command.Exec` is `cmd_exec` over the lines
--   that the process gives, `Command.Input` is `parse_input`, `Command.Read` is `cmd_read`;
--   `Command.Output` and `Command.Typed` hold the proofs.
-- - Agent (src/orchestrator/agent_config.cpp): `Agent.Config` has the agents with their permissions and
--   the reader of agents.yml, `Agent.Persona` (src/agent/agent.cpp) the reader of personas.yml.
-- - Config (src/config): `Config.Delegation` is delegation.cpp. Of config.cpp, `Config.Settings` has the
--   record of all settings, `Config.Dotenv` the file `.env` and the environment, `Config.Options` the
--   command line, `Config.Store` validation, `load_config` and `save_to_dotenv`, `Config.Hosts` the
--   registry of hosts. `Config.View` is the map that a file `.env` stands for, with `Config.Refines`;
--   `Config.Layers`, `Given`, `Precedence`, `Valid` and `HostPort` hold the other proofs.
-- - Repl (src/repl): `Repl.Console` has the state of the interactive mode and the system as a record of
--   operations (`Desk`). `Repl.Confirm`, `Diff`, `Apply` and `Files` are repl_annotations.cpp, `Repl.Response`,
--   `History`, `Prompt` and `Chat` are `handle_response` and `send_prompt` of repl_chat.cpp, over Annotation,
--   Sync.Tags, Agent, Config and Command.Exec. The trace of the state is no part of the program: it records
--   questions with their answers, writes, commands and tasks. A question takes one line of the input, so its
--   loop recurs on these. `Repl.Consent`, `Changes`, `Consented` and `Turn` hold the invariant of the trace,
--   `Repl.ReadOnly` and `Interrupt` the other proofs. The call of the model is an argument.
--   Of repl_commands.cpp and repl.cpp, `Repl.Panel` is what the commands see and change, with what else they call
--   (`Outside`), `Options`, `Notes`, `Switch`, `Hosts`, `Providers`, `Context`, `ChatFiles`, `Agents` and `Review`
--   are their handlers, `Chats` and `Base64` the formats that they write, `Commands` is `dispatch_command` and
--   `Loop` the loop with the dispatch of a line. A round of the loop takes a line, so that its rounds bound the lines
--   of the user and nothing else. `Session` lifts the invariant of the trace to it; `Reload`, `Fits`, `Picked`
--   and `Rated` hold the other proofs.
-- - Tests: runs at concrete inputs.
--
-- Not modelled: terminal and network input and output, logging, the HTTP library, regular
-- expressions (src/util/pii.cpp), the template of `print_default_env`, rendering inside of a
-- line, highlighting and diagrams, the choice of models on a terminal and the web search
-- (src/repl/repl_model.cpp, repl_search.cpp), the commands /color, /theme and /browse, which change
-- colours and print, the requests of src/ollama, the metrics of models, and the
-- single providers.
mod Base
pub mod Json
pub mod Annotation
mod Tests
pub mod Sync
pub mod Provider
pub mod Tui
pub mod Util
pub mod Orchestrator
pub mod Session
pub mod Command
pub mod Agent
pub mod Config
pub mod Planner
pub mod Repl
