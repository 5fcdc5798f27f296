-- ===== src/Lib.antt =====
-- Kontekst, a local AI agent (Go). This library models its core as functions and proves what makes
-- them correct.
--
-- Diff models internal/tool/diff/diff.go. Diff/Lcs has the table and the walk of computeLCS,
-- Diff/Changes findChanges, Diff/Hunk one structured hunk (formatStructuredHunk and its helpers),
-- Diff/Text the text form (GenerateUnifiedDiff and formatHunk), Diff/Structured the grouping into
-- hunks and the summary, and Diff/Split SplitLines with assembleContent of
-- internal/tool/builtin/edit_file.go.
-- Hashline models internal/tool/hashline/hashline.go, the CRC-32 included.
-- EditFile models internal/tool/builtin/edit_file.go: EditFile itself the checks and the application
-- of edits, EditFile/Arguments parseEdits, EditFile/Tool prepareEdits and Execute over a store of files.
-- It uses the lines of Diff, the hash of Hashline and the path checks of Paths (builtin.go there).
-- FileTools models the other tools on files over a store with directories (Files): FileTools/Read
-- read_file.go, FileTools/Write write_file.go, FileTools/Listed list_files.go.
-- Command models internal/command (Manifest: loader.go and command.go, Registry: registry.go) and
-- internal/tool/builtin/command.go (Environment, Tool), whose runs of a process are a parameter.
-- Tools models internal/tool/tools.go (Registry) with the skill tool (Skill, builtin/skill.go) and
-- web_fetch (WebFetch, builtin/web_fetch.go) of internal/tool/builtin. Builtin registers all the tools
-- as internal/app/setup.go does, over a World of files and a conversation, and Executor gives them to
-- the agent, for the record Services of Agent. The files that the conversation keeps (OwnFiles: its session
-- file, the request logs of its provider) are among those of the World.
-- Core has the data of internal/core/types.go, Core/Ids the ids of internal/core/id.go. Provider models
-- internal/provider/normalize.go and validator.go, which prepare and check the messages of a request.
-- Conversation models internal/conversation: File the session file and LoadTail, Window the methods
-- of the window (StartRun, AddMessage, BuildContext and the rest), Snapshot its snapshot. JSON
-- encoding and decoding of a message are parameters, `encode` and `parse`; `encode` has the errors of
-- opening the file and of Encode, which may leave a part of a line.
-- Agent models internal/agent: Approvals (approvals.go) the batch of pending calls and
-- collectApprovals, Tools (tools.go) executeTools, Loop (agent.go) the loop of a run, Types the
-- events and the interfaces, Registry (registry.go, with internal/config/agent/config.go) the
-- configurations of the agents on disk, Runner (runner.go) the start of a run and what it passes on.
-- The loop uses Conversation and Provider's server only through the record Services, which a run of
-- the tests fills with the window of Conversation.
-- Skill models internal/skill: Render (render.go) the arguments and the body of a skill, Loader
-- (loader.go) a skill's file, Registry (registry.go) the skills of a directory.
-- Session models internal/session: Service is file_sessions.go over a disk.
-- Protocol models internal/protocol. Messages has the JSON-RPC messages. Connection (jsonrpc.go, its
-- state in Calls) is a step relation, whose actions are the critical sections, sends and receives of the
-- callers, of the read loop and of Close, in any order. Server (server.go) handles the events of one
-- run: what the server sends as notifications, asks the client, and commands the run to do. Permission,
-- Sessions and Requests have the data of internal/protocol/types. Methods has the handlers of server.go
-- that answer at once, Handler session/prompt and Dispatch, over the sessions held.
--
-- Go strings and byte slices are lists of byte values (Bytes), lines are lists of those. An `int`
-- that may be negative is an integer, any other a natural number. A map is an association list or a
-- function from its keys. Loops over slices recur on lists. The loop of formatStructuredHunk runs on
-- fuel: one round for each old line of the hunk and each change, and one more, is enough, since each
-- round takes a change or a line.
-- The loop of LoadTail runs on fuel: a round reads at least one byte, so the length of the file is
-- enough for any positive size of the chunks.
-- The loop of the agent runs on fuel, one for each answer of the model, which may ask for tools for
-- ever: the fuel is any number, and a run that used it up is told apart (Progress).
-- strings.TrimSpace and strings.ToUpper are written for ASCII. A number of JSON is an exact decimal,
-- and int of it its whole part, of any size, where Go rounds to a float64 and cuts to 64 bits.
-- filepath.Join is written for a base directory that is absolute: a relative one is read as under the
-- root. An os.WriteFile that fails may leave anything at its path; os.MkdirAll makes the missing
-- directories in front of a path, or some of them where it fails. A directory is a path that cannot be
-- read.
--
-- Parameters: the TOML library (what it decodes from a file), JSON (what a line, a request or a file of
-- metadata decodes to), the processes a command starts, the paths a glob matches, the answers of the
-- model, of the client and of the web, the time and random bytes of ids, and the format of times.
--
-- Not modelled: the wrap-around of 64-bit counters of tokens and lines; errors in the middle of
-- reading a file; errors of os.Stat on a session file other than that it is missing; a full command
-- channel (sendCommand never blocks here; in the code it has 16 places, and waits for a reader); two
-- prompts at once in one session, of which the first is taken to be answered before the next; symbolic
-- links below a directory; the descriptions of tools, the schemas of their parameters and the wording
-- of the results of the file tools; the tools that run in the client (internal/protocol/executor.go,
-- client.go); and the parts that are I/O or glue (the HTTP client of the model server,
-- internal/config, internal/cli, internal/app but for the registration of tools).
pub mod Prelude
pub mod Diff
pub mod Hashline
pub mod EditFile
pub mod Core
pub mod Provider
pub mod Conversation
pub mod Agent
pub mod Paths
pub mod Skill
pub mod Protocol
pub mod Files
pub mod FileTools
pub mod Command
pub mod Session
pub mod Tools
