-- ===== src/Tools/Tests.antt =====
-- The tools of a program without commands, in a directory with one file.
use kontekst.Prelude.Int.{pos}
use kontekst.Prelude.{
  ◌≡◌, inl, inr, refl, sym, ap, ◌||◌, Bool, true, false, List, [], ◌∷◌, none, Bytes, bytes_eq,
  codes, length, if◌then◌else◌,
}
use kontekst.Core.{Message, ToolCall, Fields, no_fields, field, text, SkillMetadata}
use kontekst.Paths.{
  parts_from, parts_of, is_dot, is_dot_dot, go_up, clean_parts, join_parts, clean_relative,
  is_relative_path_safe, joined_parts, join_path, lookup, get_string_arg, validate_path,
}
use kontekst.EditFile.Tool.{missing, file, FileStore, write_file}
use kontekst.FileTools.Write.{make_directories, write_at, write_content, write_path, execute_write}
use kontekst.Conversation.Snapshot.{Snapshot}
use kontekst.Agent.Approvals.{Command, approve_tool}
use kontekst.Agent.Types.{Response, Reply, reply, error, Services}
use kontekst.Agent.Loop.{RunConfig}
use kontekst.Tools.Registry.{ToolContext, add_tool, get_tool, execute_found, execute_tool}
use kontekst.Tools.WebFetch.{HttpClient, WebRequest, WebResponse, web_fetch}
use kontekst.Tools.Requests.{IsFetch, web_fetch-IsFetch}
use kontekst.Tools.Builtin.{
  World, OwnFiles, ToolSetup, write_files, write_file_tool, read_file_tool, list_files_tool,
  edit_file_tool, web_fetch_tool, skill_tool, command_tool, register_all, setup_tools,
}
use kontekst.Tools.Sandbox.{Sandboxed, execute_tool-Confined}

abbrev done : {A : Type 0} → A → Reply Bytes
done result = reply (codes "done")

abbrev setup : ToolSetup
setup = record {
  base_dir = codes "/w";
  max_size_bytes = 100;
  web_config = record { timeout_seconds = pos 0; max_response_bytes = pos 0 };
  client = record {
    request_error = λ method url. none;
    send = λ request. error (codes "no network");
  };
  globs = λ files. record {
    glob = λ pattern. reply [];
    is_dir = λ path. none;
    relative = λ base path. path;
  };
  mkdir = λ path. none;
  lookup_env = λ key. none;
  exec = λ process files. (record { output = []; error = none }, files);
  texts = record {
    of_read = done;
    of_write = λ args. done;
    of_edit = λ args. done;
    of_command = done;
    edit_preview = λ tool working_dir files args. reply [];
  };
}

abbrev files : FileStore
files = record {
  at = λ path. if bytes_eq path (codes "/w/a.txt") then file (codes "a") else missing;
  write_error = λ path. none;
}

abbrev writes : (path : Bytes) → Fields
writes path =
    field (codes "path") (text path) (field (codes "content") (text (codes "new")) no_fields)

-- A conversation is the list of its messages.
abbrev world : World (List Message)
world = record { files = files; conversation = [] }

abbrev is_any : List Message → Bool
is_any [] = false
is_any (m ∷ ms) = true

-- The session file, which holds something once there is a message.
abbrev own : OwnFiles (List Message)
own = record {
  owns = bytes_eq (codes "/d/sessions/s1.jsonl");
  stored = λ ms path. if is_any ms then file (codes "{}") else missing;
  see = λ at ms. ms;
}

abbrev at_base : ToolContext (List Message)
at_base = record { working_dir = []; callbacks = none }

written_inside :
    execute_tool
      (setup_tools own setup [] [])
      (codes "write_file")
      (writes (codes "b.txt"))
      at_base
      world
    ≡ (
      reply (codes "done"),
      record {
        files =
            write_file
              (codes "/w/b.txt")
              (codes "new")
              (make_directories (λ p. true) (codes "/w/b.txt") files);
        conversation = [];
      },
    )
unfolding execute_tool execute_found get_tool add_tool setup_tools register_all write_file_tool
    write_files read_file_tool list_files_tool edit_file_tool web_fetch_tool skill_tool command_tool
    execute_write write_path write_content write_at parts_from parts_of is_dot is_dot_dot go_up
    clean_parts join_parts clean_relative is_relative_path_safe joined_parts join_path lookup
    get_string_arg validate_path bytes_eq
written_inside = refl

kept_outside :
    (execute_tool
      (setup_tools own setup [] [])
      (codes "write_file")
      (writes (codes "a/../../b.txt"))
      at_base
      world).1
    ≡ world
unfolding execute_tool execute_found get_tool add_tool setup_tools register_all write_file_tool
    write_files read_file_tool list_files_tool edit_file_tool web_fetch_tool skill_tool command_tool
    execute_write write_path write_content write_at parts_from parts_of is_dot is_dot_dot go_up
    clean_parts join_parts clean_relative is_relative_path_safe joined_parts join_path lookup
    get_string_arg validate_path bytes_eq
kept_outside = refl

execute_tool-Confined_example :
    Sandboxed own
      (codes "/w")
      files
      (execute_tool
        (setup_tools own setup [] [])
        (codes "write_file")
        (writes (codes "b.txt"))
        at_base
        world).1.files
execute_tool-Confined_example =
    execute_tool-Confined (List Message) own setup (codes "write_file") [] []
      (writes (codes "b.txt")) at_base world (inl refl)

abbrev call : ToolCall
call = record { id = codes "c1"; name = codes "write_file"; arguments = writes (codes "b.txt") }

-- The model asks for the tool once, and answers a context of more than two messages.
abbrev answer_to : List Message → Response
answer_to (m ∷ (n ∷ (o ∷ ms))) = record {
  content = codes "done";
  reasoning = [];
  tool_calls = [];
  completion_tokens = none;
}
answer_to messages = record {
  content = [];
  reasoning = [];
  tool_calls = call ∷ [];
  completion_tokens = none;
}

abbrev no_snapshot : Snapshot
no_snapshot = record {
  context_size = pos 0;
  system_tokens = pos 0;
  tool_tokens = pos 0;
  history_tokens = pos 0;
  memory_tokens = pos 0;
  total_tokens = pos 0;
  remaining_tokens = pos 0;
  history_messages = 0;
  memory_messages = 0;
  total_messages = 0;
  history_budget = pos 0;
  messages = [];
}

abbrev services : Services (List Message)
services = record {
  system_content = λ ms. [];
  start_run = λ params ms. (none, ms);
  complete_run = λ ms. ms;
  add_message = λ m ms. (none, m ∷ ms);
  build_context = λ ms. (reply ms, ms);
  take_snapshot = λ ms. no_snapshot;
  count_tokens = λ s ms. (pos (length s), ms);
  generate_chat = λ messages ms. (reply (answer_to messages), ms);
  tool_definitions_json = λ ms. codes "[]";
  execute = λ name args ms. (error [], ms);
  preview = λ name args ms. (reply [], ms);
  json_of = λ args. codes "{}";
}

abbrev config : RunConfig
config = record { context_size = pos 100; agent_name = codes "default" }

abbrev approve : Command
approve = record { kind = approve_tool; call_id = codes "c1"; reason = [] }

abbrev set_active : SkillMetadata → List Message → List Message
set_active skill ms = ms

abbrev page_of : WebRequest → WebResponse
page_of request = record {
  status = codes "200 OK";
  content_type = codes "text/plain";
  body = λ limit. reply request.url;
}

-- One of two clients answers requests of every method.
abbrev open_client : HttpClient
open_client = record {
  request_error = λ method url. none;
  send = λ request. reply (page_of request);
}

abbrev strict_client : HttpClient
strict_client = record {
  request_error = λ method url. none;
  send = λ request.
      if bytes_eq request.method (codes "GET") || bytes_eq request.method (codes "HEAD")
      then reply (page_of request)
      else error (codes "405");
}

clients_agree : (r : WebRequest) → IsFetch r → open_client.send r ≡ strict_client.send r
unfolding bytes_eq
clients_agree r fetch = elim fetch.reads [
  | inl get ↦ sym (
      ap
        (λ (m : Bytes).
          if bytes_eq m (codes "GET") || bytes_eq m (codes "HEAD")
          then reply (page_of r)
          else error (codes "405"))
        get)
  | inr head ↦ sym (
      ap
        (λ (m : Bytes).
          if bytes_eq m (codes "GET") || bytes_eq m (codes "HEAD")
          then reply (page_of r)
          else error (codes "405"))
        head)
]

abbrev page_args : Fields
page_args = field (codes "url") (text (codes "https://a.b/c")) no_fields

web_fetch-IsFetch_example :
    web_fetch open_client setup.web_config page_args
    ≡ web_fetch strict_client setup.web_config page_args
web_fetch-IsFetch_example =
    web_fetch-IsFetch open_client strict_client setup.web_config (λ method url. refl) clients_agree
      page_args
