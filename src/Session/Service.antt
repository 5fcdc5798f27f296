-- ===== src/Session/Service.antt =====
-- Sessions as files of a directory, internal/session/file_sessions.go and session.go. JSON and the
-- format of times are parameters.
use kontekst.Prelude.{
  ℕ, suc, not, ◌||◌, List, [], ◌∷◌, ◌++◌, Option, none, some, Bytes, codes, bytes_eq, length, ltb,
  ◌==◌, if◌then◌else◌,
}
use kontekst.Prelude.Strings.{has_prefix, trim_prefix, has_suffix, trim_suffix, cut_at}
use kontekst.Paths.{join_path}
use kontekst.Files.{Entry, Listing, no_directory, unlisted, entries, is_stored}
use kontekst.EditFile.Tool.{WriteFailure, Stored, missing, unreadable, file}
use kontekst.Agent.Types.{Reply, reply, error}

-- The file system: what stands under a path, when it was written last, the time, and the errors of the system
-- for a directory, for opening, for writing and for removing. Opening a file that is there creates
-- nothing.
pub record Disk : Type 0 where
  pub at : Bytes → Stored
  pub modified : Bytes → ℕ
  pub now : ℕ
  pub mkdir_error : Bytes → Option Bytes
  pub open_error : Bytes → Option Bytes
  pub write_error : Bytes → Option WriteFailure
  pub remove_error : Bytes → Option Bytes

abbrev pub put_at : (path : Bytes) → Stored → Disk → Disk
put_at path stored disk = record disk {
  at = λ p. if bytes_eq p path then stored else disk.at p;
  modified = λ p. if bytes_eq p path then disk.now else disk.modified p;
}

unfoldable pub session_dir : (base_dir : Bytes) → Bytes
session_dir base_dir = join_path base_dir (codes "sessions")

unfoldable pub session_path : (base_dir id : Bytes) → Bytes
session_path base_dir id = join_path (session_dir base_dir) (id ++ codes ".jsonl")

unfoldable pub meta_path : (base_dir id : Bytes) → Bytes
meta_path base_dir id = join_path (session_dir base_dir) (id ++ codes ".meta.json")

pub data SessionError : Type 0 where
  directory_failed create_failed ensure_failed : (error : Bytes) → SessionError
  meta_unread meta_invalid meta_unwritten : (error : Bytes) → SessionError
  not_found : (session_id : Bytes) → SessionError
  delete_failed meta_delete_failed list_failed : (error : Bytes) → SessionError

pub data SessionResult (A : Type 0) : Type 0 where
  ok : A → SessionResult A
  fails : SessionError → SessionResult A

-- O_CREATE with O_EXCL: a path that is there is an error.
unfoldable pub create_exclusive :
    (id path : Bytes) → Option Bytes → Disk → SessionResult (Bytes × Bytes) × Disk
create_exclusive id path (some e) disk = (fails (create_failed e), disk)
create_exclusive id path none disk =
    if is_stored (disk.at path)
    then (fails (create_failed (codes "file exists")), disk)
    else (ok (id, path), put_at path (file []) disk)

-- O_CREATE
unfoldable pub create_missing : (path : Bytes) → Option Bytes → Disk → SessionResult Bytes × Disk
create_missing path (some e) disk = (fails (ensure_failed e), disk)
create_missing path none disk =
    (ok path, if is_stored (disk.at path) then disk else put_at path (file []) disk)

-- The text of a metadata file and its field `default_agent`.
pub record MetaCodec : Type 0 where
  pub decode : Bytes → Reply Bytes
  pub encode : (default_agent : Bytes) → Bytes

pub record Info : Type 0 where
  pub id : Bytes
  pub default_agent : Bytes
  pub message_count : ℕ
  pub file_size : ℕ
  pub created_at : Option ℕ
  pub modified_at : ℕ

unfoldable pub count_newlines : Bytes → ℕ
count_newlines [] = 0
count_newlines (c ∷ bytes) = let rest = count_newlines bytes in if c == 10 then suc rest else rest

unfoldable pub count_lines : Stored → ℕ
count_lines missing = 0
count_lines (unreadable e) = 0
count_lines (file bytes) = count_newlines bytes

unfoldable pub size_of : Stored → ℕ
size_of missing = 0
size_of (unreadable e) = 0
size_of (file bytes) = length bytes

unfoldable pub agent_or_empty : SessionResult Bytes → Bytes
agent_or_empty (ok name) = name
agent_or_empty (fails e) = []

-- Sorted by the time of the last change, the latest first; the order of equal times is left open.
unfoldable pub insert_info : Info → List Info → List Info
insert_info i [] = i ∷ []
insert_info i (j ∷ infos) =
    let rest = insert_info i infos in
    if ltb i.modified_at j.modified_at then j ∷ rest else i ∷ j ∷ infos

unfoldable pub sort_infos : List Info → List Info
sort_infos [] = []
sort_infos (i ∷ infos) = insert_info i (sort_infos infos)

unfoldable pub add_info : SessionResult Info → List Info → List Info
add_info (fails e) infos = infos
add_info (ok info) infos = info ∷ infos

-- The time in an id, `none` for time.Time{}; `parse_time` is time.Parse in the format of the ids.
unfoldable pub parse_session_timestamp : (parse_time : Bytes → Option ℕ) → (id : Bytes) → Option ℕ
parse_session_timestamp parse_time id =
    let s = trim_prefix (codes "sess_") id in
    if has_prefix (codes "sess_") id
    then elim (cut_at (95 ∷ []) s) [
      | none ↦ parse_time s
      | some (before, found) ↦ parse_time before
    ]
    else none

module _ (codec : MetaCodec) (parse_time : Bytes → Option ℕ) (base_dir : Bytes) where
  -- Create; `id` is the id that core.NewSessionID draws.
  unfoldable pub create : (id : Bytes) → Disk → SessionResult (Bytes × Bytes) × Disk
  create id disk = elim (disk.mkdir_error (session_dir base_dir)) [
    | some e ↦ (fails (directory_failed e), disk)
    | none ↦
        create_exclusive id (session_path base_dir id) (disk.open_error (session_path base_dir id))
          disk
  ]

  unfoldable pub ensure : (id : Bytes) → Disk → SessionResult Bytes × Disk
  ensure id disk = elim (disk.mkdir_error (session_dir base_dir)) [
    | some e ↦ (fails (directory_failed e), disk)
    | none ↦
        create_missing (session_path base_dir id) (disk.open_error (session_path base_dir id)) disk
  ]

  unfoldable pub decoded_agent : Reply Bytes → SessionResult Bytes
  decoded_agent (error e) = fails (meta_invalid e)
  decoded_agent (reply name) = ok name

  unfoldable pub stored_agent : Stored → SessionResult Bytes
  stored_agent missing = ok []
  stored_agent (unreadable e) = fails (meta_unread e)
  stored_agent (file bytes) = decoded_agent (codec.decode bytes)

  unfoldable pub get_default_agent : (id : Bytes) → Disk → SessionResult Bytes
  get_default_agent id disk = stored_agent (disk.at (meta_path base_dir id))

  -- SetDefaultAgent: the metadata has no other field, so what was there does not matter.
  unfoldable pub set_default_agent : (id agent_name : Bytes) → Disk → Option SessionError × Disk
  set_default_agent id agent_name disk = elim (disk.write_error (meta_path base_dir id)) [
    | some failure ↦
        (some (meta_unwritten failure.error), put_at (meta_path base_dir id) failure.left disk)
    | none ↦ (none, put_at (meta_path base_dir id) (file (codec.encode agent_name)) disk)
  ]

  unfoldable pub info_of : (id : Bytes) → Disk → Info
  info_of id disk = record {
    id = id;
    default_agent = agent_or_empty (get_default_agent id disk);
    message_count = count_lines (disk.at (session_path base_dir id));
    file_size = size_of (disk.at (session_path base_dir id));
    created_at = parse_session_timestamp parse_time id;
    modified_at = disk.modified (session_path base_dir id);
  }

  -- Get, where os.Stat has no other error than that the file is missing.
  unfoldable pub get : (id : Bytes) → Disk → SessionResult Info
  get id disk =
      if is_stored (disk.at (session_path base_dir id))
      then ok (info_of id disk)
      else fails (not_found id)

  unfoldable pub list_entries : List Entry → Disk → List Info
  list_entries [] disk = []
  list_entries (e ∷ es) disk =
      let rest = list_entries es disk in
      if e.is_dir || not (has_suffix (codes ".jsonl") e.name)
      then rest
      else add_info (get (trim_suffix (codes ".jsonl") e.name) disk) rest

  unfoldable pub list_sessions : Listing → Disk → SessionResult (List Info)
  list_sessions no_directory disk = ok []
  list_sessions (unlisted e) disk = fails (list_failed e)
  list_sessions (entries es) disk = ok (sort_infos (list_entries es disk))

  -- The metadata file goes after the session file; it need not be there.
  unfoldable pub delete_meta : (path : Bytes) → Option Bytes → Disk → Option SessionError × Disk
  delete_meta path (some e) disk =
      if is_stored (disk.at path) then (some (meta_delete_failed e), disk) else (none, disk)
  delete_meta path none disk = (none, put_at path missing disk)

  unfoldable pub delete_stored : (id : Bytes) → Option Bytes → Disk → Option SessionError × Disk
  delete_stored id (some e) disk = (some (delete_failed e), disk)
  delete_stored id none disk =
      let emptied = put_at (session_path base_dir id) missing disk in
      delete_meta (meta_path base_dir id) (emptied.remove_error (meta_path base_dir id)) emptied

  unfoldable pub delete : (id : Bytes) → Disk → Option SessionError × Disk
  delete id disk =
      if is_stored (disk.at (session_path base_dir id))
      then delete_stored id (disk.remove_error (session_path base_dir id)) disk
      else (some (not_found id), disk)

-- The operations that change files.
pub data Operation : Type 0 where
  creating ensuring deleting : Operation
  setting : (agent_name : Bytes) → Operation

unfoldable pub after_operation :
    MetaCodec → (base_dir : Bytes) → Operation → (id : Bytes) → Disk → Disk
after_operation codec base_dir creating id disk = (create codec (λ s. none) base_dir id disk).1
after_operation codec base_dir ensuring id disk = (ensure codec (λ s. none) base_dir id disk).1
after_operation codec base_dir deleting id disk = (delete codec (λ s. none) base_dir id disk).1
after_operation codec base_dir (setting agent_name) id disk =
    (set_default_agent codec (λ s. none) base_dir id agent_name disk).1
