-- ===== src/Session/Tests.antt =====
-- Two sessions in one directory.
use kontekst.Prelude.{
  ℕ, ◌≡◌, refl, arith, [], ◌∷◌, ◌++◌, Option, none, some, length, Bytes, bytes_eq, codes,
  if◌then◌else◌,
}
use kontekst.Paths.{
  parts_from, parts_of, is_dot, is_dot_dot, clean_parts, join_parts, joined_parts, join_path,
}
use kontekst.Prelude.Strings.{has_prefix}
use kontekst.EditFile.Tool.{missing, file}
use kontekst.Agent.Types.{reply}
use kontekst.Session.Service.{
  Disk, MetaCodec, ok, fails, not_found, session_dir, session_path, meta_path, create,
  create_exclusive, get, info_of, parse_session_timestamp, get_default_agent, stored_agent,
  decoded_agent, agent_or_empty, set_default_agent, delete, delete_stored, delete_meta, count_lines,
  count_newlines, size_of, deleting, after_operation,
}
use kontekst.Session.Apart.{after_operation-others}
use kontekst.Session.Paths.{NoSlash}
use kontekst.Session.Created.{NoUnderscore, create-get}
use kontekst.Core.Ids.{hex_digit, encode_hex, dated_id, new_session_id}

abbrev disk : Disk
disk = record {
  at = λ path.
      if bytes_eq path (codes "/d/sessions/s1.jsonl")
      then file (codes "{}" ++ (10 ∷ []))
      else missing;
  modified = λ path. 1;
  now = 5;
  mkdir_error = λ path. none;
  open_error = λ path. none;
  write_error = λ path. none;
  remove_error = λ path. none;
}

abbrev codec : MetaCodec
codec = record { decode = λ bytes. reply bytes; encode = λ name. name }

abbrev parse_time : Bytes → Option ℕ
parse_time s = some (length s)

after_operation-others_example :
    get codec parse_time
      (codes "/d")
      (codes "s1")
      (after_operation codec (codes "/d") deleting (codes "s2") disk)
    ≡ get codec parse_time (codes "/d") (codes "s1") disk
after_operation-others_example =
    after_operation-others codec parse_time (codes "/d") deleting (codes "s2") (codes "s1") disk
      (refl, (refl, tt)) (refl, (refl, tt)) (λ e. ground (arith, e))

one_session :
    get codec parse_time (codes "/d") (codes "s1") disk
    ≡ ok (record {
      id = codes "s1";
      default_agent = [];
      message_count = 1;
      file_size = 3;
      created_at = none;
      modified_at = 1;
    })
unfolding parse_session_timestamp has_prefix get info_of get_default_agent stored_agent
    agent_or_empty count_lines count_newlines size_of session_path meta_path session_dir join_path
    joined_parts parts_of parts_from clean_parts is_dot is_dot_dot join_parts bytes_eq
one_session = refl

agent_set :
    get_default_agent codec parse_time
      (codes "/d")
      (codes "s1")
      (set_default_agent codec parse_time (codes "/d") (codes "s1") (codes "coder") disk).1
    ≡ ok (codes "coder")
unfolding get_default_agent set_default_agent stored_agent decoded_agent session_path meta_path
    session_dir join_path joined_parts parts_of parts_from clean_parts is_dot is_dot_dot join_parts
    bytes_eq
agent_set = refl

gone :
    get codec parse_time
      (codes "/d")
      (codes "s1")
      (delete codec parse_time (codes "/d") (codes "s1") disk).1
    ≡ fails (not_found (codes "s1"))
unfolding get delete delete_stored delete_meta session_path meta_path session_dir join_path
    joined_parts parts_of parts_from clean_parts is_dot is_dot_dot join_parts bytes_eq
gone = refl

abbrev drawn_at : Bytes
drawn_at = codes "20260102T03"

abbrev id : Bytes
id = new_session_id drawn_at (171 ∷ 205 ∷ [])

id_text : id ≡ codes "sess_20260102T03_abcd"
unfolding new_session_id dated_id encode_hex hex_digit
id_text = refl

id_created :
    (create codec parse_time (codes "/d") id disk).0 ≡ ok (id, session_path (codes "/d") id)
unfolding create create_exclusive new_session_id dated_id encode_hex hex_digit session_path
    session_dir join_path joined_parts parts_of parts_from clean_parts is_dot is_dot_dot join_parts
    bytes_eq
id_created = refl

no_metadata : disk.at (meta_path (codes "/d") id) ≡ missing
unfolding new_session_id dated_id encode_hex hex_digit meta_path session_dir join_path joined_parts
    parts_of parts_from clean_parts is_dot is_dot_dot join_parts bytes_eq
no_metadata = refl

no_slash : NoSlash drawn_at
no_slash =
    (refl, (refl, (refl, (refl, (refl, (refl, (refl, (refl, (refl, (refl, (refl, tt)))))))))))

no_underscore : NoUnderscore drawn_at
no_underscore =
    (refl, (refl, (refl, (refl, (refl, (refl, (refl, (refl, (refl, (refl, (refl, tt)))))))))))

create-get_example :
    get codec parse_time (codes "/d") id (create codec parse_time (codes "/d") id disk).1
    ≡ ok (record {
      id = id;
      default_agent = [];
      message_count = 0;
      file_size = 0;
      created_at = parse_time drawn_at;
      modified_at = 5;
    })
create-get_example =
    create-get codec parse_time (codes "/d") drawn_at (171 ∷ 205 ∷ []) disk no_slash no_underscore
      no_metadata id_created
