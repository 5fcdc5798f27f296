-- ===== src/Session/Created.antt =====
-- A session that Create of internal/session/file_sessions.go makes, as Get shows it.
use kontekst.Prelude.{
  ℕ, ◌/◌, ◌%◌, ◌≡◌, refl, ap, ◌∙◌, false, [], ◌∷◌, ◌++◌, Option, none, some, Bytes, bytes_eq_refl,
  All, All-append, ◌==◌, if_ind, arith,
}
use kontekst.Prelude.Strings.{has_prefix, trim_prefix, cut_at}
use kontekst.Core.Ids.{hex_digit, encode_hex, dated_id, new_session_id}
use kontekst.Files.{is_stored}
use kontekst.EditFile.Tool.{missing, file}
use kontekst.Session.Service.{
  Disk, put_at, session_dir, session_path, meta_path, MetaCodec, SessionResult, ok,
  create_exclusive, create, get, info_of, get_default_agent, stored_agent, agent_or_empty,
  count_lines, count_newlines, size_of, parse_session_timestamp,
}
use kontekst.Session.Apart.{error_ind}
use kontekst.Session.Paths.{NoSlash, meta-session_differ}

hex_digit-slash : (d : ℕ) → (hex_digit d == 47) ≡ false
unfolding hex_digit
hex_digit-slash d = ground arith

encode_hex-NoSlash : (random : Bytes) → NoSlash (encode_hex random)
unfolding encode_hex
encode_hex-NoSlash [] = tt
encode_hex-NoSlash (b ∷ random) =
    (hex_digit-slash (b / 16), (hex_digit-slash (b % 16), encode_hex-NoSlash random))

-- A text without an underscore.
abbrev pub NoUnderscore : Bytes → Type 0
NoUnderscore s = All (λ c. (c == 95) ≡ false) s

cut_at_underscore :
    (s rest : Bytes) → NoUnderscore s → cut_at (95 ∷ []) (s ++ (95 ∷ rest)) ≡ some (s, 95 ∷ rest)
unfolding cut_at has_prefix
cut_at_underscore [] rest h = refl
cut_at_underscore (c ∷ s) rest h = ground (arith, cut_at_underscore s rest h.1, h.0)

module _ (timestamp random : Bytes) where
  session_id-NoSlash : NoSlash timestamp → NoSlash (new_session_id timestamp random)
  unfolding new_session_id dated_id
  session_id-NoSlash h = (
    refl,
    (
      refl,
      (
        refl,
        (
          refl,
          (
            refl,
            All-append (λ c. (c == 47) ≡ false) timestamp (95 ∷ encode_hex random) h
                (refl, encode_hex-NoSlash random),
          ),
        ),
      ),
    ),
  )

  parse-new_session_id :
      (parse_time : Bytes → Option ℕ)
      → NoUnderscore timestamp
      → parse_session_timestamp parse_time (new_session_id timestamp random) ≡ parse_time timestamp
  unfolding parse_session_timestamp new_session_id dated_id has_prefix trim_prefix
  parse-new_session_id parse_time h =
      ap
        (λ (o : Option (Bytes × Bytes)). elim o [
          | none ↦ parse_time (timestamp ++ (95 ∷ encode_hex random))
          | some (before, found) ↦ parse_time before
        ])
        (cut_at_underscore timestamp (encode_hex random) h)

module _ (codec : MetaCodec) (parse_time : Bytes → Option ℕ) (base id : Bytes) (disk : Disk) where
  abbrev path : Bytes
  path = session_path base id

  -- A session was made only by putting an empty file at its path.
  abbrev Made : SessionResult (Bytes × Bytes) × Disk → Type 0
  Made out = out.0 ≡ ok (id, path) → out.1 ≡ put_at path (file []) disk

  exclusive-Made : (error : Option Bytes) → Made (create_exclusive id path error disk)
  unfolding create_exclusive
  exclusive-Made (some e) = λ h. ground arith
  exclusive-Made none = if_ind Made (is_stored (disk.at path)) (λ _ h. ground arith) (λ _ h. refl)

  create-Made : Made (create codec parse_time base id disk)
  unfolding create
  create-Made =
      error_ind Made (disk.mkdir_error (session_dir base)) _ _
        (exclusive-Made (disk.open_error (session_path base id))) (λ e h. ground arith)

  -- An empty file at the path of a session shows as a session without messages.
  get-made :
      NoSlash id
      → disk.at (meta_path base id) ≡ missing
      → get codec parse_time base id (put_at path (file []) disk)
        ≡ ok (record {
          id = id;
          default_agent = [];
          message_count = 0;
          file_size = 0;
          created_at = parse_session_timestamp parse_time id;
          modified_at = disk.now;
        })
  unfolding get info_of get_default_agent stored_agent agent_or_empty count_lines count_newlines
      size_of
  get-made safe no_meta =
      rw (bytes_eq_refl (session_path base id), meta-session_differ base id id safe safe, no_meta)
        refl

-- Where Create succeeds for a session without metadata, Get shows the new session as empty, with no agent, changed now, and made at the time that its id was drawn at, for a time that prints no slash and no underscore.
pub create-get :
    (codec : MetaCodec) (parse_time : Bytes → Option ℕ) (base timestamp random : Bytes)
    (disk : Disk)
    → NoSlash timestamp
    → NoUnderscore timestamp
    → disk.at (meta_path base (new_session_id timestamp random)) ≡ missing
    → (create codec parse_time base (new_session_id timestamp random) disk).0
      ≡ ok (new_session_id timestamp random, session_path base (new_session_id timestamp random))
    → get codec parse_time base
        (new_session_id timestamp random)
        (create codec parse_time base (new_session_id timestamp random) disk).1
      ≡ ok (record {
        id = new_session_id timestamp random;
        default_agent = [];
        message_count = 0;
        file_size = 0;
        created_at = parse_time timestamp;
        modified_at = disk.now;
      })
create-get codec parse_time base timestamp random disk safe plain no_meta created =
    let id = new_session_id timestamp random in
    ap (get codec parse_time base id) (create-Made codec parse_time base id disk created)
    ∙ get-made codec parse_time base id disk (session_id-NoSlash timestamp random safe) no_meta
    ∙ ap
        (λ (t : Option ℕ). ok (record {
          id = id;
          default_agent = [];
          message_count = 0;
          file_size = 0;
          created_at = t;
          modified_at = disk.now;
        }))
        (parse-new_session_id timestamp random parse_time plain)
