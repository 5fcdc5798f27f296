-- ===== src/Session/Apart.antt =====
-- The sessions of internal/session/file_sessions.go do not touch each other.
use kontekst.Prelude.{
  ℕ, ◌≡◌, ◌≢◌, refl, ap, ◌∙◌, Bool, [], Option, none, some, Bytes, if_ind, if◌then◌else◌,
}
use kontekst.Files.{is_stored}
use kontekst.EditFile.Tool.{Stored, missing, file}
use kontekst.Session.Service.{
  Disk, put_at, session_dir, session_path, meta_path, MetaCodec, SessionError, SessionResult,
  create_exclusive, create_missing, create, ensure, set_default_agent, delete, delete_stored,
  delete_meta, get, info_of, get_default_agent, Operation, creating, ensuring, deleting, setting,
  after_operation,
}
use kontekst.Session.Paths.{
  NoSlash, session_paths_differ, meta_paths_differ, session-meta_differ, meta-session_differ,
}

pub error_ind {ℓ} :
    {A : Type ℓ} {E : Type 0} (P : A → Type 0) (o : Option E) (n : A) (s : E → A)
    → P n
    → ((e : E) → P (s e))
    → P (elim o [ some e ↦ s e | none ↦ n ])
error_ind P none n s p q = p
error_ind P (some e) n s p q = q e

module _ (base a b : Bytes) (safe_a : NoSlash a) (safe_b : NoSlash b) (apart : a ≢ b) where
  -- What a session shows is the same on both disks.
  record Same (disk disk' : Disk) : Type 0 where
    pub content : disk'.at (session_path base b) ≡ disk.at (session_path base b)
    pub modified : disk'.modified (session_path base b) ≡ disk.modified (session_path base b)
    pub meta : disk'.at (meta_path base b) ≡ disk.at (meta_path base b)

  disk_unchanged : (disk : Disk) → Same disk disk
  disk_unchanged disk = record { content = refl; modified = refl; meta = refl }

  session_unchanged :
      (stored : Stored) (disk disk' : Disk)
      → Same disk disk'
      → Same disk (put_at (session_path base a) stored disk')
  session_unchanged stored disk disk' same = record {
    content =
        ap (λ (t : Bool). if t then stored else disk'.at (session_path base b))
          (session_paths_differ base a b safe_a safe_b apart)
        ∙ same.content;
    modified =
        ap (λ (t : Bool). if t then disk'.now else disk'.modified (session_path base b))
          (session_paths_differ base a b safe_a safe_b apart)
        ∙ same.modified;
    meta =
        ap (λ (t : Bool). if t then stored else disk'.at (meta_path base b))
          (meta-session_differ base a b safe_a safe_b)
        ∙ same.meta;
  }

  meta_unchanged :
      (stored : Stored) (disk disk' : Disk)
      → Same disk disk'
      → Same disk (put_at (meta_path base a) stored disk')
  meta_unchanged stored disk disk' same = record {
    content =
        ap (λ (t : Bool). if t then stored else disk'.at (session_path base b))
          (session-meta_differ base a b safe_a safe_b)
        ∙ same.content;
    modified =
        ap (λ (t : Bool). if t then disk'.now else disk'.modified (session_path base b))
          (session-meta_differ base a b safe_a safe_b)
        ∙ same.modified;
    meta =
        ap (λ (t : Bool). if t then stored else disk'.at (meta_path base b))
          (meta_paths_differ base a b safe_a safe_b apart)
        ∙ same.meta;
  }

  module _ (codec : MetaCodec) (parse_time : Bytes → Option ℕ) where
    get-Same :
        (disk disk' : Disk)
        → Same disk disk'
        → get codec parse_time base b disk' ≡ get codec parse_time base b disk
    unfolding get info_of get_default_agent
    get-Same disk disk' same = cc

    exclusive-Same :
        (error : Option Bytes) (disk : Disk)
        → Same disk (create_exclusive a (session_path base a) error disk).1
    unfolding create_exclusive
    exclusive-Same (some e) disk = disk_unchanged disk
    exclusive-Same none disk =
        if_ind (λ (r : SessionResult (Bytes × Bytes) × Disk). Same disk r.1)
          (is_stored (disk.at (session_path base a))) (λ _. disk_unchanged disk)
          (λ _. session_unchanged (file []) disk disk (disk_unchanged disk))

    missing-Same :
        (error : Option Bytes) (disk : Disk)
        → Same disk (create_missing (session_path base a) error disk).1
    unfolding create_missing
    missing-Same (some e) disk = disk_unchanged disk
    missing-Same none disk =
        if_ind (Same disk) (is_stored (disk.at (session_path base a))) (λ _. disk_unchanged disk)
          (λ _. session_unchanged (file []) disk disk (disk_unchanged disk))

    create-Same : (disk : Disk) → Same disk (create codec parse_time base a disk).1
    unfolding create
    create-Same disk =
        error_ind (λ (r : SessionResult (Bytes × Bytes) × Disk). Same disk r.1)
          (disk.mkdir_error (session_dir base)) _ _
          (exclusive-Same (disk.open_error (session_path base a)) disk) (λ e. disk_unchanged disk)

    ensure-Same : (disk : Disk) → Same disk (ensure codec parse_time base a disk).1
    unfolding ensure
    ensure-Same disk =
        error_ind (λ (r : SessionResult Bytes × Disk). Same disk r.1)
          (disk.mkdir_error (session_dir base)) _ _
          (missing-Same (disk.open_error (session_path base a)) disk) (λ e. disk_unchanged disk)

    set-Same :
        (agent_name : Bytes) (disk : Disk)
        → Same disk (set_default_agent codec parse_time base a agent_name disk).1
    unfolding set_default_agent
    set-Same agent_name disk =
        error_ind (λ (r : Option SessionError × Disk). Same disk r.1)
          (disk.write_error (meta_path base a)) _ _
          (meta_unchanged _ disk disk (disk_unchanged disk))
          (λ failure. meta_unchanged failure.left disk disk (disk_unchanged disk))

    delete_meta-Same :
        (error : Option Bytes) (disk disk' : Disk)
        → Same disk disk'
        → Same disk (delete_meta codec parse_time base (meta_path base a) error disk').1
    unfolding delete_meta
    delete_meta-Same (some e) disk disk' same =
        if_ind (λ (r : Option SessionError × Disk). Same disk r.1)
          (is_stored (disk'.at (meta_path base a))) (λ _. same) (λ _. same)
    delete_meta-Same none disk disk' same = meta_unchanged missing disk disk' same

    delete_stored-Same :
        (error : Option Bytes) (disk : Disk)
        → Same disk (delete_stored codec parse_time base a error disk).1
    unfolding delete_stored
    delete_stored-Same (some e) disk = disk_unchanged disk
    delete_stored-Same none disk =
        delete_meta-Same _ disk _ (session_unchanged missing disk disk (disk_unchanged disk))

    delete-Same : (disk : Disk) → Same disk (delete codec parse_time base a disk).1
    unfolding delete
    delete-Same disk =
        if_ind (λ (r : Option SessionError × Disk). Same disk r.1)
          (is_stored (disk.at (session_path base a))) (λ _. delete_stored-Same _ disk)
          (λ _. disk_unchanged disk)

  after-Same :
      (codec : MetaCodec) (operation : Operation) (disk : Disk)
      → Same disk (after_operation codec base operation a disk)
  unfolding after_operation
  after-Same codec creating disk = create-Same codec (λ s. none) disk
  after-Same codec ensuring disk = ensure-Same codec (λ s. none) disk
  after-Same codec deleting disk = delete-Same codec (λ s. none) disk
  after-Same codec (setting agent_name) disk = set-Same codec (λ s. none) agent_name disk

-- Creating, ensuring, deleting or setting the agent of one session, whether it succeeds or fails, leaves what Get gives for another session as it is, where the ids are of one part.
pub after_operation-others :
    (codec : MetaCodec) (parse_time : Bytes → Option ℕ) (base : Bytes) (operation : Operation)
    (a b : Bytes) (disk : Disk)
    → NoSlash a
    → NoSlash b
    → a ≢ b
    → get codec parse_time base b (after_operation codec base operation a disk)
      ≡ get codec parse_time base b disk
after_operation-others codec parse_time base operation a b disk safe_a safe_b apart =
    get-Same base a b safe_a safe_b apart codec parse_time disk _
      (after-Same base a b safe_a safe_b apart codec operation disk)
