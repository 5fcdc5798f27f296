-- ===== src/Files.antt =====
-- What the program asks of directories: their entries, and whether a path is there.
use kontekst.Prelude.{Bool, true, false, List, Bytes}
use kontekst.EditFile.Tool.{Stored, missing, unreadable, file}

pub record Entry : Type 0 where
  pub name : Bytes
  pub is_dir : Bool

-- A directory that is missing, that cannot be read, or that has these entries.
pub data Listing : Type 0 where
  no_directory : Listing
  unlisted : (error : Bytes) → Listing
  entries : List Entry → Listing

-- os.Stat finds the path.
abbrev pub is_stored : Stored → Bool
is_stored missing = false
is_stored (unreadable e) = true
is_stored (file bytes) = true
