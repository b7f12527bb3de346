-- ===== src/Dto.antt =====
-- include/websocket/dto/fs_entry.h, and src/websocket/handlers/utils with its headers: the messages'
-- view of entries of the file system and of builds. What the server reads of an entry on the disk is
-- the record `Entry`.
use Prim.Native.String
use cis1_webui_native_srv_cp.Prelude.{
  ℕ, zero, suc, bit_and, ◌==◌, Bool, false, not, Option, none, some, String, if◌then◌else◌, ℤ, pos,
  negsuc,
}

-- A directory entry: its path on the disk, the name in it, and its path relative to the root of the
-- projects, behind a slash. The permissions are none where reading them sets the error code.
pub record Entry : Type 0 where
  pub disk_path : String
  pub filename : String
  pub relative_path : String
  pub is_directory : Bool
  pub is_regular_file : Bool
  pub permissions : Option ℕ

-- `build_interface::info` of include/cis/cis_structs_interface.h.
pub record BuildInfo : Type 0 where
  pub status : Option ℤ
  pub exit_message : Option String
  pub session_id : Option String
  pub date : Option String

pub record BuildDto : Type 0 where
  pub status : String
  pub exit_code : Option ℤ
  pub exit_message : Option String
  pub session_id : Option String
  pub date : Option String

pub data Metainfo : Type 0 where
  monostate : Metainfo
  project_info : Bool → Metainfo
  job_info : Metainfo
  build_info : BuildDto → Metainfo
  directory_info : Metainfo
  file_info : Bool → Metainfo

pub record FsEntry : Type 0 where
  pub name : String
  pub path : String
  pub link : String
  pub metainfo : Metainfo

-- `std::filesystem::perms::owner_exec` is 0100.
abbrev pub is_executable : Option ℕ → Bool
is_executable none = false
is_executable (some permissions) = not (bit_and permissions 64 == 0)

pub make_dir_entry : Entry → FsEntry
make_dir_entry file = record {
  name = file.filename;
  path = file.relative_path;
  link = String.◌++◌ "/download" file.relative_path;
  metainfo =
      if file.is_directory
      then directory_info
      else if file.is_regular_file
      then file_info (is_executable file.permissions)
      else monostate;
}

abbrev pub status_text : Option ℤ → String
status_text none = "in_progress"
status_text (some (pos zero)) = "success"
status_text (some (pos (suc n))) = "failed"
status_text (some (negsuc n)) = "failed"

abbrev pub unpack_build_info : BuildInfo → BuildDto
unpack_build_info info = record {
  status = status_text info.status;
  exit_code = info.status;
  exit_message = info.exit_message;
  session_id = info.session_id;
  date = info.date;
}
