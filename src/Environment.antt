-- ===== src/Environment.antt =====
-- apps/lean-gateway/lean_langchain_gateway: environment/fingerprint.py, environment/snapshot_store.py,
-- environment/overlay_fs.py and api/routes_environment.py, with EnvironmentFingerprint of
-- packages/schemas. A directory is a function from the paths of its files to their texts; the copies
-- below environments/ and overlays/ are kept by fingerprint and by session. Modes of files and the
-- metadata files are left out. `sha256` and `canonical_sha256` are arguments, and so is a fresh session.
pub mod Isolated
use lean_lang_chain.Common.{
  String, Bool, true, false, Option, none, some, List, [], ◌∷◌, Result, ok, raise, file_not_found,
  ◌>>=◌, ◌==◌, if◌then◌else◌,
}
use lean_lang_chain.Text.{strip}
use lean_lang_chain.Gateway.Map.{lookup, store}
use lean_lang_chain.Gateway.Files.{FilePath, Files, write_text}

-- the fields that the service gives; the others keep their defaults
pub record EnvironmentFingerprint : Type 0 where
  pub repo_id : String
  pub repo_url : Option String
  pub commit_sha : String
  pub lean_toolchain : String
  pub lakefile_hash : String
  pub manifest_hash : Option String

abbrev lakefile : Files → Option String
lakefile repo = elim (repo ("lakefile.toml" ∷ [])) [
  | some s ↦ some s
  | none ↦ repo ("lakefile.lean" ∷ [])
]

abbrev hashed : (String → String) → Option String → Option String
hashed sha256 none = none
hashed sha256 (some s) = some (sha256 s)

abbrev found : Option String → Result String
found none = raise file_not_found
found (some s) = ok s

-- `FingerprintService.build_from_repo`
unfoldable pub build_from_repo :
    (String → String) → Files → String → String → Option String → Result EnvironmentFingerprint
build_from_repo sha256 repo repo_id commit_sha repo_url = do
  toolchain ← found (repo ("lean-toolchain" ∷ []))
  lake ← found (lakefile repo)
  ok (record {
    repo_id = repo_id;
    repo_url = repo_url;
    commit_sha = commit_sha;
    lean_toolchain = strip toolchain;
    lakefile_hash = sha256 lake;
    manifest_hash = hashed sha256 (repo ("lake-manifest.json" ∷ []));
  })

-- the snapshots by fingerprint and the workspaces by session
pub record Disk : Type 0 where
  pub snapshots : List (String × Files)
  pub overlays : List (String × Files)

abbrev pub ensured : String → Files → Disk → Option Files → Disk
ensured fid repo d (some base) = d
ensured fid repo d none = record d { snapshots = store fid repo d.snapshots }

-- `SnapshotStore.ensure_snapshot`: a base that is there stays
unfoldable pub ensure_snapshot : String → Files → Disk → Disk
unfolding lookup store
ensure_snapshot fid repo d = ensured fid repo d (lookup fid d.snapshots)

-- `OverlayFS.create_overlay`
unfoldable pub create_overlay : String → Files → Disk → Disk
unfolding store
create_overlay session base d = record d { overlays = store session base d.overlays }

-- `payload.commit_sha or "HEAD"`
abbrev pub commit_or_head : Option String → String
commit_or_head none = "HEAD"
commit_or_head (some c) = if c == "" then "HEAD" else c

abbrev pub opened_disk :
    (EnvironmentFingerprint → String)
    → Files
    → Disk
    → Result EnvironmentFingerprint
    → Result String × Disk
opened_disk id_of repo d (ok env) = (ok (id_of env), ensure_snapshot (id_of env) repo d)
opened_disk id_of repo d (raise e) = (raise e, d)

-- the handler `open_environment`: the fingerprint's identifier, and the disk
unfoldable pub open_environment :
    (String → String)
    → (EnvironmentFingerprint → String)
    → Files
    → String
    → Option String
    → Option String
    → Disk
    → Result String × Disk
unfolding build_from_repo ensure_snapshot
open_environment sha256 id_of repo repo_id commit_sha repo_url d =
    opened_disk id_of repo d
      (build_from_repo sha256 repo repo_id (commit_or_head commit_sha) repo_url)

abbrev pub joined_disk : String → Disk → Option Files → Result String × Disk
joined_disk session d none = (raise file_not_found, d)
joined_disk session d (some base) = (ok session, create_overlay session base d)

-- the handler `create_session`, up to the registration of the session
unfoldable pub create_session : String → String → Disk → Result String × Disk
unfolding create_overlay lookup
create_session fid session d = joined_disk session d (lookup fid d.snapshots)

abbrev pub written :
    FilePath → String → String → Option Files → List (String × Files) → List (String × Files)
written path content session none overlays = overlays
written path content session (some work) overlays =
    store session (write_text path content work) overlays

-- a file of a session's workspace is written, as a patch does
unfoldable pub write_file : String → FilePath → String → Disk → Disk
unfolding lookup store write_text
write_file session path content d = record d {
  overlays = written path content session (lookup session d.overlays) d.overlays;
}
