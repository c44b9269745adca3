-- ===== src/Environment/Isolated.antt =====
-- The sessions of one environment do not see each other: snapshot_store.py, overlay_fs.py and the
-- handlers that use them.
use mathlib.Core.List.{foldl}
use lean_lang_chain.Common.{
  String, ◌≡◌, refl, all, not, Bool, true, Option, none, some, List, [], ◌∷◌, Result, ok, raise,
  ◌==◌, eq_iff, eq_refl, arith, inl, inr, Bool-cases, ◌∙◌, ap,
}
use lean_lang_chain.Gateway.Map.{lookup, store, lookup-store}
use lean_lang_chain.Gateway.Files.{FilePath, Files, write_text}
use lean_lang_chain.Environment.{
  EnvironmentFingerprint, Disk, build_from_repo, ensure_snapshot, create_overlay, open_environment,
  written, ensured, opened_disk, joined_disk, create_session, write_file, commit_or_head,
}

-- what the gateway is asked to do to its disk
pub data Event : Type 0 where
  opened : (repo : Files) (repo_id : String) (commit_sha repo_url : Option String) → Event
  joined : (fid session : String) → Event
  patched : (session : String) (path : FilePath) (content : String) → Event

lookup_stored :
    (k : String) (v : Files) (m : List (String × Files)) → lookup k (store k v m) ≡ some v
lookup_stored k v m = rw (lookup-store k k v m, eq_refl k) refl

module _ (sha256 : String → String) (id_of : EnvironmentFingerprint → String) where
  unfoldable pub happen : Disk → Event → Disk
  unfolding open_environment create_session write_file
  happen d (opened repo repo_id commit_sha repo_url) =
      (open_environment sha256 id_of repo repo_id commit_sha repo_url d).1
  happen d (joined fid session) = (create_session fid session d).1
  happen d (patched session path content) = write_file session path content d

  ensured-keeps :
      (fid : String) (repo : Files) (k : String) (base : Files) (d : Disk) (found : Option Files)
      → lookup fid d.snapshots ≡ found
      → lookup k d.snapshots ≡ some base
      → lookup k (ensured fid repo d found).snapshots ≡ some base
  ensured-keeps fid repo k base d (some b) e h = h
  ensured-keeps fid repo k base d none e h = elim (Bool-cases (fid == k)) [
    | inl same ↦
        let c : fid ≡ k = (eq_iff fid k).0 same in absurd (cc (ap (λ j. lookup j d.snapshots) c))
    | inr other ↦ rw (lookup-store fid k repo d.snapshots, other) h
  ]

  -- A snapshot that is there stays as it is, whatever happens.
  happen-keeps :
      (d : Disk) (e : Event) (k : String) (base : Files)
      → lookup k d.snapshots ≡ some base
      → lookup k (happen d e).snapshots ≡ some base
  unfolding happen open_environment create_session write_file ensure_snapshot create_overlay
  happen-keeps d (opened repo repo_id commit_sha repo_url) k base h =
      go (build_from_repo sha256 repo repo_id (commit_or_head commit_sha) repo_url)
    where
      go :
          (r : Result EnvironmentFingerprint)
          → lookup k (opened_disk id_of repo d r).1.snapshots ≡ some base
      go (ok env) = ensured-keeps (id_of env) repo k base d (lookup (id_of env) d.snapshots) refl h
      go (raise e) = h
  happen-keeps d (joined fid session) k base h = go (lookup fid d.snapshots)
    where
      go : (r : Option Files) → lookup k (joined_disk session d r).1.snapshots ≡ some base
      go none = h
      go (some b) = h
  happen-keeps d (patched session path content) k base h = h

  run-keeps :
      (events : List Event) (d : Disk) (k : String) (base : Files)
      → lookup k d.snapshots ≡ some base
      → lookup k (foldl happen d events).snapshots ≡ some base
  run-keeps [] d k base h = h
  run-keeps (e ∷ es) d k base h = run-keeps es (happen d e) k base (happen-keeps d e k base h)

  snapshot-opened :
      (repo : Files) (repo_id : String) (commit_sha repo_url : Option String) (d : Disk)
      (env : EnvironmentFingerprint)
      → build_from_repo sha256 repo repo_id (commit_or_head commit_sha) repo_url ≡ ok env
      → lookup (id_of env) d.snapshots ≡ none
      → lookup (id_of env) (happen d (opened repo repo_id commit_sha repo_url)).snapshots
        ≡ some repo
  unfolding happen open_environment ensure_snapshot
  snapshot-opened repo repo_id commit_sha repo_url d env b absent =
      ap (λ r. lookup (id_of env) (opened_disk id_of repo d r).1.snapshots) b
      ∙ (ap (λ f. lookup (id_of env) (ensured (id_of env) repo d f).snapshots) absent
          ∙ lookup_stored (id_of env) repo d.snapshots)

  overlay-joined :
      (fid session : String) (base : Files) (d : Disk)
      → lookup fid d.snapshots ≡ some base
      → lookup session (happen d (joined fid session)).overlays ≡ some base
  unfolding happen create_session create_overlay
  overlay-joined fid session base d h =
      ap (λ f. lookup session (joined_disk session d f).1.overlays) h
      ∙ lookup_stored session base d.overlays

  -- an event that neither creates the session nor writes to it
  abbrev pub is_foreign : String → Event → Bool
  is_foreign session (opened repo repo_id commit_sha repo_url) = true
  is_foreign session (joined fid s) = not (s == session)
  is_foreign session (patched s path content) = not (s == session)

  written-other :
      (s session : String) (path : FilePath) (content : String) (found : Option Files)
      (overlays : List (String × Files))
      → not (s == session) ≡ true
      → lookup session (written path content s found overlays) ≡ lookup session overlays
  written-other s session path content none overlays h = refl
  written-other s session path content (some work) overlays h =
      ground (arith, lookup-store s session (write_text path content work) overlays)

  happen-leaves :
      (session : String) (d : Disk) (e : Event)
      → is_foreign session e ≡ true
      → lookup session (happen d e).overlays ≡ lookup session d.overlays
  unfolding happen open_environment create_session write_file ensure_snapshot create_overlay
  happen-leaves session d (opened repo repo_id commit_sha repo_url) h =
      go (build_from_repo sha256 repo repo_id (commit_or_head commit_sha) repo_url)
    where
      ensured_same :
          (fid : String) (found : Option Files) → (ensured fid repo d found).overlays ≡ d.overlays
      ensured_same fid none = refl
      ensured_same fid (some b) = refl

      go :
          (r : Result EnvironmentFingerprint)
          → lookup session (opened_disk id_of repo d r).1.overlays ≡ lookup session d.overlays
      go (ok env) = ap (lookup session) (ensured_same (id_of env) (lookup (id_of env) d.snapshots))
      go (raise e) = refl
  happen-leaves session d (joined fid s) h = go (lookup fid d.snapshots)
    where
      go :
          (r : Option Files)
          → lookup session (joined_disk s d r).1.overlays ≡ lookup session d.overlays
      go none = refl
      go (some b) = ground (arith, lookup-store s session b d.overlays)
  happen-leaves session d (patched s path content) h =
      written-other s session path content (lookup s d.overlays) d.overlays h

  run-leaves :
      (session : String) (events : List Event) (d : Disk)
      → all (is_foreign session) events ≡ true
      → lookup session (foldl happen d events).overlays ≡ lookup session d.overlays
  run-leaves session [] d h = refl
  run-leaves session (e ∷ es) d h =
      run-leaves session es (happen d e) (ground arith) ∙ happen-leaves session d e (ground arith)

  -- Whatever happens after an environment was first opened, patches of its sessions included, a
  -- session that then joins it starts from the directory that was opened, and keeps it while other
  -- sessions are created and patched.
  pub create_session-isolated :
      (repo : Files) (repo_id : String) (commit_sha repo_url : Option String) (d : Disk)
      (env : EnvironmentFingerprint) (before after : List Event) (session : String)
      → build_from_repo sha256 repo repo_id (commit_or_head commit_sha) repo_url ≡ ok env
      → lookup (id_of env) d.snapshots ≡ none
      → all (is_foreign session) after ≡ true
      → let first = happen d (opened repo repo_id commit_sha repo_url) in
        let start = happen (foldl happen first before) (joined (id_of env) session) in
        lookup session (foldl happen start after).overlays ≡ some repo
  create_session-isolated repo repo_id commit_sha repo_url d env before after session b absent h =
      let first = happen d (opened repo repo_id commit_sha repo_url) in
      let start = happen (foldl happen first before) (joined (id_of env) session) in
      run-leaves session after start h
      ∙ overlay-joined (id_of env) session repo (foldl happen first before) (
          run-keeps before first (id_of env) repo
            (snapshot-opened repo repo_id commit_sha repo_url d env b absent))
