-- ===== src/Soar/Versions.antt =====
-- PlaybookVersionManager. The files of the storage directory are a dict from an id to the
-- file there. What a file holds, and how a history is written to it (json.dump with default=str) and
-- read from it (json.load and PlaybookVersion), is a parameter; a file that cannot be read is left
-- out. A snapshot is the playbook itself, which to_dict writes and Playbook(**snapshot) reads. The checksum
-- (SHA-256 of the JSON text) is a parameter.
pub mod History
pub mod Restarts
mod Tests
use cobalto.Base.{
  ℕ, ◌≡◌, String, Bool, true, false, Option, none, some, List, [], ◌∷◌, ◌++◌, string_eq, ◌==◌,
  if◌then◌else◌, find,
}
use cobalto.Base.Dict.{Dict, lookup, insert}
use cobalto.Soar.Playbook.{Playbook}

pub record PlaybookVersion : Type 0 where
  pub version : String
  pub checksum : String
  pub created_at : ℕ
  pub created_by : String
  pub changes : String
  pub playbook_snapshot : Playbook

-- The format of the files.
pub record Storage (File : Type 0) : Type 0 where
  pub write : List PlaybookVersion → File
  pub read : File → List PlaybookVersion

-- A history is read back as it was written.
abbrev pub IsLossless : {File : Type 0} → Storage File → Type 0
IsLossless storage = (vs : List PlaybookVersion) → storage.read (storage.write vs) ≡ vs

-- `_versions` and the files.
pub record Manager (File : Type 0) : Type 0 where
  pub versions : Dict String (List PlaybookVersion)
  pub files : Dict String File

-- A new manager over the files that are there, as after a restart.
abbrev pub start : {File : Type 0} → Dict String File → Manager File
start files = record { versions = []; files = files }

abbrev pub or_none : Option (List PlaybookVersion) → List PlaybookVersion
or_none none = []
or_none (some vs) = vs

abbrev pub entry_of : (Playbook → String) → ℕ → String → String → Playbook → PlaybookVersion
entry_of calculate_checksum now created_by changes playbook = record {
  version = playbook.metadata.version;
  checksum = calculate_checksum playbook;
  created_at = now;
  created_by = created_by;
  changes = changes;
  playbook_snapshot = playbook;
}

unfoldable pub save_version :
    {File : Type 0}
    → Storage File
    → (Playbook → String)
    → ℕ
    → String
    → String
    → Playbook
    → Manager File
    → Manager File × PlaybookVersion
save_version storage calculate_checksum now created_by changes playbook m =
    let entry = entry_of calculate_checksum now created_by changes playbook in
    let id = playbook.metadata.id in
    let history = or_none (lookup id m.versions) ++ entry ∷ [] in
    (
      record {
        versions = insert id history m.versions;
        files = insert id (storage.write history) m.files;
      },
      entry,
    )

abbrev pub has_version : String → PlaybookVersion → Bool
has_version version v = v.version == version

last_of : List PlaybookVersion → Option PlaybookVersion
last_of [] = none
last_of (v ∷ []) = some v
last_of (v ∷ w ∷ vs) = last_of (w ∷ vs)

snapshot_of : Option PlaybookVersion → Option Playbook
snapshot_of none = none
snapshot_of (some v) = some v.playbook_snapshot

pub record Comparison : Type 0 where
  pub version1 : String
  pub version2 : String
  pub checksum_match : Bool
  pub v1_created : ℕ
  pub v2_created : ℕ
  pub v1_changes : String
  pub v2_changes : String

compared : String → String → Option PlaybookVersion → Option PlaybookVersion → Option Comparison
compared version1 version2 none v = none
compared version1 version2 (some v) none = none
compared version1 version2 (some v) (some w) = some (record {
  version1 = version1;
  version2 = version2;
  checksum_match = v.checksum == w.checksum;
  v1_created = v.created_at;
  v2_created = w.created_at;
  v1_changes = v.changes;
  v2_changes = w.changes;
})

module _ {File : Type 0} (storage : Storage File) where
  load : Option File → String → Manager File → Manager File × List PlaybookVersion
  load none playbook_id m = (m, [])
  load (some file) playbook_id m =
      let vs = storage.read file in (record m { versions = insert playbook_id vs m.versions }, vs)

  versions_of :
      Option (List PlaybookVersion) → String → Manager File → Manager File × List PlaybookVersion
  unfolding load
  versions_of none playbook_id m = load (lookup playbook_id m.files) playbook_id m
  versions_of (some vs) playbook_id m = (m, vs)

  -- The history in memory, or else the one of the file, which is kept in memory then.
  unfoldable pub get_versions : String → Manager File → Manager File × List PlaybookVersion
  unfolding versions_of
  get_versions playbook_id m = versions_of (lookup playbook_id m.versions) playbook_id m

  unfoldable pub get_version :
      String → String → Manager File → Manager File × Option PlaybookVersion
  unfolding get_versions
  get_version playbook_id version m =
      let (m', vs) = get_versions playbook_id m in (m', find (has_version version) vs)

  unfoldable pub get_latest_version : String → Manager File → Manager File × Option PlaybookVersion
  unfolding get_versions last_of
  get_latest_version playbook_id m = let (m', vs) = get_versions playbook_id m in (m', last_of vs)

  unfoldable pub revert_to_version : String → String → Manager File → Manager File × Option Playbook
  unfolding get_version snapshot_of
  revert_to_version playbook_id version m =
      let (m', v) = get_version playbook_id version m in (m', snapshot_of v)

  -- `none` is the error that a version was not found.
  unfoldable pub compare_versions :
      String → String → String → Manager File → Manager File × Option Comparison
  unfolding get_version compared
  compare_versions playbook_id version1 version2 m =
      let (m₁, v1) = get_version playbook_id version1 m in
      let (m₂, v2) = get_version playbook_id version2 m₁ in (m₂, compared version1 version2 v1 v2)
