-- ===== src/Soar/Versions/Tests.antt =====
-- The version manager at concrete inputs.
use cobalto.Base.{ℕ, ◌≡◌, refl, String, true, none, some, List, [], ◌∷◌, string_eq}
use cobalto.Base.Dict.{lookup, insert}
use cobalto.Base.Json.{end}
use cobalto.Soar.Playbook.{Playbook, PlaybookMetadata, draft}
use cobalto.Soar.Versions.{
  PlaybookVersion, Storage, Manager, start, entry_of, save_version, get_versions,
  get_latest_version, revert_to_version,
}
use cobalto.Soar.Versions.History.{history, first_of, IsLoaded, revert_to_version-save_version}
use cobalto.Soar.Versions.Restarts.{Call, save, ask, restart}

abbrev metadata : String → PlaybookMetadata
metadata version = record {
  id = "p1";
  name = "contain";
  description = "";
  version = version;
  author = "";
  tags = [];
  triggers = [];
  enabled = true;
  status = draft;
  created_at = 0;
  updated_at = 0;
  created_by = "";
  updated_by = "";
  checksum = "";
  min_cobalto_version = "0.1.0";
  references = [];
}

abbrev playbook : String → Playbook
playbook version = record { metadata = metadata version; steps = []; variables = end; secrets = [] }

-- The files hold rows, with the snapshot first.
abbrev Row : Type 0
Row = Playbook × String × String × ℕ × String × String

row_of : PlaybookVersion → Row
row_of v = (v.playbook_snapshot, v.version, v.checksum, v.created_at, v.created_by, v.changes)

version_of : Row → PlaybookVersion
version_of (snapshot, version, checksum, created_at, created_by, changes) = record {
  version = version;
  checksum = checksum;
  created_at = created_at;
  created_by = created_by;
  changes = changes;
  playbook_snapshot = snapshot;
}

rows_of : List PlaybookVersion → List Row
unfolding row_of
rows_of [] = []
rows_of (v ∷ vs) = row_of v ∷ rows_of vs

versions_in : List Row → List PlaybookVersion
unfolding version_of
versions_in [] = []
versions_in (r ∷ rs) = version_of r ∷ versions_in rs

abbrev rows : Storage (List Row)
rows = record { write = rows_of; read = versions_in }

abbrev checksum : Playbook → String
checksum p = p.metadata.version

abbrev old : Manager (List Row)
old = (save_version rows checksum 1 "ana" "first" (playbook "1.0.0") (start [])).0

old-IsLoaded : IsLoaded "p1" old
unfolding save_version lookup insert
old-IsLoaded h = cc

abbrev calls : List (Call rows checksum)
calls = save 1 "ana" "first" (playbook "1.0.0") ∷ ask "p1" ∷ restart ∷ ask "p1" ∷ []

revert_to_version-save_version_example :
    let (m', entry) = save_version rows checksum 2 "ana" "second" (playbook "2.0.0") old in
    ((get_latest_version rows "p1" m').1 ≡ some entry)
    × ((revert_to_version rows "p1" "1.0.0" m').1
        ≡ first_of (revert_to_version rows "p1" "1.0.0" old).1 none)
revert_to_version-save_version_example =
    revert_to_version-save_version rows checksum 2 "ana" "second" "1.0.0" (playbook "2.0.0") old
      old-IsLoaded

-- The second save of a manager that has not restarted keeps the first version.
both_kept :
    history rows "p1" (save_version rows checksum 2 "ana" "second" (playbook "2.0.0") old).0
    ≡ entry_of checksum 1 "ana" "first" (playbook "1.0.0")
      ∷ entry_of checksum 2 "ana" "second" (playbook "2.0.0")
      ∷ []
unfolding save_version get_versions insert lookup
both_kept = refl
