-- ===== src/Soar/Versions/Restarts.antt =====
-- What a restart keeps of the histories, and what the first save after it loses.
use cobalto.Base.{ℕ, ◌≡◌, String, List, [], ◌∷◌, string_eq, some}
use cobalto.Base.Dict.{Dict, lookup, lookup-insert_self}
use cobalto.Soar.Playbook.{Playbook}
use cobalto.Soar.Versions.{
  Storage, Manager, start, entry_of, save_version, get_versions, get_version, get_latest_version,
  revert_to_version, compare_versions,
}
use cobalto.Soar.Versions.History.{history, save_version-history}

module _ {File : Type 0} (storage : Storage File) (calculate_checksum : Playbook → String) where
  -- The calls of a manager, and a restart of the program.
  pub data Call : Type 0 where
    save : ℕ → String → String → Playbook → Call
    ask : String → Call
    ask_version : String → String → Call
    ask_latest : String → Call
    revert : String → String → Call
    compare_two : String → String → String → Call
    restart : Call

  unfoldable pub perform : Call → Manager File → Manager File
  unfolding save_version get_versions get_version get_latest_version revert_to_version
      compare_versions
  perform (save now created_by changes p) m =
      (save_version storage calculate_checksum now created_by changes p m).0
  perform (ask id) m = (get_versions storage id m).0
  perform (ask_version id version) m = (get_version storage id version m).0
  perform (ask_latest id) m = (get_latest_version storage id m).0
  perform (revert id version) m = (revert_to_version storage id version m).0
  perform (compare_two id version1 version2) m = (compare_versions storage id version1 version2 m).0
  perform restart m = start m.files

  abbrev pub perform_all : List Call → Manager File → Manager File
  perform_all [] m = m
  perform_all (c ∷ cs) m = perform_all cs (perform c m)

  -- A save that is the first call for its playbook after a restart leaves a history of one version,
  -- in memory and in the file, whatever the history was.
  pub first_save_forgets :
      (now : ℕ) (created_by changes : String) (p : Playbook) (files : Dict String File)
      → let (m, entry) =
          save_version storage calculate_checksum now created_by changes p (start files) in
        (history storage p.metadata.id m ≡ entry ∷ [])
        × (lookup p.metadata.id m.files ≡ some (storage.write (entry ∷ [])))
  unfolding save_version lookup
  first_save_forgets now created_by changes p files = (
    save_version-history storage calculate_checksum now created_by changes p (start files),
    lookup-insert_self p.metadata.id
        (storage.write (entry_of calculate_checksum now created_by changes p ∷ [])) files,
  )
