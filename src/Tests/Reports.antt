-- ===== src/Tests/Reports.antt =====
-- Diff and Info.
use sgard.Base.{◌≡◌, refl, List, [], ◌∷◌, ◌++◌, Text, codes, ◌==◌, if◌then◌else◌, ok}
use sgard.Memory.{Files, memory}
use sgard.Store
use sgard.Garden.{Repo}
use sgard.Garden.Restore.{restored_bytes}
use sgard.Garden.Status.{entry_state}
use sgard.Garden.Diff.{newline, diff_entry}
use sgard.Garden.Diff.Rebuilding.{
  Change, joined, AreLines, rendered, old_side, new_side, diff_entry_lem,
}
use sgard.Garden.Info.{info_entry}
use sgard.Garden.Info.Agreement.{state_of, reported, info_entry-entry_state}
use sgard.Tests.Data.{hello, entry, repo}
use sgard.Tests.Blobs.{hash, wrote}

abbrev vimrc : Text
vimrc = codes "/h/.vimrc"

-- The file has other bytes than its blob.
abbrev changed : Repo memory
changed = repo (entry (codes "~/.vimrc") hash ∷ []) ((vimrc, codes "hi") ∷ wrote)

restored_run :
    restored_bytes memory changed.garden (entry (codes "~/.vimrc") hash) changed.disk ≡ ok hello
unfolding restored_bytes Store.read Store.valid_hash Store.hash_of Store.hex Store.all_hex
    Store.is_hex_char sgard.Memory.checksum sgard.Memory.lookup ◌==◌ Store.blob_path
    sgard.Paths.join_all sgard.Paths.clean Store.write sgard.Host.Atomic.write_atomically
    sgard.Host.Atomic.move_into sgard.Host.Atomic.or_remove sgard.Host.Atomic.undone
    sgard.Memory.insert sgard.Memory.erase sgard.Memory.stem sgard.Paths.dir
    sgard.Garden.Crypt.decrypt_blob sgard.Garden.Crypt.open_sealed sgard.Paths.dir_part
    sgard.Paths.intercalate sgard.Paths.is_abs sgard.Paths.split
restored_run = refl

there_run : memory.read_file vimrc changed.disk ≡ ok (codes "hi")
unfolding sgard.Memory.lookup ◌==◌
there_run = refl

diff_entry_lem_example :
    (cs : List Change) × (diff_entry memory vimrc
        (codes "~/.vimrc")
        (entry (codes "~/.vimrc") hash)
        changed
      ≡ ok (
          if hello == codes "hi"
          then []
          else codes "--- "
            ++ ((codes "~/.vimrc" ++ codes " (stored)")
                ++ (newline
                    ∷ (codes "+++ "
                        ++ ((codes "~/.vimrc" ++ codes " (current)")
                            ++ (newline ∷ rendered cs)))))))
    × (joined (old_side cs) ≡ hello)
    × AreLines (old_side cs)
    × (joined (new_side cs) ≡ codes "hi")
    × AreLines (new_side cs)
unfolding ◌==◌
diff_entry_lem_example =
    diff_entry_lem memory vimrc (codes "~/.vimrc") (entry (codes "~/.vimrc") hash) changed hello
      (codes "hi") refl restored_run there_run

info_entry-entry_state_example :
    state_of (
      info_entry memory
        (λ t. codes "t")
        (codes "/r")
        []
        (entry (codes "~/.vimrc") hash)
        changed.disk)
    ≡ reported (entry_state memory [] (entry (codes "~/.vimrc") hash) changed.disk)
info_entry-entry_state_example =
    info_entry-entry_state memory (λ t. codes "t") (codes "/r") [] (entry (codes "~/.vimrc") hash)
      changed.disk

-- A line is added at the end of a file whose lines all end: the diff runs two lines together.
added_run :
    sgard.Garden.Diff.diff_lines
      (sgard.Garden.Diff.split_lines (97 ∷ 10 ∷ []))
      (sgard.Garden.Diff.split_lines (97 ∷ 10 ∷ 98 ∷ 10 ∷ []))
    ≡ codes " a" ++ (10 ∷ (codes "-+b" ++ (10 ∷ codes "+")))
unfolding sgard.Garden.Diff.diff_lines sgard.Garden.Diff.split_lines sgard.Garden.Diff.split_after
    ◌==◌
added_run = refl
