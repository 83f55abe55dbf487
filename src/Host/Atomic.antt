-- ===== src/Host/Atomic.antt =====
-- The atomic write that store/store.go and manifest/manifest.go share: a temporary file, renamed.
use sgard.Base.{Text, Bytes, Result, ok, err, Exec, ◌>>=◌, ◌>>◌}
use sgard.Paths.{dir}
use sgard.Host.{Host}

module _ (h : Host) where
  -- `os.Remove(tmpName)` behind a step that failed
  unfoldable pub undone : Text → Result (Unit {0}) × h.State → Result (Unit {0}) × h.State
  undone tmp (ok _, s) = (ok tt, s)
  undone tmp (err e, s) = (err e, (h.remove tmp s).1)

  unfoldable pub or_remove : Text → Exec h.State (Unit {0}) → Exec h.State (Unit {0})
  or_remove tmp step s = undone tmp (step s)

  -- `tmp.Close()` behind a write that failed
  abbrev pub closed : Text → Result (Unit {0}) × h.State → Result (Unit {0}) × h.State
  closed tmp (ok _, s) = (ok tt, s)
  closed tmp (err e, s) = (err e, (h.close_temp tmp s).1)

  abbrev pub write_or_close : Text → Bytes → Exec h.State (Unit {0})
  write_or_close tmp bytes s = closed tmp (h.write_temp tmp bytes s)

  -- The bytes to the temporary file, and the file into place
  unfoldable pub move_into : Text → Text → Bytes → Exec h.State (Unit {0})
  move_into tmp p bytes = do
    or_remove tmp (write_or_close tmp bytes)
    or_remove tmp (h.close_temp tmp)
    or_remove tmp (h.rename tmp p)

  -- A temporary file beside `p`, by the pattern, and so into place
  unfoldable pub write_atomically : Text → Text → Bytes → Exec h.State (Unit {0})
  write_atomically pattern p bytes = do tmp ← h.create_temp (dir p) pattern; move_into tmp p bytes
