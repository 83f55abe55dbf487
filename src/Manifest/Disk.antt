-- ===== src/Manifest/Disk.antt =====
-- manifest/manifest.go: `Save` and `Load`
use sgard.Base.{◌++◌, Text, codes, Result, ok, err, and_then, Exec}
use sgard.Paths.{base}
use sgard.Host.{Host}
use sgard.Host.Atomic.{write_atomically}
use sgard.Manifest.{Manifest}

module _ (h : Host) where
  -- `Save`
  unfoldable pub save : Manifest → Text → Exec h.State (Unit {0})
  save m path s = elim (h.marshal m) [
    | ok bytes ↦ write_atomically h (base path ++ codes ".tmp.*") path bytes s
    | err e ↦ (err e, s)
  ]

  -- `Load`
  unfoldable pub load : Text → h.State → Result Manifest
  load path s = and_then (h.read_file path s) (λ bytes. h.unmarshal bytes)
