-- ===== src/Store/Beside.antt =====
-- The manifest beside the blobs: to save it touches none of them.
use mathlib.Core.List.{append_assoc}
use sgard.Base.{
  ◌≡◌, refl, ◌∙◌, sym, ap, subst, true, false, List, [], ◌∷◌, ◌++◌, Text, Bytes, codes, ◌==◌,
  has_prefix, length, drop, drop-append, Result, ok, err, All,
}
use sgard.Paths.{slash, join, dir, base}
use sgard.Paths.Clean.{IsComponent, render, join-render, dir-render, base-append}
use sgard.Host.{Host}
use sgard.Host.Laws.{SameAt, SameAt-refl, DiskLaws}
use sgard.Manifest.{Manifest}
use sgard.Manifest.Disk.{save}
use sgard.Store.{valid_hash, blob_path, exists}
use sgard.Store.Laws.{write_atomically_frame}
use sgard.Host.Atomic.{write_atomically}
use sgard.Store.Places.{blob_path-eq, below, prefix_drop, not_true}
use sgard.Store.Growing.{exists-valid_hash, exists-stat}

abbrev pub manifest_name : Text
manifest_name = codes "manifest.yaml"

name-IsComponent : IsComponent manifest_name
unfolding ◌==◌
name-IsComponent = record {
  no_slash = (
    refl,
    (
      refl,
      (refl, (refl, (refl, (refl, (refl, (refl, (refl, (refl, (refl, (refl, (refl, tt))))))))))),
    ),
  );
  not_nil = refl;
  not_dot = refl;
  not_dot_dot = refl;
}

module _ (t : Text) (ts : List Text) (rooted : All IsComponent (t ∷ ts)) where
  abbrev root : Text
  root = render (t ∷ ts)

  place-eq : join root manifest_name ≡ root ++ (slash ∷ manifest_name)
  place-eq = join-render t ts manifest_name [] rooted (name-IsComponent, tt)

  dir-place : dir (join root manifest_name) ≡ root
  dir-place = ap dir place-eq ∙ dir-render t ts manifest_name rooted name-IsComponent

  base-place : base (join root manifest_name) ≡ manifest_name
  base-place = ap base place-eq ∙ base-append root manifest_name name-IsComponent.no_slash

  drop-blob :
      (j : Text)
      → valid_hash j ≡ true
      → drop (length root) (blob_path root j) ≡ render (below j) ++ (slash ∷ j)
  drop-blob j v =
      ap (λ p. drop (length root) p)
        (blob_path-eq t ts rooted j v ∙ append_assoc root (render (below j)) (slash ∷ j))
      ∙ drop-append root (render (below j) ++ (slash ∷ j))

  -- A file of the root whose name begins with an m is no blob.
  beside_apart :
      (j name : Text)
      → valid_hash j ≡ true
      → has_prefix (root ++ (slash ∷ (b'm' ∷ name))) (blob_path root j) ≡ false
  unfolding has_prefix
  beside_apart j name v = not_true _ λ p. differ (
      subst (λ (x : Text). has_prefix (slash ∷ (b'm' ∷ name)) x ≡ true) (drop-blob j v)
        (subst (λ (x : Text). has_prefix x (drop (length root) (blob_path root j)) ≡ true)
          (drop-append root (slash ∷ (b'm' ∷ name)))
          (prefix_drop (length root) (root ++ (slash ∷ (b'm' ∷ name))) (blob_path root j) p)))
    where
      differ : has_prefix (slash ∷ (b'm' ∷ name)) (render (below j) ++ (slash ∷ j)) ≡ true → ⊥
      differ e = cc e

  module _ (h : Host) (laws : DiskLaws h) where
    saved-SameAt :
        (s : h.State) (j : Text) (out : Result Bytes)
        → valid_hash j ≡ true
        → SameAt h
            (blob_path root j)
            s
            (let p : Text = join root manifest_name in
              let t : Result (Unit {0}) × h.State = elim out [
                | ok bytes ↦ write_atomically h (base p ++ codes ".tmp.*") p bytes s
                | err e ↦ (err e, s)
              ] in
              t).1
    saved-SameAt s j (ok bytes) v =
        subst
          (λ (x : Text).
            SameAt h (blob_path root j) s
              (write_atomically h (x ++ codes ".tmp.*") (join root manifest_name) bytes s).1)
          (sym base-place)
          (write_atomically_frame h laws (manifest_name ++ codes ".tmp.") (join root manifest_name)
            (blob_path root j) bytes s
            (subst (λ (x : Text). has_prefix x (blob_path root j) ≡ false) (sym place-eq)
              (beside_apart j (drop 1 manifest_name) v))
            (λ r.
              subst
                (λ (d : Text).
                  has_prefix (d ++ (slash ∷ (manifest_name ++ codes ".tmp." ++ r)))
                    (blob_path root j)
                  ≡ false)
                (sym dir-place) (beside_apart j (drop 1 manifest_name ++ codes ".tmp." ++ r) v)))
    saved-SameAt s j (err x) v = SameAt-refl h (blob_path root j) s

    save-SameAt :
        (m : Manifest) (s : h.State) (j : Text)
        → valid_hash j ≡ true
        → SameAt h (blob_path root j) s (save h m (join root manifest_name) s).1
    unfolding save
    save-SameAt m s j v = saved-SameAt s j (h.marshal m) v

    -- To save the manifest of the repository leaves every blob where it is.
    pub exists-save :
        (m : Manifest) (s : h.State) (j : Text)
        → exists h root j s ≡ true
        → exists h root j (save h m (join root manifest_name) s).1 ≡ true
    unfolding exists
    exists-save m s j e =
        let v = exists-valid_hash h root j s e in
        let same = save-SameAt m s j v in rw (v, same.stat) (exists-stat h root j s e)
