-- ===== src/Store/Places.antt =====
-- Where the blobs lie: the path of a blob, its directory and its temporary files, told apart.
use mathlib.Core.List.{append-nil, append_assoc}
use sgard.Base.{
  ℕ, zero, suc, ◌+◌, ◌≡◌, ◌≢◌, ◌≤◌, ◌<◌, refl, ◌∙◌, sym, ap, subst, Bool, true, false, List, [],
  ◌∷◌, ◌++◌, Text, codes, ◌==◌, has_prefix, length, length-append, length-take, length-drop, take,
  drop, drop-append, All, All-append, arith,
}
use sgard.Paths.{slash, dir, join_all, clean}
use sgard.Paths.Clean.{
  IsComponent, render, clean-render, dir-render, intercalate-render, render-append,
}
use sgard.Store.{valid_hash, all_hex, blob_path}
use sgard.Store.Hash.{hex-IsComponent, hex_take, hex_drop}

-- The components of a blob's directory below the root
abbrev pub below : Text → List Text
below hash = codes "blobs" ∷ take 2 hash ∷ take 2 (drop 2 hash) ∷ []

abbrev pub blob_dir : Text → Text → Text
blob_dir root hash = root ++ render (below hash)

blobs-IsComponent : IsComponent (codes "blobs")
unfolding ◌==◌
blobs-IsComponent = record {
  no_slash = (refl, (refl, (refl, (refl, (refl, tt)))));
  not_nil = refl;
  not_dot = refl;
  not_dot_dot = refl;
}

nonempty_hex-IsComponent : (s : Text) → 0 < length s → all_hex s ≡ true → IsComponent s
nonempty_hex-IsComponent [] n h = absurd (omega arith)
nonempty_hex-IsComponent (c ∷ s) n h = hex-IsComponent c s h

pub valid_hash-length : (hash : Text) → valid_hash hash ≡ true → length hash ≡ 64
unfolding valid_hash
valid_hash-length hash h = ground arith

pub valid_hash-all_hex : (hash : Text) → valid_hash hash ≡ true → all_hex hash ≡ true
unfolding valid_hash
valid_hash-all_hex hash h = ground arith

module _ (hash : Text) (valid : valid_hash hash ≡ true) where
  hash-IsComponent : IsComponent hash
  hash-IsComponent =
      nonempty_hex-IsComponent hash (omega (arith, valid_hash-length hash valid))
        (valid_hash-all_hex hash valid)

  below-IsComponent : All IsComponent (below hash)
  below-IsComponent = (
    blobs-IsComponent,
    (
      nonempty_hex-IsComponent (take 2 hash)
          (omega (arith, valid_hash-length hash valid, length-take 2 hash))
          (hex_take 2 hash (valid_hash-all_hex hash valid)),
      (
        nonempty_hex-IsComponent (take 2 (drop 2 hash))
            (omega (
              arith,
              valid_hash-length hash valid,
              length-take 2 (drop 2 hash),
              length-drop 2 hash,
            ))
            (hex_take 2 (drop 2 hash) (hex_drop 2 hash (valid_hash-all_hex hash valid))),
        tt,
      ),
    ),
  )

  length-below : length (render (below hash)) ≡ 12
  length-below = omega (
    arith,
    valid_hash-length hash valid,
    length-take 2 hash,
    length-drop 2 hash,
    length-take 2 (drop 2 hash),
    length-append (take 2 hash) (slash ∷ (take 2 (drop 2 hash) ++ [])),
    length-append (take 2 (drop 2 hash)) [],
  )

  length-blob_dir : (root : Text) → length (blob_dir root hash) ≡ length root + 12
  length-blob_dir root = omega (arith, length-below, length-append root (render (below hash)))

-- A path that begins with the text is at least as long.
prefix_length : (n q : Text) → has_prefix n q ≡ true → length q ≤ length n
unfolding has_prefix
prefix_length n [] h = omega arith
prefix_length [] (c ∷ q) h = cc
prefix_length (d ∷ n) (c ∷ q) h = omega (arith, prefix_length n q (ground arith))

has_prefix-nil : (n : Text) → has_prefix n [] ≡ true
unfolding has_prefix
has_prefix-nil [] = refl
has_prefix-nil (d ∷ n) = refl

-- Behind two beginnings of one length the prefix goes on.
pub prefix_drop :
    (k : ℕ) (n q : Text) → has_prefix n q ≡ true → has_prefix (drop k n) (drop k q) ≡ true
unfolding has_prefix
prefix_drop zero n q h = h
prefix_drop (suc k) [] [] h = refl
prefix_drop (suc k) (d ∷ n) [] h = has_prefix-nil (drop k n)
prefix_drop (suc k) [] (c ∷ q) h = cc
prefix_drop (suc k) (d ∷ n) (c ∷ q) h = prefix_drop k n q (ground arith)

prefix_same_length : (n q : Text) → has_prefix n q ≡ true → length n ≡ length q → n ≡ q
unfolding has_prefix
prefix_same_length [] [] h e = refl
prefix_same_length (d ∷ n) [] h e = absurd (omega arith)
prefix_same_length [] (c ∷ q) h e = absurd (omega arith)
prefix_same_length (d ∷ n) (c ∷ q) h e = ground (arith, prefix_same_length n q)

dot_no_hex :
    (other r : Text)
    → length other ≡ 64
    → all_hex other ≡ true
    → has_prefix (slash ∷ (codes ".blob-" ++ r)) (slash ∷ other) ≡ true
    → ⊥
unfolding has_prefix all_hex
dot_no_hex [] r n h p = omega arith
dot_no_hex (c ∷ other) r n h p = ground arith

pub not_true : (b : Bool) → (b ≡ true → ⊥) → b ≡ false
not_true true h = absurd (h refl)
not_true false h = refl

module _ (t : Text) (ts : List Text) (rooted : All IsComponent (t ∷ ts)) where
  abbrev root : Text
  root = render (t ∷ ts)

  pub blob_path-eq :
      (hash : Text)
      → valid_hash hash ≡ true
      → blob_path root hash ≡ blob_dir root hash ++ (slash ∷ hash)
  unfolding blob_path join_all
  blob_path-eq hash v =
      let ds : List Text = below hash ++ (hash ∷ []) in
      ap clean (intercalate-render root ds ∙ sym (render-append (t ∷ ts) ds))
      ∙ clean-render t (ts ++ ds) (
          All-append IsComponent (t ∷ ts) ds rooted (
            All-append IsComponent (below hash) (hash ∷ []) (below-IsComponent hash v)
              (hash-IsComponent hash v, tt)))
      ∙ render-append (t ∷ ts) ds
      ∙ ap (λ r. root ++ r) (render-append (below hash) (hash ∷ []))
      ∙ sym (append_assoc root (render (below hash)) _)
      ∙ ap (λ r. blob_dir root hash ++ (slash ∷ r)) (append-nil hash)

  pub dir-blob_path :
      (hash : Text) → valid_hash hash ≡ true → dir (blob_path root hash) ≡ blob_dir root hash
  dir-blob_path hash v =
      ap dir (
        blob_path-eq hash v
        ∙ ap (λ r. r ++ (slash ∷ hash)) (sym (render-append (t ∷ ts) (below hash))))
      ∙ dir-render t (ts ++ below hash) hash
          (All-append IsComponent (t ∷ ts) (below hash) rooted (below-IsComponent hash v))
          (hash-IsComponent hash v)
      ∙ render-append (t ∷ ts) (below hash)

  length-blob_path :
      (hash : Text) → valid_hash hash ≡ true → length (blob_path root hash) ≡ length root + 77
  length-blob_path hash v = omega (
    arith,
    ap length (blob_path-eq hash v),
    length-append (blob_dir root hash) (slash ∷ hash),
    length-blob_dir hash v root,
    valid_hash-length hash v,
  )

  abbrev place : ℕ
  place = length root + 12

  drop-blob_path :
      (hash : Text) → valid_hash hash ≡ true → drop place (blob_path root hash) ≡ slash ∷ hash
  drop-blob_path hash v =
      rw (blob_path-eq hash v, ← length-blob_dir hash v root)
        (drop-append (blob_dir root hash) (slash ∷ hash))

  -- Two blobs have two paths, and neither is the beginning of the other.
  pub blob_paths_apart :
      (hash other : Text)
      → valid_hash hash ≡ true
      → valid_hash other ≡ true
      → hash ≢ other
      → has_prefix (blob_path root hash) (blob_path root other) ≡ false
  blob_paths_apart hash other v w ne = not_true _ λ p. ne (
      ap (drop 1) (
        sym (drop-blob_path hash v)
        ∙ ap (drop place)
            (prefix_same_length _ _ p (length-blob_path hash v ∙ sym (length-blob_path other w)))
        ∙ drop-blob_path other w))

  -- No blob lies above the directory of a blob.
  pub blob_dir_apart :
      (hash other : Text)
      → valid_hash hash ≡ true
      → valid_hash other ≡ true
      → has_prefix (dir (blob_path root hash)) (blob_path root other) ≡ false
  blob_dir_apart hash other v w = not_true _ λ p. omega (
    arith,
    prefix_length _ _ p,
    ap length (dir-blob_path hash v),
    length-blob_dir hash v root,
    length-blob_path other w,
  )

  -- The temporary files beside a blob are no blobs.
  pub temp_apart :
      (hash other n r : Text)
      → valid_hash hash ≡ true
      → valid_hash other ≡ true
      → n ≡ dir (blob_path root hash) ++ (slash ∷ (codes ".blob-" ++ r))
      → has_prefix n (blob_path root other) ≡ false
  temp_apart hash other n r v w e = not_true _ λ p.
      dot_no_hex other r (valid_hash-length other w) (valid_hash-all_hex other w) (
        subst (λ (x : Text). has_prefix x (slash ∷ other) ≡ true) dropped
          (subst (λ (x : Text). has_prefix (drop place n) x ≡ true) (drop-blob_path other w)
            (prefix_drop place n (blob_path root other) p)))
    where
      dropped : drop place n ≡ slash ∷ (codes ".blob-" ++ r)
      dropped =
          rw (e, dir-blob_path hash v, ← length-blob_dir hash v root)
            (drop-append (blob_dir root hash) _)
