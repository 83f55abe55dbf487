-- ===== src/Garden/Maintain/Pruning.antt =====
-- What `Prune` does to the blobs of the store.
use sgard.Base.{
  ℕ, ◌≡◌, ◌≢◌, ◌⊎◌, inl, inr, refl, ◌∙◌, sym, ap, ◌+◌, true, false, List, [], ◌∷◌, Text, ◌==◌,
  eq_iff, Result, ok, err, All, Any, arith, subst, Bool-cases,
}
use sgard.Paths.Clean.{IsComponent, render}
use sgard.Manifest.{Entry}
use sgard.Host.{Host}
use sgard.Host.Laws.{DiskLaws}
use sgard.Store
use sgard.Store.{valid_hash}
use sgard.Store.Blobs
use sgard.Garden.{Repo, files}
use sgard.Garden.Identity.{contains}
use sgard.Garden.Maintain.{has_blob, referenced, prune_loop, pruned, prune}

-- The blob of a tracked file is referenced.
contains-referenced :
    (es : List Entry) (j : Text)
    → Any (λ e. (has_blob e ≡ true) × (e.hash ≡ j)) es
    → contains (referenced es) j ≡ true
unfolding contains referenced
contains-referenced [] j x = elim x [ ]
contains-referenced (e ∷ es) j (inl (b, q)) = ground (arith, eq_iff e.hash j)
contains-referenced (e ∷ es) j (inr a) = ground (arith, contains-referenced es j a)

-- Where the store holds the same blob as before
abbrev pub SameBlob : (h : Host) → Text → Text → h.State → h.State → Type 0
SameBlob h root j s s' =
    (Store.exists h root j s' ≡ Store.exists h root j s)
    × (Store.read h root j s' ≡ Store.read h root j s)

contains_apart :
    (kept : List Text) (hash j : Text)
    → contains kept hash ≡ false
    → contains kept j ≡ true
    → hash ≢ j
contains_apart kept hash j out within same = cc (out, within, same)

-- The blobs of the list that the loop removes
unfoldable pub unkept : List Text → List Text → ℕ
unkept kept [] = 0
unkept kept (hash ∷ hashes) =
    let rest = unkept kept hashes in elim (contains kept hash) [ true ↦ rest | false ↦ rest + 1 ]

skip_there :
    (kept : List Text) (hash : Text) (hashes : List Text) (j : Text) (Gone : Type 0)
    → contains kept hash ≡ true
    → contains kept j ≡ false
    → (contains (hash ∷ hashes) j ≡ true) ⊎ Gone
    → (contains hashes j ≡ true) ⊎ Gone
unfolding contains
skip_there kept hash hashes j Gone k c (inr g) = inr g
skip_there kept hash hashes j Gone k c (inl there) =
    let apart : hash ≢ j = λ same. contains_apart kept j hash c k (sym same) in
    inl (ground (arith, there, eq_iff hash j, apart))

next_there :
    (hash : Text) (hashes : List Text) (j : Text) (Gone : Type 0)
    → (contains (hash ∷ hashes) j ≡ true) ⊎ Gone
    → (contains hashes j ≡ true) ⊎ ((hash ≡ j) ⊎ Gone)
unfolding contains
next_there hash hashes j Gone (inr g) = inr (inr g)
next_there hash hashes j Gone (inl there) = elim (Bool-cases (hash == j)) [
  | inl q ↦ inr (inl ((eq_iff hash j).0 q))
  | inr n ↦ inl (rw n at there)
]

module _ (h : Host) (laws : DiskLaws h) (t : Text) (ts : List Text)
    (rooted : All IsComponent (t ∷ ts)) where
  abbrev root : Text
  root = render (t ∷ ts)

  -- What the loop does with the result of `Delete`
  abbrev after :
      List Text → List Text → ℕ → Result (Unit {0}) × h.State → Result (Unit {0}) × ℕ × h.State
  after kept hashes n (err x, u) = (err x, n, u)
  after kept hashes n (ok _, u) = prune_loop h root kept hashes (n + 1) u

  prune_loop-unfold :
      (kept : List Text) (hash : Text) (hashes : List Text) (n : ℕ) (s : h.State)
      → contains kept hash ≡ false
      → prune_loop h root kept (hash ∷ hashes) n s
        ≡ after kept hashes n (Store.delete h root hash s)
  unfolding prune_loop
  prune_loop-unfold kept hash hashes n s e = ground arith

  prune_loop-skip :
      (kept : List Text) (hash : Text) (hashes : List Text) (n : ℕ) (s : h.State)
      → contains kept hash ≡ true
      → prune_loop h root kept (hash ∷ hashes) n s ≡ prune_loop h root kept hashes n s
  unfolding prune_loop
  prune_loop-skip kept hash hashes n s e = ground arith

  kept_next :
      (kept hashes : List Text) (n : ℕ) (s : h.State) (j : Text) (out : Result (Unit {0}) × h.State)
      → SameBlob h root j s out.1
      → ((u : h.State) → SameBlob h root j u (prune_loop h root kept hashes (n + 1) u).2)
      → SameBlob h root j s (after kept hashes n out).2
  kept_next kept hashes n s j (err x, u) same next = same
  kept_next kept hashes n s j (ok _, u) same next = ((next u).0 ∙ same.0, (next u).1 ∙ same.1)

  prune_loop-kept :
      (kept blobs : List Text) (n : ℕ) (s : h.State) (j : Text)
      → valid_hash j ≡ true
      → contains kept j ≡ true
      → SameBlob h root j s (prune_loop h root kept blobs n s).2
  unfolding prune_loop
  prune_loop-kept kept [] n s j v c = (refl, refl)
  prune_loop-kept kept (hash ∷ hashes) n s j v c = elim (Bool-cases (contains kept hash)) [
    | inl e ↦ rw (prune_loop-skip kept hash hashes n s e) (prune_loop-kept kept hashes n s j v c)
    | inr e ↦ rw (prune_loop-unfold kept hash hashes n s e) (
        kept_next kept hashes n s j (Store.delete h root hash s)
          (Store.Blobs.delete-other h laws t ts rooted hash s j v (contains_apart kept hash j e c))
          (λ u. prune_loop-kept kept hashes (n + 1) u j v c))
  ]

  invalid_absent : (j : Text) (u : h.State) → valid_hash j ≡ false → Store.exists h root j u ≡ false
  unfolding Store.exists
  invalid_absent j u n = ground arith

  -- A blob that is not there is not there after a removal.
  delete_absent :
      (hash j : Text) (s u : h.State)
      → Store.delete h root hash s ≡ (ok tt, u)
      → ((hash ≡ j) ⊎ (Store.exists h root j s ≡ false))
      → Store.exists h root j u ≡ false
  delete_absent hash j s u e (inl same) =
      rw (← same) (Store.Blobs.exists-delete h laws t ts rooted hash s u e)
  delete_absent hash j s u e (inr absent) = elim (Bool-cases (valid_hash j)) [
    | inr n ↦ invalid_absent j u n
    | inl v ↦ elim (Bool-cases (hash == j)) [
      | inl q ↦ rw (← (eq_iff hash j).0 q) (Store.Blobs.exists-delete h laws t ts rooted hash s u e)
      | inr n ↦
          let other =
            Store.Blobs.delete-other h laws t ts rooted hash s j v
              (λ q. cc (n, (eq_iff hash j).1 q)) in
          rw e at other.0 ∙ absent
    ]
  ]

  after-eq-ok :
      (kept hashes : List Text) (n n' : ℕ) (s' : h.State) (out : Result (Unit {0}) × h.State)
      → after kept hashes n out ≡ (ok tt, n', s')
      → (u : h.State) × (out ≡ (ok tt, u))
        × (prune_loop h root kept hashes (n + 1) u ≡ (ok tt, n', s'))
  after-eq-ok kept hashes n n' s' (err x, u) e = ground arith
  after-eq-ok kept hashes n n' s' (ok tt, u) e = (u, refl, e)

  prune_next :
      (kept : List Text) (hash : Text) (hashes : List Text) (n n' : ℕ) (s s' : h.State)
      → contains kept hash ≡ false
      → prune_loop h root kept (hash ∷ hashes) n s ≡ (ok tt, n', s')
      → (u : h.State) × (Store.delete h root hash s ≡ (ok tt, u))
        × (prune_loop h root kept hashes (n + 1) u ≡ (ok tt, n', s'))
  prune_next kept hash hashes n n' s s' c e =
      after-eq-ok kept hashes n n' s' (Store.delete h root hash s)
        (sym (prune_loop-unfold kept hash hashes n s c) ∙ e)

  -- The number of removals, and what is gone when the loop succeeds
  prune_loop-count :
      (kept blobs : List Text) (n n' : ℕ) (s s' : h.State)
      → prune_loop h root kept blobs n s ≡ (ok tt, n', s')
      → n' ≡ unkept kept blobs + n
  unfolding prune_loop unkept
  prune_loop-count kept [] n n' s s' e = ground arith
  prune_loop-count kept (hash ∷ hashes) n n' s s' e = elim (Bool-cases (contains kept hash)) [
    | inl c ↦ ground (arith, prune_loop-count kept hashes n n' s s')
    | inr c ↦
        let (u, d, rest) = prune_next kept hash hashes n n' s s' c e in
        ground (arith, c, prune_loop-count kept hashes (n + 1) n' u s' rest)
  ]

  prune_loop-gone :
      (kept blobs : List Text) (n n' : ℕ) (j : Text) (s s' : h.State)
      → prune_loop h root kept blobs n s ≡ (ok tt, n', s')
      → contains kept j ≡ false
      → (contains blobs j ≡ true) ⊎ (Store.exists h root j s ≡ false)
      → Store.exists h root j s' ≡ false
  unfolding prune_loop contains
  prune_loop-gone kept [] n n' j s s' e c (inl there) = ground arith
  prune_loop-gone kept [] n n' j s s' e c (inr absent) = ground arith
  prune_loop-gone kept (hash ∷ hashes) n n' j s s' e c there =
      elim (Bool-cases (contains kept hash)) [
        | inl k ↦
            prune_loop-gone kept hashes n n' j s s'
              (sym (prune_loop-skip kept hash hashes n s k) ∙ e) c
              (skip_there kept hash hashes j (Store.exists h root j s ≡ false) k c there)
        | inr k ↦
            let (u, d, rest) = prune_next kept hash hashes n n' s s' k e in
            prune_loop-gone kept hashes (n + 1) n' j u s' rest c
              (elim (next_there hash hashes j (Store.exists h root j s ≡ false) there) [
                | inl m ↦ inl m
                | inr gone ↦ inr (delete_absent hash j s u d gone)
              ])
      ]

  pruned-kept :
      (s : Repo h) (j : Text) (listed : Result (List Text))
      → valid_hash j ≡ true
      → contains (referenced (files s)) j ≡ true
      → SameBlob h root j s.disk (pruned h root s listed).2.disk
  pruned-kept s j (err x) v c = (refl, refl)
  pruned-kept s j (ok blobs) v c = prune_loop-kept (referenced (files s)) blobs 0 s.disk j v c

  -- On a disk with the laws of `DiskLaws`, `Prune` leaves the blob of every tracked file as it was,
  -- where the file's hash is valid, whether it succeeds or fails.
  pub prune-kept :
      (s : Repo h) (j : Text)
      → s.garden.root ≡ root
      → Any (λ e. (has_blob e ≡ true) × (e.hash ≡ j)) (files s)
      → valid_hash j ≡ true
      → SameBlob h root j s.disk (prune h s).2.disk
  unfolding prune
  prune-kept s j r a v =
      subst (λ (x : Text). SameBlob h root j s.disk (pruned h x s (Store.list h x s.disk)).2.disk)
        (sym r) (pruned-kept s j (Store.list h root s.disk) v (contains-referenced (files s) j a))

  ran :
      (s s' : Repo h) (n : ℕ) (blobs : List Text)
      → pruned h root s (ok blobs) ≡ (ok tt, n, s')
      → prune_loop h root (referenced (files s)) blobs 0 s.disk ≡ (ok tt, n, s'.disk)
  ran s s' n blobs e = ap (λ (x : Result (Unit {0}) × ℕ × Repo h). (x.0, x.1, x.2.disk)) e

  -- On a disk with the laws of `DiskLaws`, `Prune`, where it succeeds: the number returned is the
  -- number of the blobs that the store lists and that are not those of tracked files, and none of
  -- these is left.
  pub prune-gone :
      (s s' : Repo h) (n : ℕ) (blobs : List Text)
      → s.garden.root ≡ root
      → Store.list h root s.disk ≡ ok blobs
      → prune h s ≡ (ok tt, n, s')
      → (n ≡ unkept (referenced (files s)) blobs)
        × ((j : Text)
            → contains blobs j ≡ true
            → contains (referenced (files s)) j ≡ false
            → Store.exists h root j s'.disk ≡ false)
  unfolding prune
  prune-gone s s' n blobs r l e =
      let run : prune_loop h root (referenced (files s)) blobs 0 s.disk ≡ (ok tt, n, s'.disk) =
        ran s s' n blobs (
          rw l at
            (subst (λ (x : Text). pruned h x s (Store.list h x s.disk) ≡ (ok tt, n, s')) r e)) in
      (
        omega (arith, prune_loop-count (referenced (files s)) blobs 0 n s.disk s'.disk run),
        λ j there out.
            prune_loop-gone (referenced (files s)) blobs 0 n j s.disk s'.disk run out (inl there),
      )
