-- ===== src/Memory/Laws.antt =====
-- The host in memory has the laws of a disk.
use sgard.Base.{
  ℕ, zero, suc, ◌≡◌, ◌<◌, refl, ap, true, false, Option, none, some, [], ◌∷◌, ◌++◌, Text, Bytes,
  ◌==◌, eq_iff, eq_refl, has_prefix, prefix-append, if◌then◌else◌, ok, err, is_ok, All, arith,
  codes, Error,
}
use mathlib.Core.List.{append-nil}
use sgard.Host.Laws.{SameAt, SameAt-refl, SameAt-trans, DiskLaws}
use sgard.Memory.{
  Files, lookup, insert, erase, stem, memory, move, take_away, append_to, zeros, bytes_of, found,
  info, temp_name, digest,
}

pub lookup-insert :
    (p q : Text) (b : Bytes) (s : Files)
    → lookup q (insert p b s) ≡ (if p == q then some b else lookup q s)
unfolding lookup insert
lookup-insert p q b [] = ground arith
lookup-insert p q b ((r, c) ∷ s) =
    ground (arith, eq_iff r p, eq_iff r q, eq_iff p q, lookup-insert p q b s)

lookup-erase :
    (p q : Text) (s : Files) → lookup q (erase p s) ≡ (if p == q then none else lookup q s)
unfolding lookup erase
lookup-erase p q [] = ground arith
lookup-erase p q ((r, c) ∷ s) =
    ground (arith, eq_iff r p, eq_iff r q, eq_iff p q, lookup-erase p q s)

prefix_refl : (p : Text) → has_prefix p p ≡ true
prefix_refl p = rw append-nil at (prefix-append p [])

apart-ne : (p q : Text) → has_prefix p q ≡ false → (p == q) ≡ false
apart-ne p q h = ground (arith, eq_iff p q, prefix_refl p)

same_lookup : (q : Text) (s s' : Files) → lookup q s' ≡ lookup q s → SameAt memory q s s'
same_lookup q s s' e = record { lstat = rw e; stat = rw e; read_file = rw e; readlink = refl }

insert_frame :
    (p q : Text) (b : Bytes) (s : Files) → has_prefix p q ≡ false → SameAt memory q s (insert p b s)
insert_frame p q b s h = same_lookup q s _ (rw (lookup-insert, apart-ne p q h) refl)

erase_frame : (p q : Text) (s : Files) → has_prefix p q ≡ false → SameAt memory q s (erase p s)
erase_frame p q s h = same_lookup q s _ (rw (lookup-erase, apart-ne p q h) refl)

stem-star : (pre : Text) → stem (pre ++ (b'*' ∷ [])) ≡ pre
unfolding stem
stem-star [] = refl
stem-star (c ∷ []) = refl
stem-star (c ∷ d ∷ pre) = ap (λ x. c ∷ x) (stem-star (d ∷ pre))

append_to_frame :
    (n q : Text) (bs : Bytes) (o : Option Bytes) (s : Files)
    → has_prefix n q ≡ false
    → SameAt memory q s (append_to n bs o s).1
append_to_frame n q bs none s h = SameAt-refl memory q s
append_to_frame n q bs (some old) s h = insert_frame n q (old ++ bs) s h

append_to-eq-ok :
    (n : Text) (old bs : Bytes) (o : Option Bytes) (s s' : Files)
    → append_to n bs o s ≡ (ok tt, s')
    → bytes_of o ≡ ok old
    → bytes_of (lookup n s') ≡ ok (old ++ bs)
append_to-eq-ok n old bs none s s' e r = ground arith
append_to-eq-ok n old bs (some b) s s' e r =
    ground (arith, lookup-insert n n (b ++ bs) s, eq_refl n)

move_frame :
    (a b q : Text) (o : Option Bytes) (s : Files)
    → has_prefix a q ≡ false
    → has_prefix b q ≡ false
    → SameAt memory q s (move a b o s).1
move_frame a b q none s ha hb = SameAt-refl memory q s
move_frame a b q (some c) s ha hb =
    SameAt-trans (erase_frame a q s ha) (insert_frame b q c (erase a s) hb)

move-eq-err :
    (a b q : Text) (o : Option Bytes) (s s' : Files) (x : Error)
    → move a b o s ≡ (err x, s')
    → SameAt memory q s s'
move-eq-err a b q none s s' x e = same_lookup q s s' (ground arith)
move-eq-err a b q (some c) s s' x e = ground arith

move-eq-ok :
    (a b : Text) (o : Option Bytes) (s s' : Files)
    → move a b o s ≡ (ok tt, s')
    → bytes_of (lookup b s') ≡ bytes_of o
move-eq-ok a b none s s' e = ground arith
move-eq-ok a b (some c) s s' e = ground (arith, lookup-insert b b c (erase a s), eq_refl b)

take_away_frame :
    (p q : Text) (o : Option Bytes) (s : Files)
    → has_prefix p q ≡ false
    → SameAt memory q s (take_away p o s).1
take_away_frame p q none s h = SameAt-refl memory q s
take_away_frame p q (some c) s h = erase_frame p q s h

take_away-eq-ok :
    (p : Text) (o : Option Bytes) (s s' : Files)
    → take_away p o s ≡ (ok tt, s')
    → is_ok (found info (lookup p s')) ≡ false
take_away-eq-ok p none s s' e = ground arith
take_away-eq-ok p (some c) s s' e = ground (arith, lookup-erase p p s, eq_refl p)

found-bytes_of : (o : Option Bytes) (bs : Bytes) → bytes_of o ≡ ok bs → is_ok (found info o) ≡ true
found-bytes_of none bs e = ground arith
found-bytes_of (some b) bs e = refl

zeros-bytes : (n : ℕ) → All (λ b. b < 256) (zeros n)
zeros-bytes zero = tt
zeros-bytes (suc n) = (omega arith, zeros-bytes n)

digest-bytes : (bs : Bytes) → All (λ b. b < 256) (digest bs)
digest-bytes bs = (omega arith, (omega arith, zeros-bytes 30))

create_temp-eq-ok :
    (d pattern : Text) (s s' : Files) (n : Text)
    → memory.create_temp d pattern s ≡ (ok n, s')
    → (n ≡ temp_name d pattern) × (s' ≡ insert n [] s)
create_temp-eq-ok d pattern s s' n e = ground arith

pub memory-DiskLaws : DiskLaws memory
memory-DiskLaws = record {
  mkdir_all_frame = λ d m s q h. SameAt-refl memory q s;
  create_temp_name = λ d pre s s' n e.
      (codes "1", rw ((create_temp-eq-ok d (pre ++ (b'*' ∷ [])) s s' n e).0, stem-star) refl);
  create_temp_frame = λ d pattern s s' n q e h.
      rw ((create_temp-eq-ok d pattern s s' n e).1) (insert_frame n q [] s h);
  create_temp_failed = λ d pattern s s' x q e. ground arith;
  create_temp_empty = λ d pattern s s' n e.
      rw ((create_temp-eq-ok d pattern s s' n e).1, lookup-insert, eq_refl n) refl;
  write_temp_frame = λ n bs s q h. append_to_frame n q bs (lookup n s) s h;
  write_temp_appends = λ n old bs s s' e r. append_to-eq-ok n old bs (lookup n s) s s' e r;
  close_temp_frame = λ n s q. SameAt-refl memory q s;
  rename_frame = λ a b s q ha hb. move_frame a b q (lookup a s) s ha hb;
  rename_failed = λ a b s s' x q e. move-eq-err a b q (lookup a s) s s' x e;
  rename_moves = λ a b s s' e. move-eq-ok a b (lookup a s) s s' e;
  remove_frame = λ p s q h. take_away_frame p q (lookup p s) s h;
  remove_gone = λ p s s' e. take_away-eq-ok p (lookup p s) s s' e;
  stat_read = λ p s bs e. found-bytes_of (lookup p s) bs e;
  rand_frame = λ n s q. SameAt-refl memory q s;
  digest_length = λ bs. refl;
  digest_bytes = digest-bytes;
}
