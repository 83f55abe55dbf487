-- ===== src/Garden/Diff/Rebuilding.antt =====
-- What a diff says of the two files.
use sgard.Base.{
  ℕ, ◌≡◌, ◌≢◌, ◌∙◌, false, All, arith, ap, refl, true, Bool-cases, inl, inr, eqb, List, [], ◌∷◌,
  ◌++◌, Text, codes, ◌==◌, eq_iff, if◌then◌else◌, ok,
}
use sgard.Manifest.{Entry, file_type}
use sgard.Host.{Host}
use sgard.Garden.{Repo}
use sgard.Garden.Restore.{restored_bytes}
use sgard.Garden.Diff.{
  newline, put_first, split_after, split_lines, diff_lines, simple_diff, diff_bytes, diff_entry,
}

-- The pieces, one behind the other
unfoldable pub joined : List Text → Text
joined [] = []
joined (l ∷ ls) = l ++ joined ls

joined-put_first : (c : ℕ) (ls : List Text) → joined (put_first c ls) ≡ c ∷ joined ls
unfolding joined
joined-put_first c [] = refl
joined-put_first c (l ∷ ls) = refl

joined-split_after : (s : Text) → joined (split_after s) ≡ s
unfolding joined split_after
joined-split_after [] = refl
joined-split_after (c ∷ s) = elim (Bool-cases (eqb c newline)) [
  | inl ends ↦ rw ends (ap (λ t. c ∷ t) (joined-split_after s))
  | inr inside ↦
      rw inside (joined-put_first c (split_after s) ∙ ap (λ t. c ∷ t) (joined-split_after s))
]

-- The pieces of a text at its newlines: each but the last ends in its only newline, and the last, which
-- may be empty, has none.
abbrev pub NoNewline : Text → Type 0
NoNewline l = All (λ c. eqb c newline ≡ false) l

abbrev pub IsLine : Text → Type 0
IsLine l = (body : Text) × (l ≡ body ++ (newline ∷ [])) × NoNewline body

abbrev pub AreLines : List Text → Type 0
AreLines [] = Unit
AreLines (l ∷ []) = NoNewline l
AreLines (l ∷ (l' ∷ ls)) = IsLine l × AreLines (l' ∷ ls)

put_first-AreLines :
    (c : ℕ) (ls : List Text) → eqb c newline ≡ false → AreLines ls → AreLines (put_first c ls)
put_first-AreLines c [] other lines = (other, tt)
put_first-AreLines c (l ∷ []) other lines = (other, lines)
put_first-AreLines c (l ∷ (l' ∷ ls)) other ((body, ends, inside), lines) =
    ((c ∷ body, ap (λ t. c ∷ t) ends, (other, inside)), lines)

newline-AreLines :
    (c : ℕ) (ls : List Text)
    → eqb c newline ≡ true
    → ls ≢ []
    → AreLines ls
    → AreLines ((c ∷ []) ∷ ls)
newline-AreLines c [] ends some_left lines = absurd (some_left refl)
newline-AreLines c (l ∷ ls) ends some_left lines =
    (([], ap (λ (n : ℕ). n ∷ []) (ground (arith, ends)), tt), lines)

put_first-cons : (c : ℕ) (ls : List Text) → put_first c ls ≢ []
put_first-cons c [] e = cc e
put_first-cons c (l ∷ ls) e = cc e

split_after-cons : (s : Text) → split_after s ≢ []
unfolding split_after
split_after-cons [] = λ e. cc e
split_after-cons (c ∷ s) = elim (Bool-cases (eqb c newline)) [
  | inl ends ↦ rw ends (λ e. cc e)
  | inr inside ↦ rw inside (put_first-cons c (split_after s))
]

split_after-AreLines : (s : Text) → AreLines (split_after s)
unfolding split_after
split_after-AreLines [] = tt
split_after-AreLines (c ∷ s) = elim (Bool-cases (eqb c newline)) [
  | inl ends ↦
      rw ends
        (newline-AreLines c (split_after s) ends (split_after-cons s) (split_after-AreLines s))
  | inr inside ↦ rw inside (put_first-AreLines c (split_after s) inside (split_after-AreLines s))
]

-- The pieces of a file make up the file, and are its lines.
joined-split_lines : (s : Text) → joined (split_lines s) ≡ s
unfolding split_lines joined
joined-split_lines [] = refl
joined-split_lines (c ∷ s) = joined-split_after (c ∷ s)

split_lines-AreLines : (s : Text) → AreLines (split_lines s)
unfolding split_lines
split_lines-AreLines [] = tt
split_lines-AreLines (c ∷ s) = split_after-AreLines (c ∷ s)

-- A step of an edit script: a piece kept, removed or added
pub data Change : Type 0 where
  kept removed added : Text → Change

abbrev pub rendered : List Change → Text
rendered [] = []
rendered (kept l ∷ cs) = (b' ' ∷ l) ++ rendered cs
rendered (removed l ∷ cs) = (b'-' ∷ l) ++ rendered cs
rendered (added l ∷ cs) = (b'+' ∷ l) ++ rendered cs

-- The pieces of the file that the script begins with, and of the one that it ends with
abbrev pub old_side : List Change → List Text
old_side [] = []
old_side (kept l ∷ cs) = l ∷ old_side cs
old_side (removed l ∷ cs) = l ∷ old_side cs
old_side (added l ∷ cs) = old_side cs

abbrev pub new_side : List Change → List Text
new_side [] = []
new_side (kept l ∷ cs) = l ∷ new_side cs
new_side (removed l ∷ cs) = new_side cs
new_side (added l ∷ cs) = l ∷ new_side cs

Script : List Text → List Text → Type 0
Script old new =
    (cs : List Change) × (diff_lines old new ≡ rendered cs)
    × (old_side cs ≡ old)
    × (new_side cs ≡ new)

diff_lines-Script : (old new : List Text) → Script old new
unfolding diff_lines Script
diff_lines-Script [] [] = ([], refl, refl, refl)
diff_lines-Script (o ∷ os) [] =
    let (cs, text, old, new) = diff_lines-Script os [] in
    (removed o ∷ cs, ap (λ t. (b'-' ∷ o) ++ t) text, ap (λ t. o ∷ t) old, new)
diff_lines-Script [] (n ∷ ns) =
    let (cs, text, old, new) = diff_lines-Script [] ns in
    (added n ∷ cs, ap (λ t. (b'+' ∷ n) ++ t) text, old, ap (λ t. n ∷ t) new)
diff_lines-Script (o ∷ os) (n ∷ ns) =
    let (cs, text, old, new) = diff_lines-Script os ns in
    elim (Bool-cases (o == n)) [
      | inl same ↦ rw same (
        kept o ∷ cs,
        ap (λ t. (b' ' ∷ o) ++ t) text,
        ap (λ t. o ∷ t) old,
        ap (λ t. o ∷ t) new ∙ ap (λ l. l ∷ ns) ((eq_iff o n).0 same),
      )
      | inr differ ↦ rw differ (
        removed o ∷ (added n ∷ cs),
        ap (λ t. (b'-' ∷ o) ++ ((b'+' ∷ n) ++ t)) text,
        ap (λ t. o ∷ t) old,
        ap (λ t. n ∷ t) new,
      )
    ]

-- Where a file entry's blob can be read, and decrypted if need be, and the file on disk can be read:
-- `Diff` returns nothing if the bytes are the same. Else it returns, behind its two lines of names,
-- the pieces of an edit script, kept, removed and added ones, each behind its sign and with nothing
-- put between them. The pieces that the script begins with make up the blob and those that it ends
-- with the file, and both are cut at the newlines: each piece but the last ends in its only newline,
-- and the last has none.
pub diff_entry_lem :
    (h : Host) (path tilded : Text) (e : Entry) (s : Repo h) (stored current : Text)
    → (e.type == file_type) ≡ true
    → restored_bytes h s.garden e s.disk ≡ ok stored
    → h.read_file path s.disk ≡ ok current
    → (cs : List Change) × (diff_entry h path tilded e s
        ≡ ok (
            if stored == current
            then []
            else codes "--- "
              ++ ((tilded ++ codes " (stored)")
                  ++ (newline
                      ∷ (codes "+++ "
                          ++ ((tilded ++ codes " (current)") ++ (newline ∷ rendered cs)))))))
      × (joined (old_side cs) ≡ stored)
      × AreLines (old_side cs)
      × (joined (new_side cs) ≡ current)
      × AreLines (new_side cs)
unfolding diff_entry diff_bytes simple_diff Script
diff_entry_lem h path tilded e s stored current file read there =
    let (cs, text, old, new) = diff_lines-Script (split_lines stored) (split_lines current) in
    (
      cs,
      opened
          ∙ ap
              (λ t. ok (
                if stored == current
                then []
                else codes "--- "
                  ++ ((tilded ++ codes " (stored)")
                      ++ (newline
                          ∷ (codes "+++ " ++ ((tilded ++ codes " (current)") ++ (newline ∷ t)))))))
              text,
      ap joined old ∙ joined-split_lines stored,
      rw old (split_lines-AreLines stored),
      ap joined new ∙ joined-split_lines current,
      rw new (split_lines-AreLines current),
    )
  where
    opened : diff_entry h path tilded e s ≡ ok (diff_bytes tilded stored current)
    opened = rw (file, diff_entry, read, there) refl
