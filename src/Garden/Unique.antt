-- ===== src/Garden/Unique.antt =====
-- No path is tracked twice, whatever the methods do, failing ones included.
pub mod Adding
pub mod Editing
pub mod Mirroring
pub mod Keys
use sgard.Base.{
  ◌≡◌, refl, true, false, ◌||◌, List, [], ◌∷◌, ◌++◌, map, Text, ◌==◌, eq_iff, if◌then◌else◌, arith,
}
use sgard.Manifest.{Manifest, Entry}
use sgard.Host.{Host}
use sgard.Garden.{Repo, files, find_entry, is_tracked, update_entry}
use sgard.Garden.Identity.{contains}
use sgard.Garden.Edit.{drop_path, remove_excluded_entries}

abbrev pub paths : List Entry → List Text
paths = map (λ e. e.path)

abbrev pub Distinct : List Text → Type 0
Distinct [] = Unit
Distinct (t ∷ ts) = (contains ts t ≡ false) × Distinct ts

abbrev pub NodupPaths : List Entry → Type 0
NodupPaths es = Distinct (paths es)

-- The invariant of a repository: no path is tracked twice.
abbrev pub IsUnique : {h : Host} → Repo h → Type 0
IsUnique s = NodupPaths (files s)

pub is_tracked-eq-contains : (p : Text) (es : List Entry) → is_tracked p es ≡ contains (paths es) p
unfolding is_tracked contains
is_tracked-eq-contains p [] = refl
is_tracked-eq-contains p (e ∷ es) = ground (arith, is_tracked-eq-contains p es)

pub contains-append :
    (xs ys : List Text) (a : Text) → contains (xs ++ ys) a ≡ (contains xs a || contains ys a)
unfolding contains
contains-append [] ys a = refl
contains-append (x ∷ xs) ys a = ground (arith, contains-append xs ys a)

pub Distinct-snoc :
    (xs : List Text) (a : Text) → Distinct xs → contains xs a ≡ false → Distinct (xs ++ (a ∷ []))
unfolding contains
Distinct-snoc [] a h n = (refl, tt)
Distinct-snoc (x ∷ xs) a h n = (
  ground (arith, contains-append xs (a ∷ []) x, eq_iff a x, eq_iff x a),
  Distinct-snoc xs a h.1 (ground arith),
)

pub paths-update_entry :
    (p : Text) (f : Entry → Entry) (es : List Entry)
    → ((e : Entry) → (f e).path ≡ e.path)
    → paths (update_entry p f es) ≡ paths es
unfolding update_entry
paths-update_entry p f [] h = refl
paths-update_entry p f (e ∷ es) h = ground (arith, h e, paths-update_entry p f es h)

contains-drop_path :
    (p : Text) (es : List Entry) (a : Text)
    → contains (paths es) a ≡ false
    → contains (paths (drop_path p es)) a ≡ false
unfolding contains drop_path
contains-drop_path p [] a h = refl
contains-drop_path p (e ∷ es) a h = ground (arith, contains-drop_path p es a)

pub drop_path-NodupPaths :
    (p : Text) (es : List Entry) → NodupPaths es → NodupPaths (drop_path p es)
unfolding drop_path
drop_path-NodupPaths p [] h = tt
drop_path-NodupPaths p (e ∷ es) h =
    ground (arith, contains-drop_path p es e.path h.0, drop_path-NodupPaths p es h.1)

contains-remove_excluded :
    (m : Manifest) (es : List Entry) (a : Text)
    → contains (paths es) a ≡ false
    → contains (paths (remove_excluded_entries m es)) a ≡ false
unfolding contains remove_excluded_entries
contains-remove_excluded m [] a h = refl
contains-remove_excluded m (e ∷ es) a h = ground (arith, contains-remove_excluded m es a)

pub remove_excluded-NodupPaths :
    (m : Manifest) (es : List Entry) → NodupPaths es → NodupPaths (remove_excluded_entries m es)
unfolding remove_excluded_entries
remove_excluded-NodupPaths m [] h = tt
remove_excluded-NodupPaths m (e ∷ es) h =
    ground (arith, contains-remove_excluded m es e.path h.0, remove_excluded-NodupPaths m es h.1)

contains-remove :
    (xs : List Text) (a : Text) (ys : List Text) (t : Text)
    → contains (xs ++ (a ∷ ys)) t ≡ false
    → contains (xs ++ ys) t ≡ false
unfolding contains
contains-remove [] a ys t n = ground arith
contains-remove (x ∷ xs) a ys t n = ground (arith, contains-remove xs a ys t)

pub Distinct-remove :
    (xs : List Text) (a : Text) (ys : List Text) → Distinct (xs ++ (a ∷ ys)) → Distinct (xs ++ ys)
Distinct-remove [] a ys u = u.1
Distinct-remove (x ∷ xs) a ys u = (contains-remove xs a ys x u.0, Distinct-remove xs a ys u.1)
