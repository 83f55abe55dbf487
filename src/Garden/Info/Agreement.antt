-- ===== src/Garden/Info/Agreement.antt =====
-- `Info` and `Status` agree.
use sgard.Base.{
  ℕ, ◌≡◌, refl, ap, Bool, true, false, Bool-cases, inl, inr, is_not_exist, Option, none, some, List,
  [], Text, Bytes, ◌==◌, if◌then◌else◌, Result, ok, err, and_then,
}
use sgard.Paths.{expand_tilde_path}
use sgard.Manifest.{Entry, file_type, link_type, directory_type}
use sgard.Targeting.{entry_applies}
use sgard.Store
use sgard.Host.{Host, Info}
use sgard.Garden.Status.{
  content_state, entry_state, compare_hash, ok_state, modified, drifted, missing, skipped,
}
use sgard.Garden.Info.{FileInfo, from_entry, content_info, info_entry}

-- The state that `Info` reports where `Status` gives no line is empty.
abbrev pub shown : Option Text → Text
shown none = []
shown (some state) = state

abbrev pub state_of : Result FileInfo → Result Text
state_of r = and_then r (λ fi. ok fi.state)

abbrev pub reported : Result (Option Text) → Result Text
reported r = and_then r (λ state. ok (shown state))

module _ (h : Host) (format : ℕ → Text) where
  each_bytes :
      (f : Bytes → FileInfo) (r : Result Bytes)
      → state_of (and_then r (λ b. ok (f b))) ≡ reported (and_then r (λ b. ok (some (f b).state)))
  each_bytes f (ok b) = refl
  each_bytes f (err x) = refl

  content_info-content_state :
      (path : Text) (e : Entry) (fi : FileInfo) (s : h.State)
      → fi.state ≡ []
      → state_of (content_info h format path e fi s) ≡ reported (content_state h path e s)
  unfolding content_info content_state
  content_info-content_state path e fi s fresh = elim (Bool-cases (e.type == file_type)) [
    | inl file ↦ rw file (
        each_bytes
          (λ bytes. record fi {
            current_hash = Store.hash_of h bytes;
            state =
                if Store.hash_of h bytes == compare_hash e
                then ok_state
                else if e.locked
                then drifted
                else modified;
          })
          (h.read_file path s))
    | inr other ↦ elim (Bool-cases (e.type == link_type)) [
      | inl link ↦
          rw (other, link)
            (each_bytes
              (λ target. record fi {
                current_target = target;
                state = if target == e.target then ok_state else modified;
              })
              (h.readlink path s))
      | inr third ↦ elim (Bool-cases (e.type == directory_type)) [
        | inl directory ↦ rw (other, third, directory) refl
        | inr unknown ↦ rw (other, third, unknown) (ap ok fresh)
      ]
    ]
  ]

  module _ (root : Text) (e : Entry) (s : h.State) where
    found_info : Text → Result Info → Result FileInfo
    found_info path (err x) =
        if is_not_exist x
        then ok (record (from_entry h format root e s) { state = missing })
        else err x
    found_info path (ok i) =
        content_info h format path e
          (record (from_entry h format root e s) { disk_mod_time = format i.mod_time }) s

    found_state : Text → Result Info → Result (Option Text)
    found_state path (err x) = if is_not_exist x then ok (some missing) else err x
    found_state path (ok i) = content_state h path e s

    found-agree :
        (path : Text) (r : Result Info)
        → state_of (found_info path r) ≡ reported (found_state path r)
    unfolding found_info found_state from_entry
    found-agree path (err x) = elim (Bool-cases (is_not_exist x)) [
      | inl gone ↦ rw gone refl
      | inr other ↦ rw other refl
    ]
    found-agree path (ok i) =
        content_info-content_state path e
          (record (from_entry h format root e s) { disk_mod_time = format i.mod_time }) s refl

    at_agree :
        (r : Result Text)
        → state_of (elim r as (λ _. Result FileInfo) [
          | err x ↦ err x
          | ok path ↦ found_info path (h.lstat path s)
        ])
          ≡ reported (elim r as (λ _. Result (Option Text)) [
            | err x ↦ err x
            | ok path ↦ found_state path (h.lstat path s)
          ])
    at_agree (err x) = refl
    at_agree (ok path) = found-agree path (h.lstat path s)

    applies_agree :
        (r : Result Bool)
        → state_of (elim r as (λ _. Result FileInfo) [
          | err x ↦ err x
          | ok false ↦ ok (record (from_entry h format root e s) { state = skipped })
          | ok true ↦ elim (expand_tilde_path h.home e.path) [
            | err x ↦ err x
            | ok path ↦ found_info path (h.lstat path s)
          ]
        ])
          ≡ reported (elim r as (λ _. Result (Option Text)) [
            | err x ↦ err x
            | ok false ↦ ok (some skipped)
            | ok true ↦ elim (expand_tilde_path h.home e.path) [
              | err x ↦ err x
              | ok path ↦ found_state path (h.lstat path s)
            ]
          ])
    applies_agree (err x) = refl
    applies_agree (ok false) = refl
    applies_agree (ok true) = at_agree (expand_tilde_path h.home e.path)

  -- The state that `Info` reports of an entry is the state that `Status` reports of it, and empty
  -- where `Status` gives no line; `Info` fails on an entry where `Status` does, with the same error.
  pub info_entry-entry_state :
      (root : Text) (labels : List Text) (e : Entry) (s : h.State)
      → state_of (info_entry h format root labels e s) ≡ reported (entry_state h labels e s)
  unfolding info_entry entry_state found_info found_state
  info_entry-entry_state root labels e s = applies_agree root e s (entry_applies e labels)
