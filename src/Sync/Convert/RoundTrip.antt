-- ===== src/Sync/Convert/RoundTrip.antt =====
-- A manifest that goes through its protobuf form comes back as it was.
use mathlib.Core.Option
use sgard.Base.{
  ℕ, ◌≡◌, ◌≤◌, ◌<◌, ◌⊎◌, ◌-◌, ◌^◌, refl, ap, Option, none, some, List, [], ◌∷◌, Text, map, All,
  arith,
}
use sgard.Manifest.{Manifest, Entry, KekSlot, Encryption}
use sgard.Sync.Proto.{Times, PbKekSlot}
use sgard.Sync.Convert.{
  to_int32, of_int32, slot_to_proto, proto_to_slot, encryption_to_proto, proto_to_encryption,
  entry_to_proto, proto_to_entry, manifest_to_proto, proto_to_manifest,
}

-- An int, as its 64 bits, whose value fits an int32
abbrev pub IsInt32 : ℕ → Type 0
IsInt32 n = (n < 2 ^ 31) ⊎ ((2 ^ 64 - 2 ^ 31 ≤ n) × (n < 2 ^ 64))

of_int32-to_int32 : (n : ℕ) → IsInt32 n → of_int32 (to_int32 n) ≡ n
of_int32-to_int32 n h = ground arith

pub record IsPortableSlot (slot : KekSlot) : Type 0 where
  pub argon2_time : IsInt32 slot.argon2_time
  pub argon2_memory : IsInt32 slot.argon2_memory
  pub argon2_threads : IsInt32 slot.argon2_threads

abbrev pub SlotsFit : Option Encryption → Type 0
SlotsFit none = Unit
SlotsFit (some e) = All (λ (p : Text × KekSlot). IsPortableSlot p.1) e.kek_slots

-- The numbers of a manifest fit into its protobuf form.
pub record IsPortable (m : Manifest) : Type 0 where
  pub version : IsInt32 m.version
  pub slots : SlotsFit m.encryption

slot_back : (slot : KekSlot) → IsPortableSlot slot → proto_to_slot (slot_to_proto slot) ≡ slot
unfolding proto_to_slot slot_to_proto
slot_back slot fits = ground (
  arith,
  of_int32-to_int32 slot.argon2_time fits.argon2_time,
  of_int32-to_int32 slot.argon2_memory fits.argon2_memory,
  of_int32-to_int32 slot.argon2_threads fits.argon2_threads,
)

map_back :
    {A B : Type 0} (to : A → B) (of : B → A) (P : A → Type 0)
    → ((x : A) → P x → of (to x) ≡ x)
    → (xs : List A) → All P xs
    → map of (map to xs) ≡ xs
map_back to of P back [] h = refl
map_back to of P back (x ∷ xs) h = cc (back x h.0, map_back to of P back xs h.1)

encryption_back :
    (e : Option Encryption)
    → SlotsFit e
    → Option.map proto_to_encryption (Option.map encryption_to_proto e) ≡ e
unfolding proto_to_encryption encryption_to_proto
encryption_back none fits = refl
encryption_back (some e) fits =
    ap (λ slots. some (record e { kek_slots = slots }))
      (map_back (λ (p : Text × KekSlot). (p.0, slot_to_proto p.1))
        (λ (q : Text × PbKekSlot). (q.0, proto_to_slot q.1)) (λ p. IsPortableSlot p.1)
        (λ p h. ap (λ slot. (p.0, slot)) (slot_back p.1 h)) e.kek_slots fits)

module _ (times : Times) (back : (t : ℕ) → times.as_time (times.stamp t) ≡ t) where
  entry_back : (e : Entry) → proto_to_entry times (entry_to_proto times e) ≡ e
  unfolding proto_to_entry entry_to_proto
  entry_back e = ap (λ t. record e { updated = t }) (back e.updated)

  entries_back : (es : List Entry) → map (proto_to_entry times) (map (entry_to_proto times) es) ≡ es
  entries_back [] = refl
  entries_back (e ∷ es) = cc (entry_back e, entries_back es)

  -- Where a timestamp keeps the time that it is made of: a manifest whose version and cost parameters
  -- fit an int32 comes back from its protobuf form as it was.
  pub proto_to_manifest-manifest_to_proto :
      (m : Manifest) → IsPortable m → proto_to_manifest times (manifest_to_proto times m) ≡ m
  unfolding proto_to_manifest manifest_to_proto
  proto_to_manifest-manifest_to_proto m fits = cc (
    of_int32-to_int32 m.version fits.version,
    back m.created,
    back m.updated,
    entries_back m.files,
    encryption_back m.encryption fits.slots,
  )
