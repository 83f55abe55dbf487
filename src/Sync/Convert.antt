-- ===== src/Sync/Convert.antt =====
-- server/convert.go
pub mod RoundTrip
use mathlib.Core.Option
use sgard.Base.{ℕ, ◌+◌, ◌-◌, ◌%◌, ◌^◌, Option, List, Text, map, ltb, if◌then◌else◌}
use sgard.Manifest.{Manifest, Entry, KekSlot, Encryption}
use sgard.Sync.Proto.{Times, PbKekSlot, PbEncryption, PbEntry, PbManifest}

-- `int32(n)` of an int, and `int(n)` of an int32, which keeps the sign
abbrev pub to_int32 : ℕ → ℕ
to_int32 n = n % 2 ^ 32

abbrev pub of_int32 : ℕ → ℕ
of_int32 n = if ltb n (2 ^ 31) then n else n + (2 ^ 64 - 2 ^ 32)

unfoldable pub slot_to_proto : KekSlot → PbKekSlot
slot_to_proto slot = record {
  type = slot.type;
  argon2_time = to_int32 slot.argon2_time;
  argon2_memory = to_int32 slot.argon2_memory;
  argon2_threads = to_int32 slot.argon2_threads;
  credential_id = slot.credential_id;
  salt = slot.salt;
  wrapped_dek = slot.wrapped_dek;
}

unfoldable pub proto_to_slot : PbKekSlot → KekSlot
proto_to_slot slot = record {
  type = slot.type;
  argon2_time = of_int32 slot.argon2_time;
  argon2_memory = of_int32 slot.argon2_memory;
  argon2_threads = of_int32 slot.argon2_threads;
  credential_id = slot.credential_id;
  salt = slot.salt;
  wrapped_dek = slot.wrapped_dek;
}

-- `EncryptionToProto`
unfoldable pub encryption_to_proto : Encryption → PbEncryption
unfolding slot_to_proto
encryption_to_proto e = record {
  algorithm = e.algorithm;
  kek_slots = map (λ (p : Text × KekSlot). (p.0, slot_to_proto p.1)) e.kek_slots;
}

-- `ProtoToEncryption`
unfoldable pub proto_to_encryption : PbEncryption → Encryption
unfolding proto_to_slot
proto_to_encryption p = record {
  algorithm = p.algorithm;
  kek_slots = map (λ (q : Text × PbKekSlot). (q.0, proto_to_slot q.1)) p.kek_slots;
}

module _ (times : Times) where
  -- `EntryToProto`
  unfoldable pub entry_to_proto : Entry → PbEntry times
  entry_to_proto e = record {
    path = e.path;
    hash = e.hash;
    type = e.type;
    mode = e.mode;
    target = e.target;
    updated = times.stamp e.updated;
    plaintext_hash = e.plaintext_hash;
    encrypted = e.encrypted;
    locked = e.locked;
    only = e.only;
    never = e.never;
  }

  -- `ProtoToEntry`
  unfoldable pub proto_to_entry : PbEntry times → Entry
  proto_to_entry p = record {
    path = p.path;
    hash = p.hash;
    plaintext_hash = p.plaintext_hash;
    encrypted = p.encrypted;
    locked = p.locked;
    type = p.type;
    mode = p.mode;
    target = p.target;
    updated = times.as_time p.updated;
    only = p.only;
    never = p.never;
  }

  -- `ManifestToProto`
  unfoldable pub manifest_to_proto : Manifest → PbManifest times
  unfolding entry_to_proto encryption_to_proto
  manifest_to_proto m = record {
    version = to_int32 m.version;
    created = times.stamp m.created;
    updated = times.stamp m.updated;
    message = m.message;
    files = map entry_to_proto m.files;
    encryption = Option.map encryption_to_proto m.encryption;
    exclude = m.exclude;
  }

  -- `ProtoToManifest`
  unfoldable pub proto_to_manifest : PbManifest times → Manifest
  unfolding proto_to_entry proto_to_encryption
  proto_to_manifest p = record {
    version = of_int32 p.version;
    created = times.as_time p.created;
    updated = times.as_time p.updated;
    message = p.message;
    files = map proto_to_entry p.files;
    exclude = p.exclude;
    encryption = Option.map proto_to_encryption p.encryption;
  }
