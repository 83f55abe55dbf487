-- ===== src/Sync/Proto.antt =====
-- The messages of proto/sgard/v1/sgard.proto, as the structs of sgardpb/. A timestamp belongs to the
-- protobuf library and is a parameter, nil included; an int32 is its 32 bits, as a number.
use sgard.Base.{ℕ, Bool, Option, List, Text, Bytes}

pub record Times : Type 1 where
  -- *timestamppb.Timestamp, timestamppb.New and AsTime
  pub Stamp : Type 0
  pub stamp : ℕ → Stamp
  pub as_time : Stamp → ℕ

pub record PbKekSlot : Type 0 where
  pub type : Text
  pub argon2_time : ℕ
  pub argon2_memory : ℕ
  pub argon2_threads : ℕ
  pub credential_id : Text
  pub salt : Text
  pub wrapped_dek : Text

pub record PbEncryption : Type 0 where
  pub algorithm : Text
  pub kek_slots : List (Text × PbKekSlot)

-- A part of a blob. Its hash stands on the first part alone.
pub record BlobChunk : Type 0 where
  pub hash : Text
  pub bytes : Bytes

pub data Decision : Type 0 where
  unspecified accepted rejected up_to_date : Decision

module _ (times : Times) where
  pub record PbEntry : Type 0 where
    pub path : Text
    pub hash : Text
    pub type : Text
    pub mode : Text
    pub target : Text
    pub updated : times.Stamp
    pub plaintext_hash : Text
    pub encrypted : Bool
    pub locked : Bool
    pub only : List Text
    pub never : List Text

  pub record PbManifest : Type 0 where
    pub version : ℕ
    pub created : times.Stamp
    pub updated : times.Stamp
    pub message : Text
    pub files : List PbEntry
    pub encryption : Option PbEncryption
    pub exclude : List Text

  pub record PushManifestResponse : Type 0 where
    pub decision : Decision
    pub missing_blobs : List Text
    pub server_updated : times.Stamp
