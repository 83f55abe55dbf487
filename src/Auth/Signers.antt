-- ===== src/Auth/Signers.antt =====
-- client/auth.go: `LoadSigner`. The SSH agent, the parse of a private key and the environment are
-- parameters.
use sgard.Base.{
  Option, none, some, List, [], ◌∷◌, ◌++◌, Text, Bytes, codes, ◌==◌, if◌then◌else◌, Result, ok, err,
  io,
}
use sgard.Host.{Host}

-- What `LoadSigner` asks: the value of SSH_AUTH_SOCK, empty where it is not set, the signers of the
-- agent behind a socket, none where it cannot be reached, and ssh.ParsePrivateKey
pub record Keyring : Type 1 where
  pub Signer : Type 0
  pub auth_sock : Text
  pub agent_signers : Text → Option (List Signer)
  pub parse_private_key : Bytes → Result Signer

module _ (h : Host) (ring : Keyring) where
  -- `loadSignerFromFile`
  unfoldable pub load_signer_from_file : Text → h.State → Result ring.Signer
  load_signer_from_file path s = elim (h.read_file path s) [
    | err x ↦ err x
    | ok bytes ↦ ring.parse_private_key bytes
  ]

  abbrev pub first_signer : Option (List ring.Signer) → Option ring.Signer
  first_signer (some (signer ∷ _)) = some signer
  first_signer (some []) = none
  first_signer none = none

  unfoldable pub from_agent : Option ring.Signer
  from_agent =
      if ring.auth_sock == [] then none else first_signer (ring.agent_signers ring.auth_sock)

  -- The loop over the default names
  unfoldable pub from_names : Text → List Text → h.State → Result ring.Signer
  from_names home [] s = err (io (codes "no SSH key found"))
  from_names home (name ∷ names) s =
      let rest = from_names home names s in
      elim (load_signer_from_file (home ++ (codes "/.ssh/" ++ name)) s) [
        | ok signer ↦ ok signer
        | err _ ↦ rest
      ]

  unfoldable pub from_home : h.State → Result ring.Signer
  from_home s = elim h.home [
    | err x ↦ err x
    | ok home ↦ from_names home (codes "id_ed25519" ∷ codes "id_rsa" ∷ []) s
  ]

  -- `LoadSigner`
  unfoldable pub load_signer : Text → h.State → Result ring.Signer
  load_signer key_path s =
      if key_path == []
      then elim from_agent [ some signer ↦ ok signer | none ↦ from_home s ]
      else load_signer_from_file key_path s
