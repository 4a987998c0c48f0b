-- ===== src/Ota/Verify.antt =====
-- The gate of bmt_ai_os/ota/verify.py that an image passes before it is written. Ed25519 answers through a field.
use bmt_ai_os.Prelude.{◌≡◌, ◌⊎◌, Bool, true, false, not, Option, none, some, if◌then◌else◌, arith}

-- What `enforce_signature` meets: whether BMT_OTA_ALLOW_UNSIGNED is true, whether the files of the signature and of the
-- key are there, and what `verify_signature` returns; `none` is its RuntimeError.
pub record Signing : Type 0 where
  pub allow_unsigned : Bool
  pub sig_exists : Bool
  pub pubkey_exists : Bool
  pub verified : Option Bool

-- Whether it returns; otherwise it raises a PermissionError.
unfoldable pub enforce_signature : Signing → Bool
enforce_signature s =
    if s.allow_unsigned
    then true
    else if not s.sig_exists
    then false
    else if not s.pubkey_exists
    then false
    else elim s.verified [ none ↦ false | some valid ↦ valid ]

-- The signature was checked and is valid, or nothing was checked, as the environment asks.
abbrev pub IsAccepted : Signing → Type 0
IsAccepted s =
    (s.allow_unsigned ≡ true)
    ⊎ ((s.sig_exists ≡ true) × (s.pubkey_exists ≡ true) × (s.verified ≡ some true))

pub enforce_signature-IsAccepted : (s : Signing) → enforce_signature s ≡ true → IsAccepted s
unfolding enforce_signature
enforce_signature-IsAccepted s h = ground arith
