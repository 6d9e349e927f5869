-- ===== src/Config/Load.antt =====
-- internal/config/config.go: `Load` and `Parse`.
pub mod Loads
use credential_gateway.Common.{Bytes, Bool, List, [], ◌∷◌, ◌++◌, Option, none, some, if◌then◌else◌}
use credential_gateway.Common.Texts.{codes, is_empty}
use credential_gateway.Config.Types.{
  Config, Error, not_found, unreadable, undecodable, Result, ok, err, ◌>>=◌, ◌>>◌,
}
use credential_gateway.Config.Validate.{validate}
use credential_gateway.Config.Acl.{FileInfo, check_permissions}

-- The file system: whether `os.Stat` finds a path, what it and the ACL say, and `os.ReadFile`.
pub record FileSystem : Type 0 where
  pub exists : Bytes → Bool
  pub info : Bytes → FileInfo
  pub content : Bytes → Option Bytes

abbrev pub search_paths : Bytes → List Bytes
search_paths home =
    (home ++ codes "/.config/credential-gateway/config.yaml")
    ∷ codes "/etc/credential-gateway/config.yaml"
    ∷ []

-- The first of the paths that exists, or "".
unfoldable pub first_existing : FileSystem → List Bytes → Bytes
first_existing fs [] = []
first_existing fs (p ∷ ps) = let later = first_existing fs ps in if fs.exists p then p else later

abbrev pub given {ℓ} : {A : Type ℓ} → Option A → Error → Result A
given none e = err e
given (some a) e = ok a

-- `decode` stands for the YAML decoder with `KnownFields(true)`.
module _ (decode : Bytes → Option Config) where
  -- `Parse`.
  unfoldable pub parse : Bytes → Result Config
  parse data_ = do cfg ← given (decode data_) undecodable; validate cfg; ok cfg

  -- `Load`.
  unfoldable pub load : FileSystem → Bytes → Bytes → Result Config
  load fs home path =
      let chosen = if is_empty path then first_existing fs (search_paths home) else path in
      if is_empty chosen then err not_found else do
        check_permissions (fs.info chosen)
        data_ ← given (fs.content chosen) unreadable
        parse data_
