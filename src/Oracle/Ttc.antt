-- ===== src/Oracle/Ttc.antt =====
-- internal/gateway/oracle.go: what the proxy puts into its packets, and what it reads of others'.
pub mod Layout
use credential_gateway.Common.{
  ℕ, suc, ◌+◌, ◌/◌, ◌%◌, ◌^◌, Bytes, Bool, ◌&&◌, [], ◌∷◌, ◌++◌, length, take, drop, get_or, set,
  replicate, leb, ◌==◌, if◌then◌else◌,
}
use credential_gateway.Common.Texts.{codes}
use credential_gateway.Std.Digest.Sha1.{sha1}

-- `binary.BigEndian.PutUint16(body[i:], v)`, and `PutUint32`.
abbrev pub put16 : ℕ → ℕ → Bytes → Bytes
put16 i v bs = set (set bs i (v / 2 ^ 8 % 256)) (1 + i) (v % 256)

abbrev pub put32 : ℕ → ℕ → Bytes → Bytes
put32 i v bs = put16 (2 + i) v (put16 i (v / 2 ^ 16) bs)

-- `strings.ToUpper` is a parameter: Unicode's tables are not part of the repository.
module _ (to_upper : Bytes → Bytes) where
  abbrev pub descriptor : Bytes → Bytes
  descriptor service =
      codes "(DESCRIPTION=(CONNECT_DATA=(SERVICE_NAME=" ++ (to_upper service ++ codes ")))")

  -- `tnsBuildConnect`: the fields in the order of the source, then the descriptor.
  unfoldable pub build_connect : Bytes → Bytes
  build_connect service =
      let desc = descriptor service in
      let b0 = replicate 62 0 in
      let b1 = put16 2 300 (put16 0 313 b0) in
      let b2 = put16 8 0xffff (put16 6 8192 (put16 4 0x0c01 b1)) in
      let b3 = set (set b2 10 0x4f) 11 0x98 in
      let b4 = put16 18 70 (put16 16 (length desc % 2 ^ 16) (put16 14 1 b3)) in
      let b5 = set (set (put32 20 512 b4) 24 1) 25 1 in put32 54 65535 (put32 50 8192 b5) ++ desc

-- `tnsDataBody`: two bytes of flags before a payload.
abbrev pub data_body : Bytes → Bytes
data_body payload = 0 ∷ 0 ∷ payload

-- `tnsBuildO3LOG`.
unfoldable pub build_o3log : Bytes → Bytes
build_o3log username = data_body (0x76 ∷ (length username % 256) ∷ username)

-- `tnsBuildO3AUTH`.
unfoldable pub build_o3auth : Bytes → Bytes → Bytes
build_o3auth username auth =
    data_body (0x73 ∷ (length username % 256) ∷ (username ++ ((length auth % 256) ∷ auth)))

-- `tnsBuildFakeSessionKey` and `tnsBuildAuthOK`.
abbrev pub fake_session_key : Bytes
fake_session_key = data_body (0x02 ∷ replicate 20 0)

abbrev pub auth_ok : Bytes
auth_ok = data_body (0x04 ∷ [])

-- `tnsExtractSalt`: zeros of a body that is too short.
unfoldable pub extract_salt : Bytes → Bytes
extract_salt body = if leb 23 (length body) then take 20 (drop 3 body) else replicate 20 0

-- `tnsIsAuthOK`.
unfoldable pub is_auth_ok : Bytes → Bool
is_auth_ok body = leb 3 (length body) && get_or body 2 0 == 0x04

-- `oracleComputeAuth`.
unfoldable pub compute_auth : Bytes → Bytes → Bytes
compute_auth password salt = sha1 (password ++ salt)
