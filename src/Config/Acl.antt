-- ===== src/Config/Acl.antt =====
-- internal/config/acl_linux.go and `checkPermissions` of internal/config/config.go.
pub mod Access
use credential_gateway.Common.{
  ℕ, zero, suc, ◌+◌, ◌-◌, ◌%◌, ◌/◌, bit_and, Bytes, Bool, true, false, not, ◌||◌, List, [], ◌∷◌,
  length, take, drop, Option, none, some, ltb, ◌==◌, if◌then◌else◌,
}
use credential_gateway.Common.Words.{of_be, of_le}
use credential_gateway.Config.Types.{
  Offender, owning_group, named_group, other, Error, acl_too_short, acl_malformed, acl_version,
  system, acl_grants, unsafe_mode, Result, ok, err, ◌>>=◌, ◌>>◌,
}

-- `binary.NativeEndian`.
pub data Endian : Type 0 where
  little big : Endian

abbrev pub native_word : Endian → Bytes → ℕ
native_word little = of_le
native_word big = of_be

-- A system call: its value, or the error number.
pub data Call {ℓ} (A : Type ℓ) : Type ℓ where
  value : A → Call A
  errno : ℕ → Call A

-- ENODATA and ENOTSUP.
abbrev is_absent : ℕ → Bool
is_absent e = e == 61 || e == 95

-- The entry tags that grant access to a group, or to everybody.
abbrev pub offender_of : ℕ → Option Offender
offender_of tag =
    if tag == 0x04
    then some owning_group
    else if tag == 0x08
    then some named_group
    else if tag == 0x20
    then some other
    else none

-- The loop over the records of 8 bytes: a tag, permissions and an id.
unfoldable pub first_offender : Endian → Bytes → Option Offender
first_offender e (a ∷ b ∷ c ∷ d ∷ i ∷ j ∷ k ∷ l ∷ rest) =
    let tag = native_word e (a ∷ b ∷ []) in
    let perm = native_word e (c ∷ d ∷ []) in
    let later = first_offender e rest in
    if perm == 0 then later else elim (offender_of tag) [ some o ↦ some o | none ↦ later ]
first_offender e _ = none

-- What the attribute holds: whether there is an ACL, and who it grants access to.
unfoldable pub parse_acl : Endian → Bytes → Result (Bool × Option Offender)
unfolding first_offender
parse_acl e buf =
    let version = native_word e (take 4 buf) in
    let body = drop 4 buf in
    if ltb (length buf) 4
    then err (acl_too_short (length buf))
    else if not (version == 0x0002)
    then err (acl_version version)
    else if not (length body % 8 == 0)
    then err (acl_malformed (length body % 8))
    else ok (true, first_offender e body)

abbrev absent_or :
    {A : Type 0} → Call A → (A → Result (Bool × Option Offender)) → Result (Bool × Option Offender)
absent_or (value a) f = f a
absent_or (errno e) f = if is_absent e then ok (false, none) else err (system e)

-- `aclGroupClassAccess`: the first call asks for the size, the second for at most that much.
unfoldable pub acl_group_class_access :
    Endian → Call ℕ → (ℕ → Call Bytes) → Result (Bool × Option Offender)
unfolding parse_acl
acl_group_class_access e size fetch = absent_or size λ n. absent_or (fetch n) λ buf. parse_acl e buf

-- What the system says of the configuration file.
pub record FileInfo : Type 0 where
  pub mode : Call ℕ
  pub endian : Endian
  pub acl_size : Call ℕ
  pub acl_value : ℕ → Call Bytes

abbrev judge : ℕ → Bool × Option Offender → Result (Unit {0})
judge mode (true, some o) = err (acl_grants o)
judge mode (true, none) = ok tt
judge mode (false, o) =
    let perm = bit_and mode 0o777 in
    if not (bit_and perm 0o077 == 0) then err (unsafe_mode perm) else ok tt

abbrev stat : Call ℕ → Result ℕ
stat (value mode) = ok mode
stat (errno e) = err (system e)

-- `checkPermissions`.
unfoldable pub check_permissions : FileInfo → Result (Unit {0})
unfolding acl_group_class_access
check_permissions f = do
  mode ← stat f.mode
  access ← acl_group_class_access f.endian f.acl_size f.acl_value
  judge mode access
