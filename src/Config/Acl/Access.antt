-- ===== src/Config/Acl/Access.antt =====
-- Which permissions `checkPermissions` accepts.
use credential_gateway.Common.{
  ℕ, ◌/◌, ◌%◌, ◌^◌, ◌<◌, ◌≡◌, ◌↔◌, ◌⊎◌, refl, sym, ap₂, ◌∙◌, bit_and, Bytes, true, List, [], ◌∷◌,
  length, take, take_all, Option, none, some, All, arith, ◌==◌, if◌then◌else◌,
}
use credential_gateway.Common.Bits.{mask_63, mask_511}
use credential_gateway.Config.Types.{Offender, ok}
use credential_gateway.Config.Acl.{
  Endian, little, big, native_word, value, errno, offender_of, first_offender, parse_acl,
  acl_group_class_access, FileInfo, check_permissions,
}

-- An entry of an ACL. The four bytes of the id do not matter.
pub record Entry : Type 0 where
  pub tag : ℕ
  pub perm : ℕ
  pub id : ℕ × ℕ × ℕ × ℕ

pub record IsEntry (n : Entry) : Type 0 where
  pub tag_fits : n.tag < 2 ^ 16
  pub perm_fits : n.perm < 2 ^ 16

abbrev pub word_bytes : Endian → ℕ → ℕ × ℕ
word_bytes little n = (n % 256, n / 256)
word_bytes big n = (n / 256, n % 256)

-- The records of the attribute, and the attribute with its version.
abbrev pub records : Endian → List Entry → Bytes
records e [] = []
records e (n ∷ ns) =
    (word_bytes e n.tag).0
    ∷ (word_bytes e n.tag).1
    ∷ (word_bytes e n.perm).0
    ∷ (word_bytes e n.perm).1
    ∷ (n.id).0
    ∷ (n.id).1
    ∷ (n.id).2
    ∷ (n.id).3
    ∷ records e ns

abbrev pub attribute : Endian → List Entry → Bytes
attribute little ns = 2 ∷ 0 ∷ 0 ∷ 0 ∷ records little ns
attribute big ns = 0 ∷ 0 ∷ 0 ∷ 2 ∷ records big ns

-- The entry grants nothing to the owning group, to a named group or to everybody.
abbrev pub IsHarmless : Entry → Type 0
IsHarmless n = ((n.tag ≡ 0x04) ⊎ (n.tag ≡ 0x08) ⊎ (n.tag ≡ 0x20)) → n.perm ≡ 0

native_word_bytes :
    (e : Endian) (n : ℕ)
    → n < 2 ^ 16
    → native_word e ((word_bytes e n).0 ∷ (word_bytes e n).1 ∷ []) ≡ n
native_word_bytes little n h = omega arith
native_word_bytes big n h = omega arith

-- One record of the loop, given what its words hold.
abbrev one_entry : ℕ → ℕ → Option Offender → Option Offender
one_entry tag perm later =
    if perm == 0 then later else elim (offender_of tag) [ some o ↦ some o | none ↦ later ]

first_offender_step :
    (e : Endian) (a b c d i j k l : ℕ) (rest : Bytes)
    → first_offender e (a ∷ b ∷ c ∷ d ∷ i ∷ j ∷ k ∷ l ∷ rest)
      ≡ one_entry (native_word e (a ∷ b ∷ [])) (native_word e (c ∷ d ∷ [])) (first_offender e rest)
unfolding first_offender
first_offender_step e a b c d i j k l rest = refl

one_entry-none :
    (n : Entry) (later : Option Offender)
    → (one_entry n.tag n.perm later ≡ none) ↔ (IsHarmless n × (later ≡ none))
one_entry-none n later = ground arith

first_offender_entry :
    (e : Endian) (n : Entry) (ns : List Entry)
    → IsEntry n
    → first_offender e (records e (n ∷ ns))
      ≡ one_entry n.tag n.perm (first_offender e (records e ns))
first_offender_entry e n ns h =
    first_offender_step e _ _ _ _ (n.id).0 (n.id).1 (n.id).2 (n.id).3 (records e ns)
    ∙ ap₂ (λ t p. one_entry t p (first_offender e (records e ns)))
        (native_word_bytes e n.tag h.tag_fits) (native_word_bytes e n.perm h.perm_fits)

first_offender_nil : (e : Endian) → first_offender e [] ≡ none
unfolding first_offender
first_offender_nil little = refl
first_offender_nil big = refl

first_offender_iff :
    (e : Endian) (ns : List Entry)
    → All IsEntry ns
    → (first_offender e (records e ns) ≡ none) ↔ All IsHarmless ns
first_offender_iff e [] h = (λ _. tt, λ _. first_offender_nil e)
first_offender_iff e (n ∷ ns) h =
    let (there, back) = first_offender_iff e ns h.1 in
    let (split, join) = one_entry-none n (first_offender e (records e ns)) in
    let step = first_offender_entry e n ns h.0 in
    (λ p. let (q, r) = split (sym step ∙ p) in (q, there r), λ p. step ∙ join (p.0, back p.1))

length-records : (e : Endian) (ns : List Entry) → length (records e ns) % 8 ≡ 0
length-records e [] = refl
length-records e (n ∷ ns) = omega (arith, length-records e ns)

parse_acl-attribute :
    (e : Endian) (ns : List Entry)
    → parse_acl e (attribute e ns) ≡ ok (true, first_offender e (records e ns))
unfolding parse_acl
parse_acl-attribute little ns = rw (length-records little ns) (ground arith)
parse_acl-attribute big ns = rw (length-records big ns) (ground arith)

-- A file with that mode and that ACL, or none.
abbrev pub file : Endian → ℕ → Option (List Entry) → FileInfo
file e mode none = record {
  mode = value mode;
  endian = e;
  acl_size = errno 61;
  acl_value = λ n. errno 61;
}
file e mode (some ns) = record {
  mode = value mode;
  endian = e;
  acl_size = value (length (attribute e ns));
  acl_value = λ n. value (take n (attribute e ns));
}

-- Nobody beside the owner and named users has access.
abbrev pub IsPrivate : ℕ → Option (List Entry) → Type 0
IsPrivate mode none = mode % 64 ≡ 0
IsPrivate mode (some ns) = All IsHarmless ns

abbrev pub AreEntries : Option (List Entry) → Type 0
AreEntries none = Unit
AreEntries (some ns) = All IsEntry ns

private_mode :
    (e : Endian) (mode : ℕ) → (check_permissions (file e mode none) ≡ ok tt) ↔ (mode % 64 ≡ 0)
unfolding check_permissions acl_group_class_access
private_mode e mode =
    let p : bit_and (bit_and mode 511) 63 ≡ mode % 64 =
      rw (mask_511 mode, mask_63 (mode % 512)) (omega arith) in
    rw p (ground arith)

private_acl :
    (e : Endian) (mode : ℕ) (ns : List Entry)
    → (check_permissions (file e mode (some ns)) ≡ ok tt) ↔ (first_offender e (records e ns) ≡ none)
unfolding check_permissions acl_group_class_access
private_acl e mode ns =
    rw (take_all (length (attribute e ns)) (attribute e ns) (omega arith))
      (rw (parse_acl-attribute e ns) ground arith)

-- A file without an ACL passes exactly if its mode gives nothing to the group and to others. A
-- file with an ACL passes, whatever its mode, exactly if no entry of the owning group, of a
-- named group or of others has a permission.
pub check_permissions_iff :
    (e : Endian) (mode : ℕ) (acl : Option (List Entry))
    → AreEntries acl
    → (check_permissions (file e mode acl) ≡ ok tt) ↔ IsPrivate mode acl
check_permissions_iff e mode none h = private_mode e mode
check_permissions_iff e mode (some ns) h =
    let (there, back) = private_acl e mode ns in
    let (split, join) = first_offender_iff e ns h in (λ p. split (there p), λ p. back (join p))
