-- ===== src/Admin/Server/Origin.antt =====
-- Which requests `sameOrigin` lets through.
use credential_gateway.Common.{
  ◌≡◌, ◌≢◌, ◌↔◌, ◌⊎◌, inl, inr, refl, sym, ap, Bytes, true, false, [], ◌∷◌, Option, none, some,
  Bool-cases, if◌then◌else◌,
}
use credential_gateway.Common.Texts.{is_empty, equal_iff}
use credential_gateway.Admin.Server.{Request, source_of, matches, same_origin}

-- A request names where it comes from, in Origin or, where that is missing, in Referer, as a URL
-- whose host is the host that it asks.
pub record IsSameOrigin (url_host : Bytes → Option Bytes) (r : Request) : Type 0 where
  pub source : Bytes
  pub named : (r.origin ≡ source) ⊎ ((r.origin ≡ []) × (r.referer ≡ source))
  pub given : source ≢ []
  pub has_host : url_host source ≡ some r.host
  pub host_given : r.host ≢ []

nothing : {host : Bytes} → some [] ≡ some host → host ≡ []
nothing e = cc

matches_iff :
    (host : Bytes) (o : Option Bytes) → (matches host o ≡ true) ↔ ((o ≡ some host) × (host ≢ []))
matches_iff host none = (λ h. cc, λ (e, k). cc)
matches_iff host (some []) = (λ h. cc, λ (e, k). absurd (k (nothing e)))
matches_iff host (some (b ∷ bs)) = (
  λ h. let e = (equal_iff (b ∷ bs) host).0 h in (ap some e, λ n. cc),
  λ (e, k). (equal_iff (b ∷ bs) host).1 (cc),
)

source_named :
    (o f : Bytes)
    → (o ≡ (if is_empty o then f else o)) ⊎ ((o ≡ []) × (f ≡ (if is_empty o then f else o)))
source_named [] f = inr (refl, refl)
source_named (b ∷ bs) f = inl refl

source_found :
    (o f s : Bytes) → (o ≡ s) ⊎ ((o ≡ []) × (f ≡ s)) → s ≢ [] → (if is_empty o then f else o) ≡ s
source_found [] f s (inl e) k = absurd (k (sym e))
source_found [] f s (inr (_, e)) k = e
source_found (b ∷ bs) f s (inl e) k = e
source_found (b ∷ bs) f s (inr (e, _)) k = cc

not_empty : (s : Bytes) → is_empty s ≡ false → s ≢ []
not_empty s h e = cc

is_empty-false : (s : Bytes) → s ≢ [] → is_empty s ≡ false
is_empty-false [] k = absurd (k refl)
is_empty-false (b ∷ bs) k = refl

-- `sameOrigin` holds of exactly these requests.
pub same_origin_iff :
    (url_host : Bytes → Option Bytes) (r : Request)
    → (same_origin url_host r ≡ true) ↔ IsSameOrigin url_host r
unfolding same_origin
same_origin_iff url_host r = (
  λ h. elim (Bool-cases (is_empty (source_of r))) [
    | inl e ↦ let k : false ≡ true = rw e at h in cc
    | inr e ↦
        let (m, k) = (matches_iff r.host (url_host (source_of r))).0 (rw e at h) in
        record {
          source = source_of r;
          named = source_named r.origin r.referer;
          given = not_empty _ e;
          has_host = m;
          host_given = k;
        }
  ],
  λ s.
      let e = source_found r.origin r.referer s.source s.named s.given in
      rw (e, is_empty-false s.source s.given, s.has_host)
        ((matches_iff r.host (some r.host)).1 (refl, s.host_given)),
)
