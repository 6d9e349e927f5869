-- ===== src/Http/Headers.antt =====
-- What the director leaves in a request.
use credential_gateway.Common.{
  ◌≡◌, ◌≢◌, refl, ◌∙◌, Bytes, List, [], ◌∷◌, map, some, All, arith, false,
}
use credential_gateway.Common.Texts.{equal, equal_iff, equal_self}
use credential_gateway.Config.Validate.Sections.{Distinct, NotIn}
use credential_gateway.Http.{
  Header, values, remove, Outbound, set_header, del, replace_headers, director,
}

equal_ne : (a b : Bytes) → a ≢ b → equal a b ≡ false
equal_ne a b n = ground (arith, equal_iff a b)

values-remove_ne : (a k : Bytes) (h : Header) → a ≢ k → values a (remove k h) ≡ values a h
values-remove_ne a k [] n = refl
values-remove_ne a k ((b, vs) ∷ h) n =
    ground (arith, equal_iff a b, equal_iff k b, values-remove_ne a k h n)

module _ (canonical : Bytes → Bytes) where
  abbrev pub keys : List (Bytes × Bytes) → List Bytes
  keys = map (λ e. canonical (e.0))

  values-set_self :
      (k v : Bytes) (h : Header)
      → values (canonical k) (set_header canonical k v (del canonical k h)) ≡ some (v ∷ [])
  values-set_self k v h = rw (equal_self (canonical k))

  values-set_ne :
      (a k v : Bytes) (h : Header)
      → a ≢ canonical k
      → values a (set_header canonical k v (del canonical k h)) ≡ values a h
  values-set_ne a k v h n = rw (equal_ne a (canonical k) n) (
      values-remove_ne a (canonical k) (remove (canonical k) h) n
      ∙ values-remove_ne a (canonical k) h n)

  -- Headers that the configuration does not name.
  replace_headers_kept :
      (headers : List (Bytes × Bytes)) (a : Bytes) (h : Header)
      → NotIn a (keys headers)
      → values a (replace_headers canonical headers h) ≡ values a h
  unfolding replace_headers
  replace_headers_kept [] a h n = refl
  replace_headers_kept ((k, v) ∷ rest) a h (n, ns) =
      replace_headers_kept rest a _ ns ∙ values-set_ne a k v h n

  replace_headers_set :
      (headers : List (Bytes × Bytes)) (h : Header)
      → Distinct (keys headers)
      → All
          (λ e. values (canonical (e.0)) (replace_headers canonical headers h) ≡ some (e.1 ∷ []))
          headers
  unfolding replace_headers
  replace_headers_set [] h d = tt
  replace_headers_set ((k, v) ∷ rest) h (n, d) = (
    replace_headers_kept rest (canonical k) _ n ∙ values-set_self k v h,
    replace_headers_set rest _ d,
  )

  -- Whatever the client sent, and in whatever order the map is visited: if no two configured keys
  -- are one canonical key, the director's result has the Host of the upstream's URL, every
  -- configured header with the configured value and no other, and all other headers as the
  -- original director left them.
  pub director_headers :
      (original : Outbound → Outbound) (upstream_host : Bytes) (headers : List (Bytes × Bytes))
      (r : Outbound)
      → Distinct (keys headers)
      → ((director canonical original upstream_host headers r).host ≡ upstream_host)
        × All
            (λ e.
              values (canonical (e.0)) (director canonical original upstream_host headers r).header
              ≡ some (e.1 ∷ []))
            headers
        × ((a : Bytes)
            → NotIn a (keys headers)
            → values a (director canonical original upstream_host headers r).header
              ≡ values a (original r).header)
  unfolding director
  director_headers original upstream_host headers r d = (
    refl,
    replace_headers_set headers ((original r).header) d,
    λ a n. replace_headers_kept headers a ((original r).header) n,
  )
