-- ===== src/App/Sources/Signed.antt =====
-- A URL that is signed for a result is valid until it expires, and what `/sources` shows.
use felsen_mcp_server_postgr.Base.{
  true, false, List, [], ◌∷◌, some, ◌≡◌, ◌≢◌, refl, sym, ap, Text, text_eq_refl, runes, Entries,
  put, find-put_self, find-put_other, ℤ, int_leb, All,
}
use felsen_mcp_server_postgr.Guard.Tables.{is_empty}
use felsen_mcp_server_postgr.App.Objects.{ObjectReference}
use felsen_mcp_server_postgr.App.Sources.{
  same_bytes, Signer, get_value, canonical_values, signed_keys, citation_signature, source_values,
  valid_citation_url,
}

get_value-put_other :
    (values : Entries Text) (key other v : Text)
    → key ≢ other
    → get_value (put values other v) key ≡ get_value values key
unfolding get_value
get_value-put_other values key other v n =
    rw (get_value, find-put_other values key other v (λ same. n (sym same))) refl

get_value-put_self : (values : Entries Text) (key v : Text) → get_value (put values key v) key ≡ v
unfolding get_value
get_value-put_self values key v = rw (get_value, find-put_self values key v) refl

-- A key that is not signed does not change what is signed.
canonical_values-put :
    (keys : List Text) (values : Entries Text) (other v : Text)
    → All (λ key. key ≢ other) keys
    → canonical_values keys (put values other v) ≡ canonical_values keys values
unfolding canonical_values
canonical_values-put [] values other v n = refl
canonical_values-put (key ∷ keys) values other v n =
    rw (get_value-put_other values key other v n.0, canonical_values-put keys values other v n.1)
      refl

signed_keys-differ : All (λ key. key ≢ runes "signature") signed_keys
unfolding signed_keys runes
signed_keys-differ = (λ e. cc, (λ e. cc, (λ e. cc, (λ e. cc, (λ e. cc, tt)))))

citation_signature-put :
    (s : Signer) (values : Entries Text) (v : Text)
    → citation_signature s (put values (runes "signature") v) ≡ citation_signature s values
unfolding citation_signature
citation_signature-put s values v =
    ap (λ signed. s.encode64 (s.mac s.key (s.encode_values signed)))
      (canonical_values-put signed_keys values (runes "signature") v signed_keys-differ)

expires-signature : runes "expires" ≢ runes "signature"
unfolding runes
expires-signature e = cc

module _ (s : Signer) (now at : ℤ) where
  valid_bytes :
      (values : Entries Text)
      → ((bytes : Text) → s.decode64 (s.encode64 bytes) ≡ some bytes)
      → same_bytes
          (s.decode64 (citation_signature s values))
          (s.decode64 (citation_signature s values))
        ≡ true
  unfolding citation_signature
  valid_bytes values decodes = rw (same_bytes, decodes _) (text_eq_refl _)

  -- What is signed and dated is valid.
  valid-signed :
      (values : Entries Text)
      → is_empty s.key ≡ false
      → s.parse_int (get_value values (runes "expires")) ≡ some at
      → int_leb now at ≡ true
      → is_empty (citation_signature s values) ≡ false
      → ((bytes : Text) → s.decode64 (s.encode64 bytes) ≡ some bytes)
      → valid_citation_url s now (put values (runes "signature") (citation_signature s values))
        ≡ true
  unfolding valid_citation_url
  valid-signed values keyed dated live sent decodes =
      rw
        (
          valid_citation_url,
          keyed,
          get_value-put_self values (runes "signature") (citation_signature s values),
          sent,
          get_value-put_other values (runes "expires") (runes "signature")
              (citation_signature s values) expires-signature,
          dated,
          live,
          citation_signature-put s values (citation_signature s values),
        )
        (valid_bytes values decodes)

  -- The query of a URL that `sourceURL` makes is accepted by `validCitationURL` until it expires,
  -- whatever the query of the public URL: if there is a signing key, the time of expiry is read
  -- back as printed, base64 is decoded to what was encoded, and a code is not printed as nothing.
  pub valid_citation_url-source_values :
      (base : Entries Text) (ref : ObjectReference) (expires : Text)
      → is_empty s.key ≡ false
      → s.parse_int expires ≡ some at
      → int_leb now at ≡ true
      → ((query : Text) → is_empty (s.encode64 (s.mac s.key query)) ≡ false)
      → ((bytes : Text) → s.decode64 (s.encode64 bytes) ≡ some bytes)
      → valid_citation_url s now (source_values s base ref expires) ≡ true
  unfolding source_values citation_signature
  valid_citation_url-source_values base ref expires keyed dated live printed decodes =
      rw (source_values, keyed)
        (valid-signed _ keyed (rw (get_value-put_self _ (runes "expires") expires) dated) live
          (printed _) decodes)
