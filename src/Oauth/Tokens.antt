-- ===== src/Oauth/Tokens.antt =====
-- internal/oauth/oauth.go: signed tokens and their verification.
use felsen_mcp_server_postgr.Base.{
  ℕ, ◌<◌, ◌==◌, false, List, [], ◌∷◌, ◌++◌, none, some, ◌≡◌, ◌↔◌, refl, ap, ◌∙◌, inl, inr, arith,
  Text, text_eq_iff, text_eq_refl, All, Option-cases,
}
use felsen_mcp_server_postgr.Strings.{split}
use felsen_mcp_server_postgr.Strings.Laws.{split-before, split-whole}
use felsen_mcp_server_postgr.Oauth.{Provider, Library, TokenClaims}
use felsen_mcp_server_postgr.Oauth.Issue.{unix, sign_token, signed_claims, verify_token}

-- What the source relies on of base64 with the URL alphabet: it is decoded to what was encoded,
-- and no text that it makes has a dot.
pub record IsCoding (lib : Library) : Type 0 where
  pub decodes : (s : Text) → lib.decode64 (lib.encode64 s) ≡ some s
  pub no_dot : (s : Text) → All (λ c. (c == b'.') ≡ false) (lib.encode64 s)

append_assoc : (a b c : Text) → (a ++ b) ++ c ≡ a ++ (b ++ c)
append_assoc [] b c = refl
append_assoc (x ∷ a) b c = ap (λ s. x ∷ s) (append_assoc a b c)

module _ (lib : Library) where
  -- A verified token: three parts whose last is the code of the first two under the server's key,
  -- and claims of this type and issuer that have not expired.
  pub record IsVerified (p : Provider) (now : ℕ) (value typ : Text) (claims : TokenClaims)
      : Type 0 where
    pub header : Text
    pub payload : Text
    pub signature : Text
    pub json : Text
    pub parts : split b'.' value ≡ header ∷ payload ∷ signature ∷ []
    pub signed :
        lib.decode64 signature ≡ some (lib.hmac p.cfg.signing_key (header ++ b'.' ∷ payload))
    pub decoded : lib.decode64 payload ≡ some json
    pub read : lib.read_claims json ≡ some claims
    pub typ_same : claims.typ ≡ typ
    pub issuer_same : claims.issuer ≡ p.cfg.issuer
    pub alive : unix now < claims.expires_at

  signed_claims-parts :
      (key : Text) (parts : List Text) (claims : TokenClaims)
      → signed_claims lib key parts ≡ some claims
      → (header : Text) × (payload : Text) × (signature : Text) × (json : Text) × (parts
          ≡ header ∷ payload ∷ signature ∷ [])
        × (lib.decode64 signature ≡ some (lib.hmac key (header ++ b'.' ∷ payload)))
        × (lib.decode64 payload ≡ some json)
        × (lib.read_claims json ≡ some claims)
  unfolding signed_claims
  signed_claims-parts key (header ∷ payload ∷ signature ∷ []) claims h =
      elim (Option-cases (lib.decode64 signature)) [
        | inl e ↦ ground (arith, e)
        | inr (mac, e) ↦ elim (Option-cases (lib.decode64 payload)) [
          | inl f ↦ ground (arith, e, f)
          | inr (json, f) ↦
              let same : mac ≡ lib.hmac key (header ++ b'.' ∷ payload) =
                ground (arith, e, f, text_eq_iff mac (lib.hmac key (header ++ b'.' ∷ payload))) in
              (header, payload, signature, json, refl, rw same at e, f, ground (arith, e, f))
        ]
      ]
  signed_claims-parts key [] claims h = cc
  signed_claims-parts key (a ∷ []) claims h = cc
  signed_claims-parts key (a ∷ b ∷ []) claims h = cc
  signed_claims-parts key (a ∷ b ∷ c ∷ d ∷ parts) claims h = cc

  parts-signed_claims :
      (key header payload signature json : Text) (claims : TokenClaims)
      → lib.decode64 signature ≡ some (lib.hmac key (header ++ b'.' ∷ payload))
      → lib.decode64 payload ≡ some json
      → lib.read_claims json ≡ some claims
      → signed_claims lib key (header ∷ payload ∷ signature ∷ []) ≡ some claims
  unfolding signed_claims
  parts-signed_claims key header payload signature json claims s d r =
      rw (signed_claims, s, text_eq_refl (lib.hmac key (header ++ b'.' ∷ payload)), d) r

  verify_token_claims :
      (p : Provider) (now : ℕ) (value typ : Text) (found claims : TokenClaims)
      → signed_claims lib p.cfg.signing_key (split b'.' value) ≡ some found
      → (verify_token lib p now value typ ≡ some claims) ↔ (
          (found ≡ claims)
          × (found.typ ≡ typ)
          × (found.issuer ≡ p.cfg.issuer)
          × (unix now < found.expires_at))
  unfolding verify_token
  verify_token_claims p now value typ found claims e =
      ground (arith, e, text_eq_iff found.typ typ, text_eq_iff found.issuer p.cfg.issuer)

  unsigned :
      (p : Provider) (now : ℕ) (value typ : Text) (claims : TokenClaims)
      → signed_claims lib p.cfg.signing_key (split b'.' value) ≡ none
      → ¬ (verify_token lib p now value typ ≡ some claims)
  unfolding verify_token
  unsigned p now value typ claims e h = ground (arith, e)

  sign_token-parts :
      (key : Text) (claims : TokenClaims)
      → IsCoding lib
      → split b'.' (sign_token lib key claims)
        ≡ lib.encode64 lib.header_json
          ∷ lib.encode64 (lib.claims_json claims)
          ∷ lib.encode64 (
              lib.hmac key
                (lib.encode64 lib.header_json ++ b'.' ∷ lib.encode64 (lib.claims_json claims)))
          ∷ []
  unfolding sign_token
  sign_token-parts key claims coding =
      let header = lib.encode64 lib.header_json in
      let payload = lib.encode64 (lib.claims_json claims) in
      let signature = lib.encode64 (lib.hmac key (header ++ b'.' ∷ payload)) in
      ap (split b'.') (append_assoc header (b'.' ∷ payload) (b'.' ∷ signature))
      ∙ split-before b'.' header (payload ++ b'.' ∷ signature) (coding.no_dot lib.header_json)
      ∙ ap (λ parts. header ∷ parts)
          (split-before b'.' payload signature (coding.no_dot (lib.claims_json claims)))
      ∙ ap (λ parts. header ∷ payload ∷ parts)
          (split-whole b'.' signature (coding.no_dot (lib.hmac key (header ++ b'.' ∷ payload))))

  -- The server takes a text for a token of a type exactly if it consists of three parts, the last
  -- of which is the code of the first two under the server's key, and the second one holds claims
  -- of that type and of this issuer that have not expired.
  pub verify_token_iff :
      (p : Provider) (now : ℕ) (value typ : Text) (claims : TokenClaims)
      → (verify_token lib p now value typ ≡ some claims) ↔ IsVerified p now value typ claims
  verify_token_iff p now value typ claims = (
    λ h. elim (Option-cases (signed_claims lib p.cfg.signing_key (split b'.' value))) [
      | inl e ↦ absurd (unsigned p now value typ claims e h)
      | inr (found, e) ↦
          let (same, t, i, a) = (verify_token_claims p now value typ found claims e).0 h in
          let (header, payload, signature, json, parts, s, d, r) =
            signed_claims-parts p.cfg.signing_key (split b'.' value) claims (rw same at e) in
          record {
            header = header;
            payload = payload;
            signature = signature;
            json = json;
            parts = parts;
            signed = s;
            decoded = d;
            read = r;
            typ_same = rw same at t;
            issuer_same = rw same at i;
            alive = rw same at a;
          }
    ],
    λ v.
        (verify_token_claims p now value typ claims claims (
            rw v.parts (
              parts-signed_claims p.cfg.signing_key v.header v.payload v.signature v.json claims
                v.signed v.decoded v.read))).1
          (refl, v.typ_same, v.issuer_same, v.alive),
  )

  -- A token that this server has signed verifies, with the claims that went into it, exactly as a
  -- token of its own type, for its own issuer and until it expires: if base64 can be decoded and
  -- has no dots, and the claims can be read back from their JSON.
  pub verify_token-sign_token :
      (p : Provider) (now : ℕ) (typ : Text) (claims : TokenClaims)
      → IsCoding lib
      → lib.read_claims (lib.claims_json claims) ≡ some claims
      → (verify_token lib p now (sign_token lib p.cfg.signing_key claims) typ ≡ some claims)
        ↔ ((claims.typ ≡ typ) × (claims.issuer ≡ p.cfg.issuer) × (unix now < claims.expires_at))
  verify_token-sign_token p now typ claims coding reads =
      let same =
        verify_token_claims p now (sign_token lib p.cfg.signing_key claims) typ claims claims (
          rw (sign_token-parts p.cfg.signing_key claims coding) (
            parts-signed_claims p.cfg.signing_key (lib.encode64 lib.header_json)
              (lib.encode64 (lib.claims_json claims))
              (lib.encode64 (
                lib.hmac p.cfg.signing_key
                  (lib.encode64 lib.header_json ++ b'.' ∷ lib.encode64 (lib.claims_json claims))))
              (lib.claims_json claims) claims (coding.decodes _) (coding.decodes _) reads)) in
      (λ h. let (_, t, i, a) = same.0 h in (t, i, a), λ (t, i, a). same.1 (refl, t, i, a))
