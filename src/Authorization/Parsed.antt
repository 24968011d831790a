-- ===== src/Authorization/Parsed.antt =====
-- What `createAuthorizationManifest` and `parseAuthorizationManifest` of src/authorization/manifest.mjs
-- ensure.
use billing_validation_contr.Common.{
  ℕ, ◌≤◌, true, ◌&&◌, &&-true, List, [], ◌∷◌, ◌++◌, some, ◌≡◌, refl, ap, sym, subst, ◌∙◌, arith,
  leb, nat_eq_iff, length, same_codes,
}
use billing_validation_contr.Checks.{bind-some, check-some, >>=-then, check-then, some-eq}
use billing_validation_contr.Js.{Value}
use billing_validation_contr.Evidence.Utf8.{decode_utf8}
use billing_validation_contr.Authorization.Schema.{conform}
use billing_validation_contr.Authorization.Manifest.{
  Platform, schema, create_manifest, serialize_manifest, parse_manifest, authorization_digest,
  date_at, max_manifest_bytes,
}
use billing_validation_contr.Authorization.Again.{distinct, conform-again}

same_codes-true : (a b : List ℕ) → same_codes a b ≡ true → a ≡ b
same_codes-true [] [] h = refl
same_codes-true [] (y ∷ b) h = cc
same_codes-true (x ∷ a) [] h = cc
same_codes-true (x ∷ a) (y ∷ b) h =
    let (p, q) = &&-true _ _ h in
    let heads : x ≡ y = (nat_eq_iff x y).0 p in let tails = same_codes-true a b q in cc

same_codes_refl : (a : List ℕ) → same_codes a a ≡ true
same_codes_refl [] = refl
same_codes_refl (x ∷ a) = rw ((nat_eq_iff x x).1 refl, same_codes_refl a) refl

module _ (platform : Platform) where
  schema-distinct : distinct (schema platform) ≡ true
  unfolding schema distinct
  schema-distinct = refl

  -- The code's copy of a value is a manifest, and its own copy: what is parsed, serialized or passed on
  -- is checked with the same result however often.
  pub create_manifest-again :
      (value : Value) {manifest : Value}
      → create_manifest platform value ≡ some manifest
      → create_manifest platform manifest ≡ some manifest
  unfolding create_manifest
  create_manifest-again value h = >>=-then (conform (schema platform) value) _ h λ m first rest.
      >>=-then (date_at platform "issuedAt" m) _ rest λ issued _ h1.
        >>=-then (date_at platform "expiresAt" m) _ h1 λ expires _ h2. check-then _ _ h2 λ _ h3.
          check-then _ _ h3 λ _ last.
            subst (λ x. create_manifest platform x ≡ some x) (some-eq last)
              (bind-some (conform (schema platform) m) _
                (conform-again (schema platform) value schema-distinct first) (rest ∙ sym last))

  -- The input that is accepted is the serialized text of the manifest that is returned, byte for byte,
  -- within 16384 bytes; so the digest of an authorization is that of the bytes that were given.
  pub parse_manifest-canonical :
      (bytes : List ℕ) {manifest : Value}
      → parse_manifest platform (some bytes) ≡ some manifest
      → (serialize_manifest platform manifest ≡ some bytes)
        × (1 ≤ length bytes)
        × (length bytes ≤ max_manifest_bytes)
        × (authorization_digest platform (some bytes) ≡ some (platform.sha256 bytes))
  unfolding parse_manifest authorization_digest
  parse_manifest-canonical bytes h =
      check-then (leb 1 (length bytes) && leb (length bytes) (max_manifest_bytes)) _ h λ fits h1.
        >>=-then (decode_utf8 bytes) _ h1 λ decoded _ h2.
          >>=-then (platform.parse_json decoded) _ h2 λ value _ h3.
            >>=-then (create_manifest platform value) _ h3 λ m _ h4.
              >>=-then (serialize_manifest platform m) _ h4 λ canonical serialized h5.
                check-then _ _ h5 λ same last.
                  let whole = serialized ∙ ap some (same_codes-true canonical bytes same) in
                  let given =
                    subst (λ x. serialize_manifest platform x ≡ some bytes) (some-eq last) whole in
                  (
                    given,
                    ground (arith, fits),
                    ground (arith, fits),
                    bind-some (parse_manifest platform (some bytes)) _ h
                        (bind-some (serialize_manifest platform _) _ given refl),
                  )

  length-last : (xs : List ℕ) (c : ℕ) → 1 ≤ length (xs ++ (c ∷ []))
  length-last [] c = omega arith
  length-last (x ∷ xs) c = omega arith

  serialize-length :
      (value : Value) {bytes : List ℕ}
      → serialize_manifest platform value ≡ some bytes
      → 1 ≤ length bytes
  unfolding serialize_manifest
  serialize-length value h =
      >>=-then (create_manifest platform value) _ h λ m _ last.
        subst (λ x. 1 ≤ length x) (some-eq last) (length-last (platform.json_bytes m) 0xa)

  serialize-copy :
      (value : Value) {manifest : Value}
      → create_manifest platform value ≡ some manifest
      → serialize_manifest platform manifest ≡ serialize_manifest platform value
  unfolding serialize_manifest
  serialize-copy value h = rw (h, create_manifest-again value h) refl

  -- A manifest of which the serialized text is within 16384 bytes is read back from these bytes, where
  -- the platform reads as JSON what it has written of the manifest.
  pub parse_manifest-serialize_manifest :
      (value : Value) {manifest : Value} {bytes decoded : List ℕ}
      → create_manifest platform value ≡ some manifest
      → serialize_manifest platform value ≡ some bytes
      → length bytes ≤ max_manifest_bytes
      → decode_utf8 bytes ≡ some decoded
      → platform.parse_json decoded ≡ some manifest
      → parse_manifest platform (some bytes) ≡ some manifest
  unfolding parse_manifest
  parse_manifest-serialize_manifest value {manifest = m} {bytes = bytes} {decoded = d} made printed
        small text reads =
      let long = serialize-length value printed in
      check-some (leb 1 (length bytes) && leb (length bytes) max_manifest_bytes) _ (ground arith) (
        bind-some (decode_utf8 bytes) _ text (
          bind-some (platform.parse_json d) _ reads (
            bind-some (create_manifest platform m) _ (create_manifest-again value made) (
              bind-some (serialize_manifest platform m) _ (serialize-copy value made ∙ printed)
                (check-some _ _ (same_codes_refl bytes) refl)))))
