-- ===== src/Auth/ApiKeys/Service.antt =====
-- The key service of internal/auth/infrastructure/security/api_key_service.go. The digest, the
-- base64 encoding for URLs without padding and the bytes that the random reader gives are parameters.
use edge_guard.Base.{
  ℕ, zero, suc, String, Bool, true, false, not, ◌||◌, Option, none, some, List, [], ◌∷◌, ◌++◌,
  length, ◌==◌, if◌then◌else◌, Result, ok, err, wrap, opaque,
}
use edge_guard.Text.{Text, ◌≟◌, codes, trim_space}
use edge_guard.Text.Format.{hex_encode, hex_decode}
use edge_guard.Auth.ApiKeys.{Outcome, Generated, Ports}

abbrev pub api_key_environment : String
api_key_environment = "live"

abbrev pub api_key_prefix_size : ℕ
api_key_prefix_size = 8

abbrev pub api_key_secret_size : ℕ
api_key_secret_size = 32

-- What crypto/sha256 and base64.RawURLEncoding compute.
pub record Codec : Type 0 where
  pub sha256 : Text → Text
  pub encode : Text → Text
  pub decode : Text → Option Text

abbrev onto_first : ℕ → List Text → List Text
onto_first c [] = (c ∷ []) ∷ []
onto_first c (piece ∷ pieces) = (c ∷ piece) ∷ pieces

-- `strings.SplitN(s, sep, cuts + 1)` for a separator of one ASCII character
unfoldable pub split_n : ℕ → ℕ → Text → List Text
split_n zero sep s = s ∷ []
split_n (suc cuts) sep [] = [] ∷ []
split_n (suc cuts) sep (c ∷ s) = elim (c == sep) [
  | true ↦ [] ∷ split_n cuts sep s
  | false ↦ onto_first c (split_n (suc cuts) sep s)
]

-- `err == nil && len(bytes) == size` of a decoder's result
abbrev pub is_sized : Option Text → ℕ → Bool
is_sized none size = false
is_sized (some bytes) size = length bytes == size

module _ (m : Codec) where
  unfoldable pub hash_api_key : Text → Text
  hash_api_key raw = hex_encode (m.sha256 raw)

  -- The two results are of the reads of the random reader; an error is given by its text.
  unfoldable pub generate_api_key : Result Text Text → Result Text Text → Outcome Generated
  generate_api_key (err text) _ = err (wrap "generate api key prefix" (opaque text))
  generate_api_key (ok _) (err text) = err (wrap "generate api key secret" (opaque text))
  generate_api_key (ok prefix_bytes) (ok secret_bytes) =
      let key_prefix = hex_encode prefix_bytes in
      let secret = m.encode secret_bytes in
      let value =
        codes "eg_"
        ++ codes api_key_environment
        ++ codes "_"
        ++ (key_prefix ++ (codes "_" ++ secret)) in
      ok (record { value = value; key_prefix = key_prefix; hash = hash_api_key value })

  abbrev pub parsed_parts : Text → List Text → Option (Text × Text)
  parsed_parts raw (tag ∷ environment ∷ key_prefix ∷ secret ∷ []) =
      if not (tag ≟ codes "eg")
        || not (environment ≟ codes api_key_environment)
        || not (is_sized (hex_decode key_prefix) api_key_prefix_size)
        || not (is_sized (m.decode secret) api_key_secret_size)
      then none
      else some (key_prefix, hash_api_key raw)
  parsed_parts raw _ = none

  -- `none` is `ErrInvalidAPIKey`
  unfoldable pub parse_api_key : Text → Option (Text × Text)
  parse_api_key raw =
      let raw_api_key = trim_space raw in parsed_parts raw_api_key (split_n 3 b'_' raw_api_key)

  -- `subtle.ConstantTimeCompare` of two sequences of the same length is 1 if they are equal.
  abbrev same_bytes : Option Text → Option Text → Bool
  same_bytes (some actual) (some expected) =
      if not (length actual == length expected) then false else actual ≟ expected
  same_bytes _ _ = false

  unfoldable pub match_api_key_hash : Text → Text → Bool
  match_api_key_hash actual_hash expected_hash =
      same_bytes (hex_decode actual_hash) (hex_decode expected_hash)

  -- The service as the use cases take it.
  abbrev pub key_service : Ports
  key_service = record { parse_api_key = parse_api_key; match_hash = match_api_key_hash }
