-- ===== src/Auth/ApiKeys/Parsed.antt =====
-- What parse_api_key makes of a key that generate_api_key has made, and the match of its hash.
use edge_guard.Base.{
  ℕ, suc, ◌≡◌, refl, ap, ◌∙◌, true, false, some, [], ◌∷◌, ◌++◌, length, ◌==◌, arith, All,
  All-append,
}
use edge_guard.Text.{Text, ◌≟◌, codes, trim_space}
use edge_guard.Text.Equal.{≟_refl}
use edge_guard.Text.Format.{hex_encode, hex_digit}
use edge_guard.Text.Visible.{IsByte, IsVisible, hex_encode-IsVisible, hex_decode-hex_encode}
use edge_guard.Auth.ApiKeys.Service.{
  Codec, split_n, hash_api_key, parse_api_key, match_api_key_hash, api_key_prefix_size,
  api_key_secret_size,
}

-- What the documentation of crypto/sha256 and encoding/base64 says.
pub record IsDocumented (m : Codec) : Type 0 where
  pub digest_bytes : (s : Text) → All IsByte (m.sha256 s)
  pub encoded_visible : (s : Text) → All IsByte s → All IsVisible (m.encode s)
  pub decoded : (s : Text) → All IsByte s → m.decode (m.encode s) ≡ some s

-- What the random reader gives for a buffer of some size.
pub record IsRead (size : ℕ) (s : Text) : Type 0 where
  pub read_bytes : All IsByte s
  pub read_size : length s ≡ size

abbrev IsNoSeparator : ℕ → Type 0
IsNoSeparator c = (c == b'_') ≡ false

digit-IsNoSeparator : (d : ℕ) → IsNoSeparator (hex_digit d)
digit-IsNoSeparator d = ground arith

hex_encode-IsNoSeparator : (s : Text) → All IsNoSeparator (hex_encode s)
unfolding hex_encode
hex_encode-IsNoSeparator [] = tt
hex_encode-IsNoSeparator (b ∷ s) =
    (digit-IsNoSeparator _, (digit-IsNoSeparator _, hex_encode-IsNoSeparator s))

split_n-append :
    (cuts : ℕ) (p rest : Text)
    → All IsNoSeparator p
    → split_n (suc cuts) b'_' (p ++ b'_' ∷ rest) ≡ p ∷ split_n cuts b'_' rest
unfolding split_n
split_n-append cuts [] rest h = refl
split_n-append cuts (c ∷ p) rest (n, h) = rw (split_n, n, split_n-append cuts p rest h) refl

split_n_last : (s : Text) → split_n 0 b'_' s ≡ s ∷ []
unfolding split_n
split_n_last s = refl

abbrev pub value_of : Codec → Text → Text → Text
value_of m p s = codes "eg_live_" ++ hex_encode p ++ b'_' ∷ m.encode s

module _ (m : Codec) (doc : IsDocumented m) (p s : Text)
    (prefix_read : IsRead api_key_prefix_size p) (secret_read : IsRead api_key_secret_size s) where
  pub value-IsVisible : All IsVisible (value_of m p s)
  value-IsVisible = All-append IsVisible (codes "eg_live_") _ (ground arith) (
      All-append IsVisible (hex_encode p) _ (hex_encode-IsVisible p prefix_read.read_bytes)
        ((omega arith, omega arith), doc.encoded_visible s secret_read.read_bytes))

  split-value :
      split_n 3 b'_' (value_of m p s) ≡ codes "eg" ∷ codes "live" ∷ hex_encode p ∷ m.encode s ∷ []
  split-value =
      split_n-append 2 (codes "eg") _ (refl, (refl, tt))
      ∙ ap (λ r. codes "eg" ∷ r)
          (split_n-append 1 (codes "live") _ (refl, (refl, (refl, (refl, tt))))
            ∙ ap (λ r. codes "live" ∷ r)
                (split_n-append 0 (hex_encode p) _ (hex_encode-IsNoSeparator p)
                  ∙ ap (λ r. hex_encode p ∷ r) (split_n_last (m.encode s))))

  pub parse-value :
      (raw : Text)
      → trim_space raw ≡ (value_of m p s)
      → parse_api_key m raw ≡ some (hex_encode p, hash_api_key m (value_of m p s))
  unfolding parse_api_key ◌≟◌
  parse-value raw trimmed =
      rw
        (
          trimmed,
          split-value,
          hex_decode-hex_encode p prefix_read.read_bytes,
          doc.decoded s secret_read.read_bytes,
          prefix_read.read_size,
          secret_read.read_size,
        )
        refl

  pub matched : (t : Text) → match_api_key_hash m (hash_api_key m t) (hash_api_key m t) ≡ true
  unfolding match_api_key_hash hash_api_key
  matched t =
      rw (hex_decode-hex_encode (m.sha256 t) (doc.digest_bytes t), ≟_refl (m.sha256 t))
        (ground arith)
