-- ===== src/Auth/Users/Library.antt =====
-- A library that signs and parses tokens: the tests' stand-in for the JWT library. A token is the secret
-- and the claims, each text after its length, times in seconds, between two letters; an audience is one.
use mathlib.Core.List.{reverse, reverse-append, append_assoc}
use edge_guard.Base.{
  ℕ, ◌*◌, ◌/◌, zero, suc, Option, none, some, Bool, true, ◌&&◌, List, [], ◌∷◌, ◌++◌, if◌then◌else◌,
  ok, err, Result, ◌≡◌, refl, ap, ◌∙◌, sym, arith, length, take, drop, drop-append, leb, ltb, ◌≤◌,
  ◌<◌,
}
use edge_guard.Base.Time.{Time, second}
use edge_guard.Text.{Text, codes, ◌≟◌, trim_space, trim_right_space, leading_space, trailing_space}
use edge_guard.Text.Equal.{≟_refl, ≟_iff}
use edge_guard.Text.Trim.{trim_left_space_fixed, trim_right_space_fixed}
use edge_guard.Auth.Users.AccessTokens.{Claims, Jwt}
use edge_guard.Auth.Users.Sessions.{IsJwt, IsEncodable}

abbrev pub any_text : Text → Bool
any_text _ = true

abbrev put : Text → Text → Text
put s rest = length s ∷ s ++ rest

abbrev get : Text → Text × Text
get [] = ([], [])
get (n ∷ t) = (take n t, drop n t)

take-append : (s t : Text) → take (length s) (s ++ t) ≡ s
take-append [] t = refl
take-append (c ∷ s) t = ap (λ r. c ∷ r) (take-append s t)

get-put : (s rest end : Text) → get (put s rest ++ end) ≡ (s, rest ++ end)
get-put s rest end =
    rw (append_assoc s rest end)
      (rw (take-append s (rest ++ end), drop-append s (rest ++ end)) refl)

-- several texts after one another
abbrev puts : List Text → Text → Text
puts [] rest = rest
puts (s ∷ ss) rest = put s (puts ss rest)

abbrev gets : ℕ → Text → List Text × Text
gets zero t = ([], t)
gets (suc n) t = let (s, t') = get t in let (ss, rest) = gets n t' in (s ∷ ss, rest)

gets-puts :
    (ss : List Text) (rest end : Text) → gets (length ss) (puts ss rest ++ end) ≡ (ss, rest ++ end)
gets-puts [] rest end = refl
gets-puts (s ∷ ss) rest end =
    let first = get-put s (puts ss rest) end in
    ap (λ g. let (ss', rest') = gets (length ss) g.1 in (g.0 ∷ ss', rest')) first
    ∙ ap (λ g. (s ∷ g.0, g.1)) (gets-puts ss rest end)

abbrev texts : Text → Text → Claims → List Text
texts audience secret c = secret ∷ c.role ∷ c.issuer ∷ c.subject ∷ audience ∷ []

abbrev seconds : Claims → Text
seconds c = c.expires_at / second ∷ c.issued_at / second ∷ c.not_before / second ∷ []

abbrev body : Text → Text → Claims → Text
body audience secret c = puts (texts audience secret c) (seconds c)

abbrev pub token : Text → Text → Claims → Text
token audience secret c = b'j' ∷ (body audience secret c ++ codes "t")

-- the secret and the claims
abbrev of_parts : List Text × Text → Option (Text × Claims)
of_parts (secret ∷ role ∷ issuer ∷ subject ∷ audience ∷ [], e ∷ i ∷ n ∷ _) = some (
  secret,
  record {
    role = role;
    issuer = issuer;
    subject = subject;
    audience = audience ∷ [];
    expires_at = e * second;
    issued_at = i * second;
    not_before = n * second;
  },
)
of_parts _ = none

abbrev decode : Text → Option (Text × Claims)
decode t = of_parts (gets 5 t)

abbrev sign_for : Text → Claims → List Text → Result Text Text
sign_for secret c (audience ∷ []) = ok (token audience secret c)
sign_for secret c _ = err []

abbrev in_period : Claims → Time → Bool
in_period c now = leb c.issued_at now && leb c.not_before now && ltb now c.expires_at

abbrev accepted : Text → Text → Time → Option (Text × Claims) → Result Text Claims
accepted secret issuer now none = err []
accepted secret issuer now (some (signed, c)) =
    if signed ≟ secret && c.issuer ≟ issuer && in_period c now then ok c else err []

abbrev parse : Text → Text → Text → Time → Text → Result Text Claims
parse secret issuer audience now [] = err []
parse secret issuer audience now (_ ∷ t) = accepted secret issuer now (decode t)

abbrev pub library : Jwt
library = record { sign = λ secret c. sign_for secret c c.audience; parse = parse }

decode-body :
    (audience secret end : Text) (c : Claims)
    → c.audience ≡ audience ∷ []
    → IsEncodable any_text c
    → decode (body audience secret c ++ end) ≡ some (secret, c)
decode-body audience secret end c one law =
    let e : c.expires_at / second * second ≡ c.expires_at = omega (arith, law.expires_at_whole) in
    let i : c.issued_at / second * second ≡ c.issued_at = omega (arith, law.issued_at_whole) in
    let n : c.not_before / second * second ≡ c.not_before = omega (arith, law.not_before_whole) in
    ap of_parts (gets-puts (texts audience secret c) (seconds c) end) ∙ rw (e, i, n, ← one) refl

leading_letter : (s : Text) → leading_space (b'j' ∷ s) ≡ 0
unfolding leading_space
leading_letter [] = refl
leading_letter (a ∷ []) = refl
leading_letter (a ∷ b ∷ s) = refl

trailing_letter : (s : Text) → trailing_space (b't' ∷ s) ≡ 0
unfolding trailing_space
trailing_letter [] = refl
trailing_letter (a ∷ []) = ground arith
trailing_letter (a ∷ b ∷ s) = ground arith

trim_letters : (s : Text) → trim_space (b'j' ∷ (s ++ codes "t")) ≡ b'j' ∷ (s ++ codes "t")
unfolding trim_space
trim_letters s =
    let t = b'j' ∷ (s ++ codes "t") in
    let ends : trailing_space (reverse t) ≡ 0 =
      rw (reverse-append (b'j' ∷ s) (codes "t")) (trailing_letter (reverse (b'j' ∷ s))) in
    ap trim_right_space (trim_left_space_fixed t (leading_letter (s ++ codes "t")))
    ∙ trim_right_space_fixed t ends

signed_token :
    (secret raw : Text) (c : Claims) (given : List Text)
    → sign_for secret c given ≡ ok raw
    → (audience : Text) × (given ≡ audience ∷ []) × (token audience secret c ≡ raw)
signed_token secret raw c [] h = ground arith
signed_token secret raw c (audience ∷ []) h = (audience, refl, ground arith)
signed_token secret raw c (a ∷ b ∷ given) h = ground arith

period :
    (c : Claims) (now : Time)
    → c.issued_at ≤ now
    → c.not_before ≤ now
    → now < c.expires_at
    → in_period c now ≡ true
period c now a f u = ground arith

accepted_own :
    (secret issuer : Text) (now : Time) (c : Claims)
    → c.issuer ≡ issuer
    → in_period c now ≡ true
    → accepted secret issuer now (some (secret, c)) ≡ ok c
accepted_own secret issuer now c same inside = ground (arith, ≟_refl secret, ≟_iff c.issuer issuer)

pub library-IsJwt : IsJwt any_text library
library-IsJwt = record {
  compact = λ secret raw c h.
      let (audience, _, made) = signed_token secret raw c c.audience h in
      rw (← made) (trim_letters (body audience secret c));
  not_empty = λ secret raw c h.
      let (audience, _, made) = signed_token secret raw c c.audience h in rw (← made) refl;
  verified = λ secret issuer audience raw c now law h same for_one from start until.
      let (a, one, made) = signed_token secret raw c c.audience h in
      ap (parse secret issuer audience now) (sym made)
      ∙ ap (accepted secret issuer now) (decode-body a secret (codes "t") c one law)
      ∙ accepted_own secret issuer now c same (period c now from start until);
}
