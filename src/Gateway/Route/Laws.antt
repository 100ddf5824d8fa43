-- ===== src/Gateway/Route/Laws.antt =====
-- What `Route.Matches` and `Route.UpstreamPath` promise.
use mathlib.Core.List.{append-nil, append_assoc}
use edge_guard.Base.{
  ◌≡◌, refl, sym, ap, ◌∙◌, ◌↔◌, ◌⊎◌, inl, inr, Bool, true, false, ◌||◌, [], ◌∷◌, ◌++◌, arith,
  Bool-cases, length, drop, ◌==◌,
}
use edge_guard.Text.{Text, ◌≟◌, has_prefix, trim_prefix, trim_right}
use edge_guard.Text.Equal.{≟_iff}
use edge_guard.Text.Prefix.{has_prefix_sound, has_prefix-append, trim_prefix-append}
use edge_guard.Gateway.Route.{Route, slash, matches, upstream_path, with_slash}

-- The rest of a path below a prefix: nothing, or a slash and more.
abbrev pub IsRest : Text → Type 0
IsRest rest = (rest ≡ []) ⊎ ((more : Text) × (rest ≡ slash ∷ more))

-- The path lies below the prefix, where the prefix ends at the end of a path segment.
abbrev pub IsBelow : Text → Text → Type 0
IsBelow prefix path = (rest : Text) × (path ≡ prefix ++ rest) × IsRest rest

IsBelow-of_tests :
    (prefix path : Text)
    → ((path ≟ prefix) ≡ true) ⊎ (has_prefix path (prefix ++ slash ∷ []) ≡ true)
    → IsBelow prefix path
IsBelow-of_tests prefix path (inl e) =
    ([], (≟_iff path prefix).0 e ∙ sym (append-nil prefix), inl refl)
IsBelow-of_tests prefix path (inr h) =
    let rest = drop (length (prefix ++ slash ∷ [])) path in
    (
      slash ∷ rest,
      has_prefix_sound path (prefix ++ slash ∷ []) h ∙ append_assoc prefix (slash ∷ []) rest,
      inr (rest, refl),
    )

tests_of_below :
    (prefix path : Text)
    → IsBelow prefix path
    → ((path ≟ prefix) ≡ true) ⊎ (has_prefix path (prefix ++ slash ∷ []) ≡ true)
tests_of_below prefix path (rest, e, inl none) =
    inl ((≟_iff path prefix).1 (e ∙ ap (λ r. prefix ++ r) none ∙ append-nil prefix))
tests_of_below prefix path (rest, e, inr (more, f)) =
    let whole : path ≡ (prefix ++ slash ∷ []) ++ more =
      e ∙ ap (λ r. prefix ++ r) f ∙ sym (append_assoc prefix (slash ∷ []) more) in
    inr (rw whole (has_prefix-append (prefix ++ slash ∷ []) more))

or_split : (a b : Bool) → (a || b) ≡ true → (a ≡ true) ⊎ (b ≡ true)
or_split a b h = ground arith

or_join : (a b : Bool) → (a ≡ true) ⊎ (b ≡ true) → (a || b) ≡ true
or_join a b h = ground arith

matches_root :
    (r : Route) (path : Text) → (r.path_prefix ≟ slash ∷ []) ≡ true → matches r path ≡ true
unfolding matches
matches_root r path h = rw h

matches_below :
    (r : Route) (path : Text)
    → (r.path_prefix ≟ slash ∷ []) ≡ false
    → let prefix = trim_right r.path_prefix slash in
      matches r path ≡ (path ≟ prefix || has_prefix path (prefix ++ slash ∷ []))
unfolding matches
matches_below r path h = rw h

-- A route with the prefix "/" matches every path. Any other matches exactly the paths that are its
-- prefix without trailing slashes, followed by nothing or by a slash and more: "/api" matches
-- "/api" and "/api/x", and not "/apix".
pub matches_iff :
    (r : Route) (path : Text)
    → (matches r path ≡ true)
      ↔ ((r.path_prefix ≡ slash ∷ []) ⊎ IsBelow (trim_right r.path_prefix slash) path)
matches_iff r path = elim (Bool-cases (r.path_prefix ≟ slash ∷ [])) [
  | inl root ↦ (λ _. inl ((≟_iff r.path_prefix (slash ∷ [])).0 root), λ _. matches_root r path root)
  | inr other ↦ (
    λ m. inr (
        IsBelow-of_tests (trim_right r.path_prefix slash) path
          (or_split _ _ (rw (matches_below r path other) at m))),
    λ b. elim b [
      | inl e ↦ matches_root r path ((≟_iff r.path_prefix (slash ∷ [])).1 e)
      | inr below ↦
          rw (matches_below r path other)
            (or_join _ _ (tests_of_below (trim_right r.path_prefix slash) path below))
    ],
  )
]

abbrev rest_or_slash : Text → Text
rest_or_slash [] = slash ∷ []
rest_or_slash (c ∷ rest) = c ∷ rest

with_slash_of_rest : (rest : Text) → IsRest rest → with_slash rest ≡ rest_or_slash rest
unfolding has_prefix
with_slash_of_rest [] h = refl
with_slash_of_rest (c ∷ rest) (inl e) = ground arith
with_slash_of_rest (c ∷ rest) (inr (more, e)) = ground arith

upstream_path_parts :
    (r : Route) (path : Text)
    → r.strip_prefix ≡ true
    → upstream_path r path ≡ with_slash (trim_prefix path (trim_right r.path_prefix slash))
unfolding upstream_path
upstream_path_parts r path h = rw h

-- For a route that strips its prefix, a path below the prefix goes upstream as what follows the
-- prefix, and as "/" if nothing follows.
pub upstream_path_strips :
    (r : Route) (rest : Text)
    → r.strip_prefix ≡ true
    → IsRest rest
    → upstream_path r (trim_right r.path_prefix slash ++ rest) ≡ rest_or_slash rest
upstream_path_strips r rest h k =
    upstream_path_parts r (trim_right r.path_prefix slash ++ rest) h
    ∙ ap with_slash (trim_prefix-append (trim_right r.path_prefix slash) rest)
    ∙ with_slash_of_rest rest k

with_slash-starts : (t : Text) → (more : Text) × (with_slash t ≡ slash ∷ more)
unfolding has_prefix
with_slash-starts [] = ([], refl)
with_slash-starts (c ∷ t) = elim (Bool-cases (c == slash)) [
  | inl same ↦ (t, ground arith)
  | inr other ↦ (c ∷ t, ground arith)
]

-- A route that strips its prefix sends every path upstream with a leading slash.
pub upstream_path-starts :
    (r : Route) (path : Text)
    → r.strip_prefix ≡ true
    → (more : Text) × (upstream_path r path ≡ slash ∷ more)
upstream_path-starts r path h =
    rw (upstream_path_parts r path h)
      (with_slash-starts (trim_prefix path (trim_right r.path_prefix slash)))
