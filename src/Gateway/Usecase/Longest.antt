-- ===== src/Gateway/Usecase/Longest.antt =====
-- `ResolveRoute` chooses the first of the longest matching prefixes.
use edge_guard.Base.{
  ℕ, ℤ, pos, negsuc, ◌≤ℤ◌, ◌<ℤ◌, int_lt, ◌≤◌, ◌<◌, ◌≡◌, refl, ap, ◌⊎◌, inl, inr, true, false, ◌&&◌,
  Bool-cases, List, [], ◌∷◌, ◌++◌, length, All, arith, ok, err, sentinel,
}
use edge_guard.Text.{Text}
use edge_guard.Gateway.Route.{Route, matches, route_not_found}
use edge_guard.Gateway.Usecase.{longest_from, found_route, no_route, resolve_route}

abbrev pub prefix_length : Route → ℕ
prefix_length r = length r.path_prefix

-- `r` is in the list and matches; those before it that match have a shorter prefix, and those
-- behind it that match have none that is longer.
pub record IsLongest (path : Text) (routes : List Route) (r : Route) : Type 0 where
  pub before : List Route
  pub after : List Route
  pub split : routes ≡ before ++ r ∷ after
  pub matched : matches r path ≡ true
  pub shorter : All (λ q. matches q path ≡ true → prefix_length q < prefix_length r) before
  pub no_longer : All (λ q. matches q path ≡ true → prefix_length q ≤ prefix_length r) after

module _ (path : Text) where
  abbrev Kept : List Route → ℤ → Type 0
  Kept routes len = All (λ q. matches q path ≡ true → pos (prefix_length q) ≤ℤ len) routes

  abbrev Replaced : List Route → ℤ → Route × ℤ → Type 0
  Replaced routes len result =
      (r : Route) × (result ≡ (r, pos (prefix_length r)))
      × (len <ℤ pos (prefix_length r))
      × IsLongest path routes r

  Kept-weaken :
      (routes : List Route) (n : ℕ)
      → Kept routes (pos n)
      → All (λ q. matches q path ≡ true → prefix_length q ≤ n) routes
  Kept-weaken [] n k = tt
  Kept-weaken (q ∷ routes) n (h, k) = (λ m. omega (arith, h m), Kept-weaken routes n k)

  IsLongest-cons :
      {routes : List Route} {r : Route} (q : Route)
      → (matches q path ≡ true → prefix_length q < prefix_length r)
      → IsLongest path routes r
      → IsLongest path (q ∷ routes) r
  IsLongest-cons q h l = record {
    before = q ∷ l.before;
    after = l.after;
    split = ap (λ t. q ∷ t) l.split;
    matched = l.matched;
    shorter = (h, l.shorter);
    no_longer = l.no_longer;
  }

  longest_from_lem :
      (routes : List Route) (m : Route) (len : ℤ)
      → ((longest_from path routes m len ≡ (m, len)) × Kept routes len)
        ⊎ Replaced routes len (longest_from path routes m len)
  unfolding longest_from
  longest_from_lem [] m len = inl (refl, tt)
  longest_from_lem (q ∷ routes) m len =
      elim (Bool-cases (matches q path && int_lt len (pos (prefix_length q)))) [
        | inl better ↦
            rw (better) (taken better (longest_from_lem routes q (pos (prefix_length q))))
        | inr worse ↦ rw (worse) (passed worse (longest_from_lem routes m len))
      ]
    where
      taken :
          (matches q path && int_lt len (pos (prefix_length q))) ≡ true
          → ((longest_from path routes q (pos (prefix_length q)) ≡ (q, pos (prefix_length q)))
              × Kept routes (pos (prefix_length q)))
            ⊎ Replaced routes
                (pos (prefix_length q))
                (longest_from path routes q (pos (prefix_length q)))
          → ((longest_from path routes q (pos (prefix_length q)) ≡ (m, len))
              × Kept (q ∷ routes) len)
            ⊎ Replaced (q ∷ routes) len (longest_from path routes q (pos (prefix_length q)))
      taken b (inl (e, k)) = inr (
        q,
        e,
        ground arith,
        record {
          before = [];
          after = routes;
          split = refl;
          matched = ground arith;
          shorter = tt;
          no_longer = Kept-weaken routes (prefix_length q) k;
        },
      )
      taken b (inr (r, e, h, l)) = inr (r, e, ground arith, IsLongest-cons q (λ _. omega arith) l)

      passed :
          (matches q path && int_lt len (pos (prefix_length q))) ≡ false
          → ((longest_from path routes m len ≡ (m, len)) × Kept routes len)
            ⊎ Replaced routes len (longest_from path routes m len)
          → ((longest_from path routes m len ≡ (m, len)) × Kept (q ∷ routes) len)
            ⊎ Replaced (q ∷ routes) len (longest_from path routes m len)
      passed w (inl (e, k)) = inl (e, (λ m. ground arith, k))
      passed w (inr (r, e, h, l)) = inr (r, e, h, IsLongest-cons q (λ m. ground arith) l)

  pub All-unmatched :
      (routes : List Route) → Kept routes (negsuc 0) → All (λ q. matches q path ≡ false) routes
  All-unmatched [] k = tt
  All-unmatched (q ∷ routes) (h, k) = (ground (arith, h), All-unmatched routes k)

-- With a snapshot of routes, resolving a path either fails with "route not found", and then no
-- route matches the path; or it gives a route of the snapshot that matches, whose prefix is longer
-- than that of every matching route before it and at least as long as that of every one behind it.
pub resolve_route_cases :
    (routes : List Route) (path : Text)
    → ((resolve_route (ok routes) path ≡ err (sentinel route_not_found))
        × All (λ q. matches q path ≡ false) routes)
      ⊎ ((r : Route) × (resolve_route (ok routes) path ≡ ok r) × IsLongest path routes r)
unfolding resolve_route
resolve_route_cases routes path = elim (longest_from_lem path routes no_route (negsuc 0)) [
  | inl (e, k) ↦ inl (ap found_route e, All-unmatched path routes k)
  | inr (r, e, _, l) ↦ inr (r, ap found_route e, l)
]

pub resolve_route-IsLongest :
    {routes : List Route} {path : Text} {r : Route}
    → resolve_route (ok routes) path ≡ ok r
    → IsLongest path routes r
resolve_route-IsLongest {routes} {path} {r} h = elim (resolve_route_cases routes path) [
  | inl (e, _) ↦ cc (e, h)
  | inr (q, e, l) ↦ let same : q ≡ r = cc (e, h) in rw (← same) l
]
