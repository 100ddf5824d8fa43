-- ===== src/Gateway/Snapshot/Sound.antt =====
-- What an accepted snapshot is like, and which answers are refused.
use edge_guard.Base.{
  ◌≡◌, refl, ap, ◌≢◌, inl, inr, true, false, Bool-cases, List, [], ◌∷◌, ◌++◌, arith, ok, err,
  Result-cases, Error, is_empty, length, All, wrap, opaque, ◌∙◌, suc,
}
use edge_guard.Text.{Text, codes, contains, has_prefix}
use edge_guard.Text.Equal.{≟_iff, ≟_refl}
use edge_guard.Gateway.Route.{Sentinel, Route, slash}
use edge_guard.Url.{ParseUrl}
use edge_guard.Gateway.Snapshot.{RouteResponse, to_domain, routes_from, response_to_domain}

-- A route of a snapshot: named, of a project, below a prefix that starts with a slash.
pub record IsSound (r : Route) : Type 0 where
  pub project : is_empty r.project_id ≡ false
  pub named : is_empty r.name ≡ false
  pub rooted : has_prefix r.path_prefix (slash ∷ []) ≡ true

-- No two routes of the list have the same path prefix.
abbrev pub HasDistinctPrefixes : List Route → Type 0
HasDistinctPrefixes [] = Unit
HasDistinctPrefixes (r ∷ rs) = All (λ q. q.path_prefix ≢ r.path_prefix) rs × HasDistinctPrefixes rs

module _ (parse_url : ParseUrl) where
  to_domain-IsSound : (r : RouteResponse) (d : Route) → to_domain parse_url r ≡ ok d → IsSound d
  unfolding to_domain
  to_domain-IsSound r d h = ground arith

  routes_from-cons :
      (seen : List Text) (item : RouteResponse) (items : List RouteResponse) (routes : List Route)
      → routes_from parse_url seen (item ∷ items) ≡ ok routes
      → (r : Route) × (rest : List Route) × (to_domain parse_url item ≡ ok r)
        × (contains r.path_prefix seen ≡ false)
        × (routes_from parse_url (r.path_prefix ∷ seen) items ≡ ok rest)
        × (routes ≡ r ∷ rest)
  unfolding routes_from
  routes_from-cons seen item items routes h = elim (Result-cases (to_domain parse_url item)) [
    | inr (e, refused) ↦ ground arith
    | inl (r, accepted) ↦ elim (Bool-cases (contains r.path_prefix seen)) [
      | inl old ↦ ground arith
      | inr new ↦ elim (Result-cases (routes_from parse_url (r.path_prefix ∷ seen) items)) [
        | inr (e, refused) ↦ ground arith
        | inl (rest, done) ↦ (r, rest, accepted, new, done, ground arith)
      ]
    ]
  ]

  abbrev Fresh : List Text → List Route → Type 0
  Fresh seen routes = All (λ r. contains r.path_prefix seen ≡ false) routes

  Fresh-tail :
      (p : Text) (seen : List Text) (routes : List Route)
      → Fresh (p ∷ seen) routes
      → Fresh seen routes × All (λ q. q.path_prefix ≢ p) routes
  unfolding contains
  Fresh-tail p seen [] h = (tt, tt)
  Fresh-tail p seen (r ∷ routes) (h, k) =
      let (fresh, other) = Fresh-tail p seen routes k in
      ((ground arith, fresh), ((λ e. ground (arith, ≟_iff p r.path_prefix)), other))

  routes_from-IsSound :
      (seen : List Text) (items : List RouteResponse) (routes : List Route)
      → routes_from parse_url seen items ≡ ok routes
      → (length routes ≡ length items)
        × All IsSound routes
        × HasDistinctPrefixes routes
        × Fresh seen routes
  routes_from-IsSound seen [] [] h = (refl, tt, tt, tt)
  routes_from-IsSound seen [] (r ∷ routes) h = unfold routes_from in cc
  routes_from-IsSound seen (item ∷ items) routes h =
      let (r, rest, accepted, new, done, e) = routes_from-cons seen item items routes h in
      let (same, sound, distinct, fresh) =
        routes_from-IsSound (r.path_prefix ∷ seen) items rest done in
      let (older, other) = Fresh-tail r.path_prefix seen rest fresh in
      rw e
        (ap suc same, (to_domain-IsSound item r accepted, sound), (other, distinct), (new, older))

  -- A snapshot that is accepted has one route for each item of the answer; every route has a
  -- project, a name and a prefix that starts with a slash; and no two routes share a prefix.
  pub response_to_domain-IsSound :
      (response : List RouteResponse) (routes : List Route)
      → response_to_domain parse_url response ≡ ok routes
      → (length routes ≡ length response) × All IsSound routes × HasDistinctPrefixes routes
  unfolding response_to_domain
  response_to_domain-IsSound response routes h =
      let (same, sound, distinct, _) = routes_from-IsSound [] response routes h in
      (same, sound, distinct)

  -- What refuses an answer after any list of seen prefixes does so behind any items.
  refused_behind :
      (P : List Text → Type 0) (tail : List RouteResponse)
      → ((seen : List Text) (p : Text) → P seen → P (p ∷ seen))
      → ((seen : List Text)
          → P seen
          → (e : Error Sentinel) × (routes_from parse_url seen tail ≡ err e))
      → (before : List RouteResponse) (seen : List Text) → P seen
      → (e : Error Sentinel) × (routes_from parse_url seen (before ++ tail) ≡ err e)
  refused_behind P tail grow bad [] seen p = bad seen p
  refused_behind P tail grow bad (item ∷ before) seen p =
      elim (Result-cases (routes_from parse_url seen ((item ∷ before) ++ tail))) [
        | inr (e, refused) ↦ (e, refused)
        | inl (routes, accepted) ↦
            let (r, rest, _, _, done, _) =
              routes_from-cons seen item (before ++ tail) routes accepted in
            let (e, refused) =
              refused_behind P tail grow bad before (r.path_prefix ∷ seen)
                (grow seen r.path_prefix p) in
            cc (done, refused)
      ]

  bad_item :
      (bad : RouteResponse) (after : List RouteResponse) (seen : List Text) {e : Error Sentinel}
      → to_domain parse_url bad ≡ err e
      → (e' : Error Sentinel) × (routes_from parse_url seen (bad ∷ after) ≡ err e')
  unfolding routes_from
  bad_item bad after seen {e} h = (wrap "invalid route" e, rw h)

  seen_item :
      (item : RouteResponse) (after : List RouteResponse) (seen : List Text) {r : Route}
      → to_domain parse_url item ≡ ok r
      → contains r.path_prefix seen ≡ true
      → (e : Error Sentinel) × (routes_from parse_url seen (item ∷ after) ≡ err e)
  unfolding routes_from
  seen_item item after seen h k = (opaque (codes "invalid route: duplicate path prefix"), rw (h, k))

  contains-cons :
      (p q : Text) (seen : List Text) → contains p seen ≡ true → contains p (q ∷ seen) ≡ true
  unfolding contains
  contains-cons p q seen h = ground arith

  contains-head : (p q : Text) (seen : List Text) → p ≡ q → contains p (q ∷ seen) ≡ true
  unfolding contains
  contains-head p q seen e = rw (e, ≟_refl q)

  twice_item :
      (first : RouteResponse) (between : List RouteResponse) (second : RouteResponse)
      (after : List RouteResponse) {r q : Route} (seen : List Text)
      → to_domain parse_url first ≡ ok r
      → to_domain parse_url second ≡ ok q
      → q.path_prefix ≡ r.path_prefix
      → (e : Error Sentinel) × (routes_from parse_url seen (first ∷ between ++ second ∷ after)
          ≡ err e)
  twice_item first between second after {r} {q} seen h k same =
      elim (Result-cases (routes_from parse_url seen (first ∷ between ++ second ∷ after))) [
        | inr (e, refused) ↦ (e, refused)
        | inl (routes, accepted) ↦
            let (r', rest, found, _, done, _) =
              routes_from-cons seen first (between ++ second ∷ after) routes accepted in
            let one : r ≡ r' = cc (h, found) in
            let (e, refused) =
              refused_behind (λ s. contains q.path_prefix s ≡ true) (second ∷ after)
                (λ s p. contains-cons q.path_prefix p s) (λ s c. seen_item second after s k c)
                between (r'.path_prefix ∷ seen)
                (contains-head q.path_prefix r'.path_prefix seen
                  (same ∙ ap (λ (x : Route). x.path_prefix) one)) in
            cc (done, refused)
      ]

  -- One item that is refused, wherever it stands, makes the whole answer refused.
  pub response_to_domain-refused :
      (before : List RouteResponse) (bad : RouteResponse) (after : List RouteResponse)
      {e : Error Sentinel}
      → to_domain parse_url bad ≡ err e
      → (e' : Error Sentinel) × (response_to_domain parse_url (before ++ bad ∷ after) ≡ err e')
  unfolding response_to_domain
  response_to_domain-refused before bad after h =
      refused_behind (λ _. Unit {0}) (bad ∷ after) (λ _ _ u. u) (λ s _. bad_item bad after s h)
        before [] tt

  -- Two items whose prefixes are the same once they are normalized, wherever they stand and whatever
  -- projects they belong to, make the whole answer refused.
  pub response_to_domain-duplicate :
      (before : List RouteResponse) (first : RouteResponse) (between : List RouteResponse)
      (second : RouteResponse) (after : List RouteResponse) {r q : Route}
      → to_domain parse_url first ≡ ok r
      → to_domain parse_url second ≡ ok q
      → q.path_prefix ≡ r.path_prefix
      → (e : Error Sentinel) × (response_to_domain parse_url
            (before ++ (first ∷ between ++ second ∷ after))
          ≡ err e)
  unfolding response_to_domain
  response_to_domain-duplicate before first between second after h k same =
      refused_behind (λ _. Unit {0}) (first ∷ between ++ second ∷ after) (λ _ _ u. u)
        (λ s _. twice_item first between second after s h k same) before [] tt
