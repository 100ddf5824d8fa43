-- ===== src/Auth/Users/Login.antt =====
-- Who can log in, and what a refusal tells.
use edge_guard.Base.{
  ◌≡◌, arith, true, false, ◌⊎◌, inl, inr, Bool-cases, Option-cases, Result-cases, none, some, List,
  ok, err, sentinel,
}
use edge_guard.Text.{Text}
use edge_guard.Auth.Tokens.{invalid_credentials, User, RefreshToken, TokenPair, Ports}
use edge_guard.Auth.Tokens.Session.{Moment, build_tokens}
use edge_guard.Auth.Users.{
  Directory, UserInfo, user_info, normalize_email, find_email, get_user_by_email, check_credentials,
  create_refresh_token, prepare_login, login,
}

module _ (d : Directory) (p : Ports) (m : Moment) where
  -- A login that succeeds: the table has an enabled user of the normalized email, whose password the
  -- given one matches, and the answer is about that user.
  pub login_known :
      (email password : Text) (users : List User) (ts : List RefreshToken) (info : UserInfo)
      (pair : TokenPair)
      → (login d p m email password users ts).1 ≡ ok (info, pair)
      → (user : User) × (find_email d (normalize_email d email) users ≡ some user)
        × (user.enabled ≡ true)
        × (d.matches user.password_hash password ≡ true)
        × (info ≡ user_info user)
  unfolding login prepare_login check_credentials get_user_by_email
  login_known email password users ts info pair h = elim (Option-cases m.read_fault) [
    | inr (text, f) ↦ ground arith
    | inl f ↦ elim (Option-cases (find_email d (normalize_email d email) users)) [
      | inl none_here ↦ ground arith
      | inr (user, found) ↦ elim (Bool-cases user.enabled) [
        | inr off ↦ ground arith
        | inl on ↦ elim (Bool-cases (d.matches user.password_hash password)) [
          | inr wrong ↦ ground arith
          | inl right ↦ elim (Result-cases (build_tokens p m user)) [
            | inr (e, b) ↦ ground arith
            | inl ((access_token, raw, token), b) ↦
                elim (Result-cases (create_refresh_token d m.write_fault m.defaults token ts).1) [
                  | inr (e, c) ↦ ground arith
                  | inl (created, c) ↦ (user, found, on, right, ground arith)
                ]
          ]
        ]
      ]
    ]
  ]

  -- Without a database fault, an email that no user has, and a wrong password of an enabled user, are
  -- refused by the same error, and no token is stored.
  pub login_uniform :
      (email password : Text) (users : List User) (ts : List RefreshToken)
      → m.read_fault ≡ none
      → (find_email d (normalize_email d email) users ≡ none)
        ⊎ ((user : User) × (find_email d (normalize_email d email) users ≡ some user)
            × (user.enabled ≡ true)
            × (d.matches user.password_hash password ≡ false))
      → login d p m email password users ts ≡ (ts, err (sentinel invalid_credentials))
  unfolding login prepare_login check_credentials get_user_by_email
  login_uniform email password users ts f (inl unknown) = ground arith
  login_uniform email password users ts f (inr (user, found, on, wrong)) = ground arith
