-- ===== src/Platform/Accounts/Tests.antt =====
-- A token of a provider, and the theorems at concrete inputs.
use monitc.Prelude.{ℕ, true, false, some, List, [], ◌∷◌, ◌≡◌, refl, ◌⊎◌, arith}
use monitc.Platform.Sessions.{load_session_subject, oldest}
use monitc.Platform.Accounts.{
  IdentityToken, State, google, granted, account_link_required, sign_in, link, find_or_create,
  link_account, has_user, Request, linking, serve, serve_all,
}
use monitc.Platform.Accounts.Linked.{IsHolder, sign_in_same}
use monitc.Platform.Accounts.Replay.{is_refused, used_token_accepted}

abbrev empty : State
empty = record { users = []; memberships = []; auth_identities = []; used_tokens = [] }

abbrev token : IdentityToken
token = record {
  digest = 1;
  is_valid = true;
  expires_at = 3600000;
  provider = google;
  subject = 50;
  email = some 60;
  email_verified = true;
}

abbrev next_token : IdentityToken
next_token = record token { digest = 2 }

abbrev requests : List Request
requests = linking 20 9 (record token { digest = 3 }) ∷ []

abbrev first_user : ℕ
first_user = 7

abbrev signed_in : State
signed_in = (sign_in 10 7 8 token empty).0

first_is_granted : (sign_in 10 7 8 token empty).1 ≡ granted 7 8
unfolding sign_in find_or_create
first_is_granted = refl

second_is_granted : (sign_in 30 17 18 next_token (serve_all requests signed_in)).1 ≡ granted 7 8
unfolding sign_in find_or_create serve_all serve link link_account load_session_subject oldest
second_is_granted = refl

-- Another account of the provider with the same address.
address_is_taken :
    (sign_in 30 17 18 (record next_token { subject = 51 }) signed_in).1 ≡ account_link_required
unfolding sign_in find_or_create
address_is_taken = refl

first_is_accepted : is_refused (sign_in 10 7 8 token empty).1 ≡ false
unfolding sign_in find_or_create
first_is_accepted = refl

sign_in_same_example :
    (IsHolder google 50 first_user empty ⊎ (has_user first_user empty.users ≡ false))
    × (IsHolder google 50 first_user (sign_in 10 7 8 token empty).0)
    × (first_user ≡ first_user)
sign_in_same_example =
    sign_in_same 10 30 7 8 17 18 token next_token requests empty 7 8 7 8 refl refl first_is_granted
      second_is_granted

used_token_accepted_example : is_refused (sign_in 700000 17 18 token signed_in).1 ≡ false
used_token_accepted_example =
    used_token_accepted 10 700000 7 8 17 18 token empty refl first_is_accepted (omega arith)
      (omega arith)
