-- ===== src/Federation/Subject.antt =====
-- app/crates/kif-federation/src/k8s.rs: `parse_service_account_username`, and the reading of a
-- TokenReview's status, which kube returns.
pub mod Inversion
pub mod Laws
use kubernetes_identity_fede.Base.{
  String, ◌<>◌, Bool, true, false, ◌||◌, Option, none, some, List, [], ◌∷◌, Result, ok, err, ◌>>=◌,
  ◌>>◌, ensure, ok_or, and_then, if◌then◌else◌,
}
use kubernetes_identity_fede.Base.Text.{strip_prefix, split, is_empty}

abbrev pub username_prefix : String
username_prefix = "system:serviceaccount:"

-- The two `parts.next()?` and the test for emptiness.
unfoldable pub first_two : List String → Option (String × String)
first_two (ns ∷ sa ∷ parts) = if is_empty ns || is_empty sa then none else some (ns, sa)
first_two _ = none

unfoldable pub parse_service_account_username : String → Option (String × String)
unfolding strip_prefix split first_two
parse_service_account_username u =
    and_then (strip_prefix username_prefix u) (λ rest. first_two (split b':' rest))

-- The fields of a `TokenReviewStatus` and its `UserInfo` that are read.
pub record UserInfo : Type 0 where
  pub username : Option String

pub record TokenReviewStatus : Type 0 where
  pub authenticated : Option Bool
  pub user : Option UserInfo

abbrev is_yes : Option Bool → Bool
is_yes (some true) = true
is_yes _ = false

-- `token_review` behind the call of the API server, which gives the status or fails.
unfoldable pub read_review : Option TokenReviewStatus → Result String String
read_review created = do
  status ← ok_or created "TokenReview missing status"
  ensure (is_yes status.authenticated) "token not authenticated"
  user ← ok_or status.user "TokenReview missing user"
  ok_or user.username "TokenReview user missing username"

-- The argument is `api.create` of a TokenReview for a token.
unfoldable pub token_review :
    (String → Result (Option TokenReviewStatus) String) → String → Result String String
unfolding read_review
token_review create token = do created ← create token; read_review created
