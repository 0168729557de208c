-- ===== src/Agent/Refresh/Ending.antt =====
-- main.rs: what a round of the refresh loop does.
use kubernetes_identity_fede.Base.{
  String, ◌<>◌, ◌≡◌, refl, sym, inl, inr, true, false, none, some, Result, ok, err, Bool-cases,
  Option-cases, Result-cases, subst,
}
use kubernetes_identity_fede.Base.Text.{trim, is_empty}
use kubernetes_identity_fede.Agent.Config.{AgentConfig}
use kubernetes_identity_fede.Agent.Client.{
  MintError, config_hash_mismatch, other, MintResponse, MintedToken, mint,
}
use kubernetes_identity_fede.Agent.Files.{latest}
use kubernetes_identity_fede.Agent.Files.Atomic.{latest-atomic_write}
use kubernetes_identity_fede.Agent.Refresh.{
  World, State, Round, sleeps, stops, request, store_token, handle_mint, write_of, stored, exchange,
  round, compute_sleep_seconds,
}

module _ (cfg : AgentConfig) where
  abbrev answer : World → String → Result MintResponse MintError
  answer w text = mint w.http cfg.federation_url (trim text) (request cfg)

  -- The round has a ServiceAccount token, and gets and writes this cloud token.
  pub record Delivers (w : World) (s : State) (aws : MintedToken) : Type 0 where
    pub text : String
    pub resp : MintResponse
    pub read : w.sa_token_file ≡ ok text
    pub present : is_empty (trim text) ≡ false
    pub minted : answer w text ≡ ok resp
    pub given : resp.aws ≡ some aws
    pub written : (write_of cfg w aws s).1 ≡ ok tt
    pub on_disk : (stored cfg w aws s).files cfg.aws_token_path ≡ some aws.token

  -- The round gets a token that cannot be written, or learns that the configuration has changed.
  pub data Stops (w : World) (s : State) : String → Type 0 where
    unwritten :
        (text : String) (resp : MintResponse) (aws : MintedToken) (e : String)
        → w.sa_token_file ≡ ok text
        → is_empty (trim text) ≡ false
        → answer w text ≡ ok resp
        → resp.aws ≡ some aws
        → (write_of cfg w aws s).1 ≡ err e
        → Stops w s ("failed writing AWS token to " <> cfg.aws_token_path)
    outdated :
        (text : String)
        → w.sa_token_file ≡ ok text
        → is_empty (trim text) ≡ false
        → answer w text ≡ err config_hash_mismatch
        → Stops w s "config hash mismatch"

  -- The round has no ServiceAccount token, or gets no cloud token for another reason.
  pub data Misses (w : World) : Type 0 where
    unreadable : (e : String) → w.sa_token_file ≡ err e → Misses w
    blank : (text : String) → w.sa_token_file ≡ ok text → is_empty (trim text) ≡ true → Misses w
    refused :
        (text e : String) → w.sa_token_file ≡ ok text → answer w text ≡ err (other e) → Misses w
    tokenless :
        (text : String) (resp : MintResponse)
        → w.sa_token_file ≡ ok text
        → answer w text ≡ ok resp
        → resp.aws ≡ none
        → Misses w

  abbrev delivered : State → World → MintedToken → Round
  delivered s w aws = sleeps (stored cfg w aws s) (
      compute_sleep_seconds aws.expires_in_seconds cfg.refresh_skew_seconds cfg.min_refresh_seconds
        cfg.max_jitter_seconds w.random)

  -- The flags and the token file are as before.
  abbrev pub Kept : State → State → Type 0
  Kept s s' =
      (s'.first_success ≡ s.first_success)
      × (s'.ready ≡ s.ready)
      × (s'.files cfg.aws_token_path ≡ s.files cfg.aws_token_path)

  -- The three ends of a round.
  pub data Ends (w : World) (s : State) (r : Round) : Type 0 where
    delivers : (aws : MintedToken) → Delivers w s aws → r ≡ delivered s w aws → Ends w s r
    gives_up : (e : String) (s' : State) → Stops w s e → Kept s s' → r ≡ stops s' e → Ends w s r
    retries : Misses w → r ≡ sleeps s cfg.min_refresh_seconds → Ends w s r

  module _ (w : World) (s : State) (text : String) (read : w.sa_token_file ≡ ok text) where
    store_token-Ends :
        (resp : MintResponse) (aws : MintedToken)
        → is_empty (trim text) ≡ false
        → answer w text ≡ ok resp
        → resp.aws ≡ some aws
        → Ends w s (store_token cfg w aws s)
    unfolding store_token
    store_token-Ends resp aws present minted given =
        elim (latest-atomic_write cfg.aws_token_path aws.token s.files w.outcomes) [
          | inl (written, on_disk) ↦
              delivers aws
                (record {
                  text = text;
                  resp = resp;
                  read = read;
                  present = present;
                  minted = minted;
                  given = given;
                  written = written;
                  on_disk = on_disk;
                })
                (rw (written, store_token))
          | inr (e, failed, same) ↦
              gives_up _ (record s { files = latest (write_of cfg w aws s) s.files })
                (unwritten text resp aws e read present minted given failed) (refl, refl, same)
                (rw (failed, store_token))
        ]

    handle_mint-Ends :
        (m : Result MintResponse MintError)
        → is_empty (trim text) ≡ false
        → answer w text ≡ m
        → Ends w s (handle_mint cfg w m s)
    unfolding handle_mint
    handle_mint-Ends (ok resp) present minted = elim (Option-cases resp.aws) [
      | inl missing ↦ retries (tokenless text resp read minted missing) (rw (missing, handle_mint))
      | inr (aws, given) ↦ rw (given, handle_mint) (store_token-Ends resp aws present minted given)
    ]
    handle_mint-Ends (err config_hash_mismatch) present minted =
        gives_up _ s (outdated text read present minted) (refl, refl, refl) refl
    handle_mint-Ends (err (other e)) present minted = retries (refused text e read minted) refl

    exchange-Ends : Ends w s (exchange cfg w (trim text) s)
    unfolding exchange
    exchange-Ends = elim (Bool-cases (is_empty (trim text))) [
      | inl empty ↦ retries (blank text read empty) (rw empty refl)
      | inr present ↦ rw present (handle_mint-Ends (answer w text) present refl)
    ]

  round-exchange :
      (w : World) (s : State) (text : String)
      → w.sa_token_file ≡ ok text
      → round cfg w s ≡ exchange cfg w (trim text) s
  unfolding round
  round-exchange w s text read = rw (read, round) refl

  -- A round of the agent's loop delivers a token and sleeps the computed time, gives up because
  -- the token cannot be written or the configuration has changed, or misses and is tried again
  -- after the minimal sleep with nothing changed.
  pub round-Ends : (w : World) (s : State) → Ends w s (round cfg w s)
  unfolding round
  round-Ends w s = elim (Result-cases w.sa_token_file) [
    | inr (e, failed) ↦ retries (unreadable e failed) (rw (failed, round))
    | inl (text, read) ↦
        subst (Ends w s) (sym (round-exchange w s text read)) (exchange-Ends w s text read)
  ]
