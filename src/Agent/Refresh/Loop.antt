-- ===== src/Agent/Refresh/Loop.antt =====
-- main.rs: what any number of rounds of the refresh loop do.
use kubernetes_identity_fede.Base.{
  String, ◌≡◌, refl, sym, ◌∙◌, ◌≢◌, ◌⊎◌, inl, inr, false, Option, none, some, List, [], ◌∷◌, Any,
  here, there, arith, subst,
}
use mathlib.Core.Option.{some-injective}
use kubernetes_identity_fede.Agent.Config.{AgentConfig}
use kubernetes_identity_fede.Agent.Client.{MintedToken}
use kubernetes_identity_fede.Agent.Refresh.{World, State, stored, refresh_loop}
use kubernetes_identity_fede.Agent.Refresh.Ending.{
  Delivers, Stops, Kept, delivers, gives_up, retries, round-Ends,
}

module _ (cfg : AgentConfig) where
  -- The probe's flag and the loop's own agree, and the token file is there if they are set.
  pub record IsConsistent (s : State) : Type 0 where
    pub agrees : s.ready ≡ s.first_success
    pub written : (s.ready ≡ false) ⊎ (s.files cfg.aws_token_path ≢ none)

  delivered-IsConsistent :
      (w : World) (s : State) (aws : MintedToken)
      → Delivers cfg w s aws
      → IsConsistent s
      → IsConsistent (stored cfg w aws s)
  delivered-IsConsistent w s aws d c = record {
    agrees = ground (arith, c.agrees);
    written = inr (λ e. cc (d.on_disk, e));
  }

  Kept-IsConsistent : (s s' : State) → Kept cfg s s' → IsConsistent s → IsConsistent s'
  Kept-IsConsistent s s' (first, ready, same) c = record {
    agrees = ready ∙ c.agrees ∙ sym first;
    written = written;
  }
    where
      written : (s'.ready ≡ false) ⊎ (s'.files cfg.aws_token_path ≢ none)
      written = elim c.written [
        | inl unready ↦ inl (ready ∙ unready)
        | inr present ↦ inr (λ missing. present (sym same ∙ missing))
      ]

  -- If the probe's flag and the loop's own agree, and the token file is there if they are set,
  -- this holds after any rounds, and also where the loop has returned.
  pub refresh_loop-IsConsistent :
      (ws : List World) (s : State) → IsConsistent s → IsConsistent (refresh_loop cfg ws s).0
  unfolding refresh_loop
  refresh_loop-IsConsistent [] s c = c
  refresh_loop-IsConsistent (w ∷ ws) s c = elim (round-Ends cfg w s) [
    | delivers aws d e ↦
        rw (e, refresh_loop) (refresh_loop-IsConsistent ws _ (delivered-IsConsistent w s aws d c))
    | gives_up e s' st k r ↦ rw (r, refresh_loop) (Kept-IsConsistent s s' k c)
    | retries m r ↦ rw (r, refresh_loop) (refresh_loop-IsConsistent ws s c)
  ]

  -- If the loop returns an error, one of the rounds cannot write its token, in the state that it
  -- starts from, or learns that the configuration has changed.
  pub refresh_loop-Stops :
      (ws : List World) (s : State) (e : String)
      → (refresh_loop cfg ws s).1 ≡ some e
      → Any (λ w. (s' : State) × Stops cfg w s' e) ws
  unfolding refresh_loop
  refresh_loop-Stops [] s e h = cc
  refresh_loop-Stops (w ∷ ws) s e h = elim (round-Ends cfg w s) [
    | delivers aws d r ↦ there (refresh_loop-Stops ws _ e (rw (r, refresh_loop) at h))
    | gives_up e' s' st k r ↦
        here (s, subst (Stops cfg w s) (some-injective _ _ (rw (r, refresh_loop) at h)) st)
    | retries m r ↦ there (refresh_loop-Stops ws s e (rw (r, refresh_loop) at h))
  ]

  -- The round delivers this content of the token file.
  abbrev pub Writes : Option String → World → Type 0
  Writes content w =
      (s : State) × (aws : MintedToken) × Delivers cfg w s aws × (content ≡ some aws.token)

  -- After any rounds the probe's flag and the token file are what they were before, or the file
  -- holds the token that one of the rounds has delivered.
  pub refresh_loop-Writes :
      (ws : List World) (s : State)
      → let s' = (refresh_loop cfg ws s).0 in
        ((s'.ready ≡ s.ready) × (s'.files cfg.aws_token_path ≡ s.files cfg.aws_token_path))
        ⊎ Any (Writes (s'.files cfg.aws_token_path)) ws
  unfolding refresh_loop
  refresh_loop-Writes [] s = inl (refl, refl)
  refresh_loop-Writes (w ∷ ws) s = elim (round-Ends cfg w s) [
    | delivers aws d r ↦
        rw (r, refresh_loop)
          (elim (refresh_loop-Writes ws (stored cfg w aws s)) [
            | inl (ready, same) ↦ inr (here (s, aws, d, same ∙ d.on_disk))
            | inr later ↦ inr (there later)
          ])
    | gives_up e' s' st (first, ready, same) r ↦ rw (r, refresh_loop) (inl (ready, same))
    | retries m r ↦
        rw (r, refresh_loop)
          (elim (refresh_loop-Writes ws s) [ inl same ↦ inl same | inr later ↦ inr (there later) ])
  ]
