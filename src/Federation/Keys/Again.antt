-- ===== src/Federation/Keys/Again.antt =====
-- k8s.rs: the signing key is kept when the service starts again, and its public part is published.
use kubernetes_identity_fede.Base.{
  String, ◌≡◌, sym, ap, subst, ◌∙◌, ◌≢◌, Option, none, some, [], ◌∷◌, ok, ok-injective,
  Option-cases, inl, inr,
}
use kubernetes_identity_fede.Base.Calls.{
  Calls, ◌>>=◌, lift, read, change, bind_inv, change_inv, lift_inv, read_inv,
}
use kubernetes_identity_fede.Federation.Claims.{Crypto, SigningMaterial, jwks_json_from_private_pem}
use kubernetes_identity_fede.Federation.Keys.Secrets.{
  Secret, jwks_secret_key, opaque, signing_data, material_of, material_of-signing_data,
}
use kubernetes_identity_fede.Federation.Keys.{
  Server, upsert_jwks_secret, publish, create_signing, use_signing, ensure_signing_and_jwks,
  new_material,
}

-- What the code relies on: an applied secret can be read back with its data, another one is left
-- alone, and text is valid UTF-8.
pub record Storage (server : Server) : Type 0 where
  pub patch-same :
      (name : String) (r : Secret server.Bytes) (s s' : server.State)
      → server.patch name r s ≡ ok s'
      → (o : Secret server.Bytes) × (server.get_opt name s' ≡ ok (some o)) × (o.entries ≡ r.entries)
  pub patch-other :
      (name other : String) (r : Secret server.Bytes) (s s' : server.State)
      → name ≢ other
      → server.patch name r s ≡ ok s'
      → server.get_opt other s' ≡ server.get_opt other s
  pub from_utf8-into_bytes : (t : String) → server.from_utf8 (server.into_bytes t) ≡ ok t

module _ (server : Server) (crypto : Crypto) (storage : Storage server) (signing jwks : String)
    (distinct : jwks ≢ signing) where
  open server use {State, Bytes, get_opt, patch, from_utf8, into_bytes, new_pem, seconds}

  -- The signing secret holds the material, and the other secret its public part.
  pub record Holds (material : SigningMaterial) (s : State) : Type 0 where
    pub secret : Secret Bytes
    pub found : get_opt signing s ≡ ok (some secret)
    pub readable : material_of from_utf8 secret ≡ ok material
    pub public : Secret Bytes
    pub json : String
    pub published : get_opt jwks s ≡ ok (some public)
    pub document : jwks_json_from_private_pem crypto material ≡ ok json
    pub entries : public.entries ≡ some ((jwks_secret_key, into_bytes json) ∷ [])

  publish-Holds :
      (secret : Secret Bytes) (material material' : SigningMaterial) (s s' : State)
      → get_opt signing s ≡ ok (some secret)
      → material_of from_utf8 secret ≡ ok material
      → publish server crypto jwks material s ≡ (ok material', s')
      → (material ≡ material') × Holds material s'
  unfolding publish upsert_jwks_secret
  publish-Holds secret material material' s s' found readable h =
      let (json, s₁, lifted, h₁) =
        bind_inv (lift (jwks_json_from_private_pem crypto material))
          (λ json. ◌>>=◌ (upsert_jwks_secret server crypto jwks json) (λ _. lift (ok material))) s
          h in
      let (document, at_s) = lift_inv (jwks_json_from_private_pem crypto material) s lifted in
      let (u, s₂, put, h₂) =
        bind_inv (upsert_jwks_secret server crypto jwks json) (λ _. lift (ok material)) s₁ h₁ in
      let (same, at_s') = lift_inv (ok material) s₂ h₂ in
      let r = opaque jwks ((jwks_secret_key, into_bytes json) ∷ []) in
      let patched : patch jwks r s ≡ ok s' =
        subst (λ t. patch jwks r t ≡ ok s') (sym at_s)
          (change_inv (patch jwks r) s₁ {u = u} put ∙ ap (λ t. ok t) at_s') in
      let (o, got, held) = storage.patch-same jwks r s s' patched in
      (
        ok-injective same,
        record {
          secret = secret;
          found = storage.patch-other jwks signing r s s' distinct patched ∙ found;
          readable = readable;
          public = o;
          json = json;
          published = got;
          document = document;
          entries = held;
        },
      )

  use-Holds :
      (secret : Secret Bytes) (material : SigningMaterial) (s s' : State)
      → get_opt signing s ≡ ok (some secret)
      → use_signing server crypto jwks secret s ≡ (ok material, s')
      → (material_of from_utf8 secret ≡ ok material) × Holds material s'
  unfolding use_signing
  use-Holds secret material s s' found h =
      let (m, s₁, lifted, h₁) =
        bind_inv (lift (material_of from_utf8 secret)) (publish server crypto jwks) s h in
      let (readable, at_s) = lift_inv (material_of from_utf8 secret) s lifted in
      let (same, holds) =
        publish-Holds secret m material s₁ s' (ap (get_opt signing) (sym at_s) ∙ found) readable
          h₁ in
      (readable ∙ ap (λ m. ok m) same, subst (λ m. Holds m s') same holds)

  create-Holds :
      (material : SigningMaterial) (s s' : State)
      → create_signing server crypto signing jwks s ≡ (ok material, s')
      → Holds material s'
  unfolding create_signing
  create-Holds material s s' h =
      let stored : SigningMaterial → Secret Bytes =
        λ m. opaque signing (signing_data into_bytes m) in
      let (secs, s₁, timed, h₁) =
        bind_inv (lift seconds)
          (λ secs. ◌>>=◌ (lift new_pem) (λ pem.
            ◌>>=◌ (change (patch signing (stored (new_material server crypto secs pem))))
              (λ _. publish server crypto jwks (new_material server crypto secs pem))))
          s h in
      let (pem, s₂, generated, h₂) =
        bind_inv (lift new_pem)
          (λ pem.
            ◌>>=◌ (change (patch signing (stored (new_material server crypto secs pem))))
              (λ _. publish server crypto jwks (new_material server crypto secs pem)))
          s₁ h₁ in
      let m = new_material server crypto secs pem in
      let (u, s₃, put, h₃) =
        bind_inv (change (patch signing (stored m))) (λ _. publish server crypto jwks m) s₂ h₂ in
      let (o, got, held) =
        storage.patch-same signing (stored m) s₂ s₃
          (change_inv (patch signing (stored m)) s₂ {u = u} put) in
      let readable =
        material_of-signing_data from_utf8 into_bytes m o storage.from_utf8-into_bytes held in
      let (same, holds) = publish-Holds o m material s₃ s' got readable h₃ in
      subst (λ m. Holds m s') same holds

  -- If the two secrets have different names, a start that succeeds has the signing secret hold the
  -- material that it returns, and the JWKS secret the document made from that material.
  pub ensure-Holds :
      (material : SigningMaterial) (s s' : State)
      → ensure_signing_and_jwks server crypto signing jwks s ≡ (ok material, s')
      → Holds material s'
  unfolding ensure_signing_and_jwks
  ensure-Holds material s s' h =
      let rest : Option (Secret Bytes) → Calls State SigningMaterial = λ found. elim found [
        | none ↦ create_signing server crypto signing jwks
        | some existing ↦ use_signing server crypto jwks existing
      ] in
      let (found, s₁, looked, h₁) = bind_inv (read (get_opt signing)) rest s h in
      let (got, at_s) = read_inv (get_opt signing) s looked in
      elim (Option-cases found) [
        | inl missing ↦
            create-Holds material s₁ s' (subst (λ f. rest f s₁ ≡ (ok material, s')) missing h₁)
        | inr (secret, present) ↦
            (use-Holds secret material s₁ s'
              (ap (get_opt signing) (sym at_s) ∙ got ∙ ap (λ f. ok f) present)
              (subst (λ f. rest f s₁ ≡ (ok material, s')) present h₁)).1
      ]

  -- If the JWKS secret and the signing secret have different names, a later start that succeeds,
  -- on what an earlier one has left, returns the same signing material.
  pub ensure-again :
      (material later : SigningMaterial) (s s' s'' : State)
      → ensure_signing_and_jwks server crypto signing jwks s ≡ (ok material, s')
      → ensure_signing_and_jwks server crypto signing jwks s' ≡ (ok later, s'')
      → later ≡ material
  unfolding ensure_signing_and_jwks
  ensure-again material later s s' s'' h h' =
      let holds = ensure-Holds material s s' h in
      let rest : Option (Secret Bytes) → Calls State SigningMaterial = λ found. elim found [
        | none ↦ create_signing server crypto signing jwks
        | some existing ↦ use_signing server crypto jwks existing
      ] in
      let (found, s₁, looked, h₁) = bind_inv (read (get_opt signing)) rest s' h' in
      let (got, at_s) = read_inv (get_opt signing) s' looked in
      let same : found ≡ some holds.secret = ok-injective (sym got ∙ holds.found) in
      let (readable, again) =
        use-Holds holds.secret later s₁ s'' (ap (get_opt signing) (sym at_s) ∙ holds.found)
          (subst (λ f. rest f s₁ ≡ (ok later, s'')) same h₁) in
      ok-injective (sym readable ∙ holds.readable)
