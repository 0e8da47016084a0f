-- ===== src/EvmManager/Numbers.antt =====
-- What the map from numbers to contracts keeps (`set_erc20_mapping`).
use setheum.Common.{
  ℕ, ◌≡◌, refl, sym, ap, subst, ◌∙◌, Option, none, some, Result, ok, err, ◌==◌, ==_iff, Bool-cases,
  inl, inr, update_self, update_ne, update-cases, nat_eq, after_action, state_eq,
}
use setheum.Primitives.Currency.{DexShare}
use setheum.Currencies.Types.{InvokeContext}
use setheum.EvmManager.Mapping.{
  Error, Erc20Info, Config, EvmManager, into_u32, erc20_info, bridge_answer, bridge, insert,
  map_entry, set_erc20_mapping,
}

entry_eq : {v w : Erc20Info} → some v ≡ some w → v ≡ w
entry_eq e = cc

free : {v : Erc20Info} → ◌≡◌ {A = Option Erc20Info} none (some v) → ⊥
free e = cc

module _ {W : Type 0} where
  -- Each contract in the map is under its own number.
  pub record IsOwned (s : EvmManager W) : Type 0 where
    pub number :
        (id : ℕ) (v : Erc20Info)
        → s.currency_id_map id ≡ some v
        → into_u32 (DexShare.erc20 v.address) ≡ id

  -- No contract leaves the map.
  pub record Extends (s t : EvmManager W) : Type 0 where
    pub kept :
        (id : ℕ) (v : Erc20Info) → s.currency_id_map id ≡ some v → t.currency_id_map id ≡ some v

  abbrev IsMapped : ℕ → EvmManager W → EvmManager W → Type 0
  IsMapped a s t = IsOwned t × ((v : Erc20Info) × (erc20_info a t ≡ some v)) × Extends s t

  bridge-same :
      {A : Type 0} (f : W → Result ℕ A) (s : EvmManager W) {x : A} {t : EvmManager W}
      → bridge f s ≡ ok (x, t)
      → t ≡ s
  bridge-same {A = A} f s {x} {t} e = by_result (f s.world) e
    where
      by_result : (r : Result ℕ A) → bridge_answer s r ≡ ok (x, t) → t ≡ s
      by_result (ok a) e = cc
      by_result (err _) e = absurd cc

  stays :
      (a : ℕ) (s : EvmManager W) (v : Erc20Info)
      → IsOwned s
      → s.currency_id_map (into_u32 (DexShare.erc20 a)) ≡ some v
      → v.address ≡ a
      → IsMapped a s s
  stays a s v owned q same =
      (owned, (v, rw q (rw ((==_iff v.address a).1 same) refl)), record { kept = λ id v e. e })

  inserted :
      (a : ℕ) (s : EvmManager W) (v : Erc20Info)
      → IsOwned s
      → s.currency_id_map (into_u32 (DexShare.erc20 a)) ≡ none
      → v.address ≡ a
      → IsMapped a s (insert (into_u32 (DexShare.erc20 a)) v s)
  inserted a s v owned q same =
      let id = into_u32 (DexShare.erc20 a) in
      (
        record {
          number = λ j w e. elim (update-cases s.currency_id_map id (some v) j e) [
            | inl (at_id, r) ↦
                let entry : v ≡ w = entry_eq r in
                ap (λ (v : Erc20Info). into_u32 (DexShare.erc20 v.address)) (sym entry)
                ∙ ap (λ a. into_u32 (DexShare.erc20 a)) same
                ∙ sym at_id
            | inr (_, r) ↦ owned.number j w r
          ];
        },
        (v, rw (update_self s.currency_id_map id (some v)) (rw ((==_iff v.address a).1 same) refl)),
        record {
          kept = λ j w e.
              update_ne s.currency_id_map id j (some v)
                (λ at_id. free (sym q ∙ ap s.currency_id_map (sym at_id) ∙ e))
              ∙ e;
        },
      )

  -- Where each contract in the map is under its own number, a call that succeeds has put the contract
  -- into the map or found it there, has removed no contract, and leaves each under its own number.
  pub set_erc20_mapping-Mapped :
      (T : Config W) (a : ℕ) (s : EvmManager W) {u : Unit {0}} {t : EvmManager W}
      → IsOwned s
      → set_erc20_mapping T a s ≡ ok (u, t)
      → IsOwned t × ((v : Erc20Info) × (erc20_info a t ≡ some v)) × Extends s t
  unfolding set_erc20_mapping
  set_erc20_mapping-Mapped T a s {u} {t} owned e =
      by_entry (s.currency_id_map (into_u32 (DexShare.erc20 a))) refl e
    where
      by_entry :
          (o : Option Erc20Info)
          → s.currency_id_map (into_u32 (DexShare.erc20 a)) ≡ o
          → map_entry T a o s ≡ ok (u, t)
          → IsMapped a s t
      by_entry (some v) q e = elim (Bool-cases (v.address == a)) [
        | inl b ↦
            let same : ok (tt, s) ≡ ok (u, t) = rw b at e in
            subst (IsMapped a s) (state_eq same) (stays a s v owned q ((==_iff v.address a).0 b))
        | inr b ↦
            let f : ◌≡◌ {A = Result Error (Unit {0} × EvmManager W)} (err Error.currency_id_existed)
                (ok (u, t)) =
              rw b at e in
            absurd cc
      ]
      by_entry none q e =
          let context : InvokeContext = record { contract = a; sender = 0; origin = 0 } in
          after_action (bridge (T.name context)) _ s e λ n s₁ e₁ h₁.
            after_action (bridge (T.symbol context)) _ s₁ h₁ λ y s₂ e₂ h₂.
              after_action (bridge (T.decimals context)) _ s₂ h₂ λ d s₃ e₃ h₃.
                let v : Erc20Info = record { address = a; name = n; symbol = y; decimals = d } in
                let same : s₃ ≡ s =
                  bridge-same (T.decimals context) s₂ e₃
                  ∙ bridge-same (T.symbol context) s₁ e₂
                  ∙ bridge-same (T.name context) s e₁ in
                subst (IsMapped a s)
                  (ap (insert (into_u32 (DexShare.erc20 a)) v) (sym same) ∙ state_eq h₃)
                  (inserted a s v owned q refl)
