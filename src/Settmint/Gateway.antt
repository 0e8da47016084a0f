-- ===== src/Settmint/Gateway.antt =====
-- lib-serml/settmint/settmint-gateway/src/lib.rs: the calls for users, and the authorizations.
pub mod History
use setheum.Common.{
  ℕ, Bool, true, false, ◌||◌, ◌&&◌, Option, none, some, List, [], ◌∷◌, Result, ok, err, Action,
  ◌>>=◌, ◌>>◌, pure, ensure, ok_or, gets, modify, if◌then◌else◌, ◌==◌, ℤ,
}
use setheum.Primitives.Currency.{CurrencyId, currency_beq}
use setheum.Settmint.Manager.{Error, Event, Config, Settmint, Call, deposit_event, transfer_reserve}
use setheum.Settmint.Manager as Manager

-- `Authorization` with one entry set or removed
abbrev pub set_authorization :
    ℕ → CurrencyId → ℕ → Bool → (ℕ → CurrencyId → ℕ → Bool) → ℕ → CurrencyId → ℕ → Bool
set_authorization from c to v m i d j =
    if (i == from) && (currency_beq d c && (j == to)) then v else m i d j

-- `remove_prefix`
abbrev pub clear_authorization : ℕ → (ℕ → CurrencyId → ℕ → Bool) → ℕ → CurrencyId → ℕ → Bool
clear_authorization from m i d j = if i == from then false else m i d j

-- `check_authorization`
unfoldable pub check_authorization : {W : Type 0} → ℕ → ℕ → CurrencyId → Call W (Unit {0})
check_authorization from to c = do
  given ← gets (λ s. s.authorization from c to)
  ensure ((from == to) || given) Error.no_authorization

module _ {O W : Type 0} (T : Config O W) where
  unfoldable pub adjust_position : O → CurrencyId → ℤ → ℤ → Call W (Unit {0})
  adjust_position origin c reserve_adjustment standard_adjustment = do
    who ← ok_or (T.ensure_signed origin) Error.bad_origin
    Manager.adjust_position T who c reserve_adjustment standard_adjustment

  unfoldable pub transfer_position_from : O → CurrencyId → ℕ → Call W (Unit {0})
  transfer_position_from origin c source = do
    to ← ok_or (T.ensure_signed origin) Error.bad_origin
    from ← ok_or (T.lookup_account source) Error.bad_origin
    check_authorization from to c
    transfer_reserve T from to c

  unfoldable pub authorize : O → CurrencyId → ℕ → Call W (Unit {0})
  authorize origin c target = do
    from ← ok_or (T.ensure_signed origin) Error.bad_origin
    to ← ok_or (T.lookup_account target) Error.bad_origin
    modify (λ s. record s { authorization = set_authorization from c to true s.authorization })
    deposit_event (Event.authorization from to c)

  unfoldable pub unauthorize : O → CurrencyId → ℕ → Call W (Unit {0})
  unauthorize origin c target = do
    from ← ok_or (T.ensure_signed origin) Error.bad_origin
    to ← ok_or (T.lookup_account target) Error.bad_origin
    modify (λ s. record s { authorization = set_authorization from c to false s.authorization })
    deposit_event (Event.un_authorization from to c)

  unfoldable pub unauthorize_all : O → Call W (Unit {0})
  unauthorize_all origin = do
    from ← ok_or (T.ensure_signed origin) Error.bad_origin
    modify (λ s. record s { authorization = clear_authorization from s.authorization })
    deposit_event (Event.un_authorization_all from)
