-- ===== src/Settmint/Manager.antt =====
-- lib-serml/settmint/settmint-manager/src/lib.rs: the positions of the accounts, the totals, and
-- their adjustment and transfer.
pub mod Positions
pub mod Updates
pub mod Accounting
pub mod Transfer
pub mod Adjustment
use setheum.Common.{
  ℕ, Bool, true, false, ◌&&◌, Option, none, some, List, [], ◌∷◌, ◌++◌, Result, ok, err, Action,
  ◌>>=◌, ◌>>◌, pure, fail, ensure, ok_or, lift, gets, modify, is_zero, if◌then◌else◌, checked_add,
  checked_sub, update, lookup, insert, remove, ℤ, is_positive, is_negative, saturating_abs,
  saturating_neg, try_into_u128, try_into_i128,
}
use setheum.Primitives.Currency.{CurrencyId, contains}
use setheum.Primitives.Order.{currency_eq}

-- A reserved standard position.
pub record Position : Type 0 where
  pub reserve : ℕ
  pub standard : ℕ

-- The pallet's errors; `other` is an error of another pallet, `panic` a failed `expect`.
pub data Error : Type 0 where
  standard_overflow standard_too_low reserve_overflow reserve_too_low : Error
  amount_convert_failed invalid_standard_type no_authorization bad_origin panic : Error
  other : ℕ → Error

pub data Event : Type 0 where
  position_updated : ℕ → CurrencyId → ℤ → ℤ → Event
  reserve_transferred : ℕ → ℕ → CurrencyId → Event
  authorization : ℕ → ℕ → CurrencyId → Event
  un_authorization : ℕ → ℕ → CurrencyId → Event
  un_authorization_all : ℕ → Event

-- What the pallets call outside them. `O` is the type of origins and `W` the storage of the rest
-- of the runtime.
pub record Config (O W : Type 0) : Type 0 where
  pub ensure_signed : O → Option ℕ
  -- `T::Lookup::lookup`
  pub lookup_account : ℕ → Option ℕ
  -- `T::Convert::convert`
  pub convert : CurrencyId → ℕ → W → ℕ
  -- `T::Currency::transfer`: currency, accounts, amount
  pub transfer : CurrencyId → ℕ → ℕ → ℕ → W → Result ℕ W
  pub standard_currency_ids : List CurrencyId
  pub reserve_currency_id : CurrencyId
  -- `T::StandardValidator::check_position_valid`
  pub check_position_valid : CurrencyId → ℕ → ℕ → W → Result ℕ (Unit {0})
  -- `T::SerpTreasury`
  pub issue_standard : CurrencyId → ℕ → ℕ → W → Result ℕ W
  pub burn_standard : ℕ → CurrencyId → ℕ → W → Result ℕ W
  pub account_id : ℕ
  -- `T::OnUpdateSettMint::happened`
  pub happened : ℕ → CurrencyId → ℤ → ℕ → W → W
  pub inc_consumers : ℕ → W → Result ℕ W
  pub dec_consumers : ℕ → W → W

-- The storage of the manager and of the gateway. A prefix of `Positions` lists the accounts that
-- have an entry; an account without one has the default position.
pub record Settmint (W : Type 0) : Type 0 where
  pub positions : CurrencyId → List (ℕ × Position)
  pub total_positions : CurrencyId → Position
  -- of the gateway: authorizer, currency, authorizee
  pub authorization : ℕ → CurrencyId → ℕ → Bool
  pub events : List Event
  pub world : W

abbrev pub Call : Type 0 → Type 0 → Type 0
Call W A = Action (Settmint W) Error A

-- `unwrap_or_default()` of a position, and a read of the map
abbrev pub position_or_default : Option Position → Position
position_or_default none = record { reserve = 0; standard = 0 }
position_or_default (some p) = p

abbrev pub position : {W : Type 0} → Settmint W → CurrencyId → ℕ → Position
position s c who = position_or_default (lookup who (s.positions c))

abbrev pub is_empty : Position → Bool
is_empty p = is_zero p.reserve && is_zero p.standard

abbrev pub or_err : {A : Type 0} → Option A → Error → Result Error A
or_err none e = err e
or_err (some a) e = ok a

abbrev pub amount_try_from_balance : ℕ → Result Error ℤ
amount_try_from_balance b = or_err (try_into_i128 b) Error.amount_convert_failed

abbrev pub balance_try_from_amount_abs : ℤ → Result Error ℕ
balance_try_from_amount_abs a =
    or_err (try_into_u128 (saturating_abs a)) Error.amount_convert_failed

-- `if adjustment.is_positive() { checked_add } else { checked_sub }`, with the error of either
abbrev pub adjusted : Bool → ℕ → ℕ → Error → Error → Result Error ℕ
adjusted true old balance over low = or_err (checked_add old balance) over
adjusted false old balance over low = or_err (checked_sub old balance) low

-- the two new numbers of a position, the reserve first
abbrev pub reserve_first : Result Error ℕ → Result Error ℕ → Result Error Position
reserve_first (err e) _ = err e
reserve_first (ok r) (err e) = err e
reserve_first (ok r) (ok v) = ok (record { reserve = r; standard = v })

-- the two new totals, the standard first
abbrev pub standard_first : Result Error ℕ → Result Error ℕ → Result Error Position
standard_first (err e) _ = err e
standard_first (ok v) (err e) = err e
standard_first (ok v) (ok r) = ok (record { reserve = r; standard = v })

abbrev pub new_reserve : ℤ → ℕ → Position → Result Error ℕ
new_reserve a balance p =
    adjusted (is_positive a) p.reserve balance Error.reserve_overflow Error.reserve_too_low

abbrev pub new_standard : ℤ → ℕ → Position → Result Error ℕ
new_standard a balance p =
    adjusted (is_positive a) p.standard balance Error.standard_overflow Error.standard_too_low

-- an entry is removed when the position is zero
abbrev pub store : ℕ → Position → List (ℕ × Position) → List (ℕ × Position)
store who p l = if is_empty p then remove who l else insert who p l

module _ {W : Type 0} where
  abbrev pub returned : Settmint W → Result ℕ W → Result Error (Unit {0} × Settmint W)
  returned s (ok w) = ok (tt, record s { world = w })
  returned s (err e) = err (Error.other e)

  -- a call of another pallet, under `?`
  abbrev pub outside : (W → Result ℕ W) → Call W (Unit {0})
  outside f s = returned s (f s.world)

  abbrev pub checked : Settmint W → Result ℕ (Unit {0}) → Result Error (Unit {0} × Settmint W)
  checked s (ok v) = ok (v, s)
  checked s (err e) = err (Error.other e)

  abbrev pub when : Bool → Call W (Unit {0}) → Call W (Unit {0})
  when true m s = m s
  when false m s = ok (tt, s)

  abbrev pub deposit_event : Event → Call W (Unit {0})
  deposit_event e s = ok (tt, record s { events = s.events ++ (e ∷ []) })

module _ {O W : Type 0} (T : Config O W) where
  -- `if inc_consumers(who).is_err() { warn }`
  abbrev pub count_in : Bool → ℕ → W → W
  count_in false who w = w
  count_in true who w = elim (T.inc_consumers who w) [ ok w' ↦ w' | err _ ↦ w ]

  abbrev pub count_out : Bool → ℕ → W → W
  count_out false who w = w
  count_out true who w = T.dec_consumers who w

  -- the change of the position, in the closure of `try_mutate_exists`
  unfoldable pub change_position :
      ℕ → CurrencyId → ℤ → Position → Position → Settmint W → Settmint W
  change_position who c standard_adjustment old new s = record s {
    positions = update s.positions c (store who new (s.positions c));
    world =
        count_out (is_empty new) who
          (T.happened who c standard_adjustment old.standard (count_in (is_empty old) who s.world));
  }

  unfoldable pub update_reserve : ℕ → CurrencyId → ℤ → ℤ → Call W (Unit {0})
  update_reserve who c reserve_adjustment standard_adjustment = do
    reserve_balance ← lift (balance_try_from_amount_abs reserve_adjustment)
    standard_balance ← lift (balance_try_from_amount_abs standard_adjustment)
    p ← gets (λ s. position s c who)
    new ← lift (
        reserve_first (new_reserve reserve_adjustment reserve_balance p)
          (new_standard standard_adjustment standard_balance p))
    modify (change_position who c standard_adjustment p new)
    total ← gets (λ s. s.total_positions c)
    changed ← lift (
        standard_first (new_standard standard_adjustment standard_balance total)
          (new_reserve reserve_adjustment reserve_balance total))
    modify λ s. record s { total_positions = update s.total_positions c changed }

  -- the reserve moves between the account and the pallet's
  abbrev pub move_reserve : ℕ → ℤ → ℕ → Call W (Unit {0})
  move_reserve who adjustment balance s =
      let d = T.reserve_currency_id in
      let amount = T.convert d balance s.world in
      if is_positive adjustment
      then outside (T.transfer d who T.account_id amount) s
      else when (is_negative adjustment) (outside (T.transfer d T.account_id who amount)) s

  -- the standard is issued or burnt
  abbrev pub move_standard : ℕ → CurrencyId → ℤ → ℕ → Call W (Unit {0})
  move_standard who c adjustment balance s =
      let amount = T.convert c balance s.world in
      if is_positive adjustment
      then outside (T.issue_standard c who amount) s
      else when (is_negative adjustment) (outside (T.burn_standard who c amount)) s

  unfoldable pub adjust_position : ℕ → CurrencyId → ℤ → ℤ → Call W (Unit {0})
  adjust_position who c reserve_adjustment standard_adjustment = do
    update_reserve who c reserve_adjustment standard_adjustment
    reserve_balance ← lift (balance_try_from_amount_abs reserve_adjustment)
    standard_balance ← lift (balance_try_from_amount_abs standard_adjustment)
    ensure (contains T.standard_currency_ids c) Error.invalid_standard_type
    move_reserve who reserve_adjustment reserve_balance
    move_standard who c standard_adjustment standard_balance
    p ← gets (λ s. position s c who)
    (λ s. checked s (T.check_position_valid c p.reserve p.standard s.world))
    deposit_event (Event.position_updated who c reserve_adjustment standard_adjustment)

  -- A panic of either `expect` is an error here.
  unfoldable pub transfer_reserve : ℕ → ℕ → CurrencyId → Call W (Unit {0})
  transfer_reserve from to c = do
    p ← gets (λ s. position s c from)
    q ← gets (λ s. position s c to)
    new_to_reserve_balance ← ok_or (checked_add q.reserve p.reserve) Error.panic
    new_to_standard_balance ← ok_or (checked_add q.standard p.standard) Error.panic
    (λ s.
        checked s (T.check_position_valid c new_to_reserve_balance new_to_standard_balance s.world))
    reserve_adjustment ← lift (amount_try_from_balance p.reserve)
    standard_adjustment ← lift (amount_try_from_balance p.standard)
    update_reserve from c (saturating_neg reserve_adjustment) (saturating_neg standard_adjustment)
    update_reserve to c reserve_adjustment standard_adjustment
    deposit_event (Event.reserve_transferred from to c)
