-- ===== src/Settmint/Tests.antt =====
-- Settmint at concrete inputs: a world without content in which all outside calls succeed, and a
-- validator that wants a reserve of at least the standard.
use setheum.Common.{
  ℕ, ◌≡◌, refl, true, false, some, List, [], ◌∷◌, Result, ok, err, arith, leb, if◌then◌else◌, ℤ,
}
use setheum.Primitives.Token.{TokenSymbol}
use setheum.Primitives.Currency.{CurrencyId}
use setheum.Settmint.Manager.{
  Error, Config, Settmint, position, update_reserve, transfer_reserve, adjust_position,
  change_position,
}
use setheum.Settmint.Manager.Accounting.{IsAccounted, update_reserve-IsAccounted}
use setheum.Settmint.Manager.Transfer.{Transferred, transfer_reserve-Transferred}
use setheum.Settmint.Manager.Adjustment.{Adjusted, adjust_position-Adjusted}
use setheum.Settmint.Gateway.{transfer_position_from}
use setheum.Settmint.Gateway.History.{
  Request, run_all, run_all-latest, transfer_position_from-unauthorized,
}

abbrev config : Config ℕ (Unit {0})
config = record {
  ensure_signed = λ o. some o;
  lookup_account = λ a. some a;
  convert = λ _ amount _. amount;
  transfer = λ _ _ _ _ w. ok w;
  standard_currency_ids = CurrencyId.token TokenSymbol.usdj ∷ [];
  reserve_currency_id = CurrencyId.token TokenSymbol.sett;
  check_position_valid = λ _ reserve standard _. if leb standard reserve then ok tt else err 5;
  issue_standard = λ _ _ _ w. ok w;
  burn_standard = λ _ _ _ w. ok w;
  account_id = 99;
  happened = λ _ _ _ _ w. w;
  inc_consumers = λ _ w. ok w;
  dec_consumers = λ _ w. w;
}

abbrev dollar : CurrencyId
dollar = CurrencyId.token TokenSymbol.usdj

-- In every currency, accounts 1 and 2 have positions.
abbrev book : Settmint (Unit {0})
book = record {
  positions = λ _.
      (1, record { reserve = 100; standard = 40 })
      ∷ (2, record { reserve = 10; standard = 0 })
      ∷ [];
  total_positions = λ _. record { reserve = 110; standard = 40 };
  authorization = λ _ _ _. false;
  events = [];
  world = tt;
}

abbrev after : {A : Type 0} → Result Error (A × Settmint (Unit {0})) → Settmint (Unit {0})
after (ok (_, t)) = t
after (err _) = book

book-IsAccounted : (d : CurrencyId) → IsAccounted book d
book-IsAccounted d = record {
  entries = (refl, refl, (refl, refl, tt));
  reserves = refl;
  standards = refl;
}

abbrev updated : Settmint (Unit {0})
updated = after (update_reserve config 2 dollar (ℤ.negsuc 9) (ℤ.pos 0) book)

update_test : updated.positions dollar ≡ (1, record { reserve = 100; standard = 40 }) ∷ []
unfolding update_reserve change_position
update_test = refl

update_reserve-IsAccounted_example : IsAccounted updated dollar
unfolding update_reserve change_position
update_reserve-IsAccounted_example =
    update_reserve-IsAccounted config 2 dollar (ℤ.negsuc 9) (ℤ.pos 0) book (omega arith)
      (omega arith) book-IsAccounted refl dollar

abbrev transferred : Settmint (Unit {0})
transferred = after (transfer_reserve config 1 2 dollar book)

transfer_reserve-Transferred_example :
    Transferred 1 2 dollar book transferred
    × (config.check_position_valid dollar
          (position transferred dollar 2).reserve
          (position transferred dollar 2).standard
          tt
        ≡ ok tt)
unfolding transfer_reserve update_reserve change_position
transfer_reserve-Transferred_example =
    transfer_reserve-Transferred config 1 2 dollar book (omega arith) book-IsAccounted refl

abbrev adjusted : Settmint (Unit {0})
adjusted = after (adjust_position config 1 dollar (ℤ.pos 50) (ℤ.negsuc 4) book)

adjust_position-Adjusted_example : Adjusted config 1 dollar (ℤ.pos 50) (ℤ.negsuc 4) book adjusted
unfolding adjust_position update_reserve change_position
adjust_position-Adjusted_example =
    adjust_position-Adjusted config 1 dollar (ℤ.pos 50) (ℤ.negsuc 4) book (omega arith)
      (omega arith) book-IsAccounted refl

-- Account 1 authorizes account 2, and takes all authorizations back.
abbrev requests : List (Request ℕ)
requests =
    Request.authorize 1 dollar 2
    ∷ Request.authorize 1 dollar 3
    ∷ Request.unauthorize_all 1
    ∷ Request.authorize 1 dollar 3
    ∷ []

run_all-latest_example : (run_all config requests book).authorization 1 dollar 3 ≡ true
run_all-latest_example = run_all-latest config requests book 1 dollar 3

transfer_position_from-unauthorized_example :
    transfer_position_from config 2 dollar 1 (run_all config requests book)
    ≡ err Error.no_authorization
transfer_position_from-unauthorized_example =
    transfer_position_from-unauthorized config requests book 2 dollar 1 refl refl (omega arith) refl
