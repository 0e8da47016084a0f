-- ===== src/RenvmBridge/Tests.antt =====
-- The bridge at concrete inputs: origin 0 is that of unsigned transactions, the whole world is the
-- number of issued tokens, and the last two digits of a signature name its key.
use setheum.Common.{
  ℕ, ◌+◌, ◌-◌, ◌%◌, ◌≡◌, refl, none, some, List, [], ◌∷◌, ok, err, arith, ◌==◌, leb, ◌↔◌, update,
  nat_eq, All, if◌then◌else◌,
}
use setheum.RenvmBridge.Types.{Event, Config, RenvmBridge, RenvmCall, ValidTransaction}
use setheum.RenvmBridge.Pallet.{
  mint, do_mint, burn, rotate_key, verify_mint_signature, verify_rotate_key_signature,
  validate_unsigned, build,
}
use setheum.RenvmBridge.Signatures.{Extrinsic, Fresh, Distinct, accepted, accepted-Distinct}
use setheum.RenvmBridge.Signatures.Keys.{message_of, IsSigned, validate_unsigned_iff}
use setheum.RenvmBridge.Burns.{IsLog, KeepsBurns, final, final-IsLog}

abbrev hash : List ℕ → ℕ
hash (key ∷ []) = key
hash _ = 7

abbrev config : Config ℕ ℕ
config = record {
  ensure_none = λ o. o == 0;
  ensure_signed = λ o. if o == 0 then none else some o;
  deposit = λ _ n w. ok (w + n);
  withdraw = λ _ n w. if leb n w then ok (w - n) else err 0;
  currency_identifier = 1 ∷ [];
  unsigned_priority = 1;
  charge_fee = λ _ _ _ _ w. err 0;
  block_number = λ _. 12;
  secp256k1_ecdsa_recover = λ sig _. some ((sig % 100) ∷ []);
  keccak_256 = hash;
}

-- The key in force is 5.
abbrev start : RenvmBridge ℕ
start = build config 5 0

abbrev mint_call : ℕ → RenvmCall
mint_call sig = RenvmCall.mint 3 [] 10 [] sig

-- A mint with its repetition, another signature of the same message, a burn, a change of the key, a
-- mint by the old key, and a mint with an origin.
abbrev history : List (Extrinsic ℕ)
history =
    Extrinsic.unsigned (mint_call 105)
    ∷ Extrinsic.unsigned (mint_call 105)
    ∷ Extrinsic.unsigned (mint_call 205)
    ∷ Extrinsic.signed 3 (RenvmCall.burn [] 4)
    ∷ Extrinsic.unsigned (RenvmCall.rotate_key 9 305)
    ∷ Extrinsic.unsigned (mint_call 405)
    ∷ Extrinsic.signed 3 (mint_call 509)
    ∷ []

-- The blacklist knows signatures and not messages: two signatures of one message mint twice.
used : accepted config 0 history start ≡ 105 ∷ 205 ∷ 305 ∷ []
unfolding mint do_mint burn rotate_key verify_mint_signature verify_rotate_key_signature
    validate_unsigned
used = refl

accepted-Distinct_example :
    Distinct (accepted config 0 history start) × All (Fresh start) (accepted config 0 history start)
accepted-Distinct_example =
    accepted-Distinct config 0 history start (tt, (tt, (tt, (refl, (tt, (tt, (refl, tt)))))))

validate_unsigned_iff_example :
    ((v : ValidTransaction) × (validate_unsigned config (mint_call 105) start ≡ ok v))
    ↔ (Fresh start 105 × IsSigned config (message_of config (mint_call 105)) 105 start)
validate_unsigned_iff_example =
    validate_unsigned_iff config (mint_call 105) 105 start refl (omega arith)

start-IsLog : IsLog start
start-IsLog = record {
  recorded = λ i lt. absurd (omega arith);
  free = λ i le. refl;
  bounded = omega arith;
}

final-IsLog_example :
    IsLog (final config 0 history start) × KeepsBurns start (final config 0 history start)
final-IsLog_example = final-IsLog config 0 history start start-IsLog

abbrev stocked : RenvmBridge ℕ
stocked = build config 5 20

after_burn :
    (burn config 3 [] 4 stocked)
    ≡ ok (
      tt,
      record stocked {
        burn_events =
            update stocked.burn_events 0 (some (record { block = 12; dest = []; amount = 4 }));
        next_burn_event_id = 1;
        events = Event.burnt 3 [] 4 ∷ [];
        world = 16;
      },
    )
unfolding burn
after_burn = refl
