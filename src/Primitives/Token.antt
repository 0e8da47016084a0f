-- ===== src/Primitives/Token.antt =====
-- The tokens of primitives/src/currency.rs: the enum that `create_currency_id!` declares, and the
-- conversions and `TokenInfo` data that the macro makes from its rows.
use mathlib.Core.Option.{some-injective}
use setheum.Common.{
  ℕ, ◌≡◌, ◌↔◌, refl, sym, ap, subst, ◌∙◌, Option, none, some, List, [], ◌∷◌, ◌==◌, if◌then◌else◌,
  ==_iff, Bool-cases, inl, inr,
}

pub data TokenSymbol : Type 0 where
  dnar dram sett usdj eurj jpyj gbpj audj cadj chfj sgdj brlj sarj : TokenSymbol
  neom mena nsett jusd jeur jjpy jgbp jaud jcad jchf jsgd jbrl jsar : TokenSymbol
  renbtc usd eur jpy gbp aud cad chf sgd brl sar kwd jod : TokenSymbol
  bhd kyd omr gip : TokenSymbol

-- `Into<u8>`: the discriminant.
abbrev pub into_u8 : TokenSymbol → ℕ
into_u8 dnar = 0
into_u8 dram = 1
into_u8 sett = 2
into_u8 usdj = 3
into_u8 eurj = 4
into_u8 jpyj = 5
into_u8 gbpj = 6
into_u8 audj = 7
into_u8 cadj = 8
into_u8 chfj = 9
into_u8 sgdj = 10
into_u8 brlj = 11
into_u8 sarj = 12
into_u8 neom = 128
into_u8 mena = 129
into_u8 nsett = 130
into_u8 jusd = 131
into_u8 jeur = 132
into_u8 jjpy = 133
into_u8 jgbp = 134
into_u8 jaud = 135
into_u8 jcad = 136
into_u8 jchf = 137
into_u8 jsgd = 138
into_u8 jbrl = 139
into_u8 jsar = 140
into_u8 renbtc = 141
into_u8 usd = 181
into_u8 eur = 182
into_u8 jpy = 183
into_u8 gbp = 184
into_u8 aud = 185
into_u8 cad = 186
into_u8 chf = 187
into_u8 sgd = 188
into_u8 brl = 189
into_u8 sar = 190
into_u8 kwd = 191
into_u8 jod = 192
into_u8 bhd = 193
into_u8 kyd = 194
into_u8 omr = 195
into_u8 gip = 196

-- The rows of the macro's call, in order.
abbrev pub symbols : List TokenSymbol
symbols =
    dnar ∷ dram ∷ sett ∷ usdj ∷ eurj ∷ jpyj ∷ gbpj ∷ audj ∷ cadj ∷ chfj ∷ sgdj ∷ brlj ∷ sarj ∷ neom
    ∷ mena ∷ nsett ∷ jusd ∷ jeur ∷ jjpy ∷ jgbp ∷ jaud ∷ jcad ∷ jchf ∷ jsgd ∷ jbrl ∷ jsar ∷ renbtc
    ∷ usd ∷ eur ∷ jpy ∷ gbp ∷ aud ∷ cad ∷ chf ∷ sgd ∷ brl ∷ sar ∷ kwd ∷ jod ∷ bhd ∷ kyd ∷ omr ∷ gip
    ∷ []

abbrev find_symbol : ℕ → List TokenSymbol → Option TokenSymbol
find_symbol v [] = none
find_symbol v (s ∷ ss) = if v == into_u8 s then some s else find_symbol v ss

-- `TryFrom<u8>`: the first row with that value.
pub try_from_u8 : ℕ → Option TokenSymbol
try_from_u8 v = find_symbol v symbols

-- `TokenInfo::decimals`
unfoldable pub decimals : TokenSymbol → ℕ
decimals dnar = 10
decimals dram = 10
decimals sett = 12
decimals usdj = 12
decimals eurj = 12
decimals jpyj = 12
decimals gbpj = 12
decimals audj = 12
decimals cadj = 12
decimals chfj = 12
decimals sgdj = 12
decimals brlj = 12
decimals sarj = 12
decimals neom = 10
decimals mena = 10
decimals nsett = 12
decimals jusd = 12
decimals jeur = 12
decimals jjpy = 12
decimals jgbp = 12
decimals jaud = 12
decimals jcad = 12
decimals jchf = 12
decimals jsgd = 12
decimals jbrl = 12
decimals jsar = 12
decimals renbtc = 8
decimals usd = 12
decimals eur = 12
decimals jpy = 12
decimals gbp = 12
decimals aud = 12
decimals cad = 12
decimals chf = 12
decimals sgd = 12
decimals brl = 12
decimals sar = 12
decimals kwd = 12
decimals jod = 12
decimals bhd = 12
decimals kyd = 12
decimals omr = 12
decimals gip = 12

-- A symbol is found under its discriminant.
try_from_u8-into_u8 : (s : TokenSymbol) → try_from_u8 (into_u8 s) ≡ some s
unfolding try_from_u8
try_from_u8-into_u8 dnar = refl
try_from_u8-into_u8 _ = refl

find_symbol_sound :
    (v : ℕ) (ss : List TokenSymbol) (s : TokenSymbol) → find_symbol v ss ≡ some s → into_u8 s ≡ v
find_symbol_sound v [] s e = cc
find_symbol_sound v (t ∷ ss) s e = elim (Bool-cases (v == into_u8 t)) [
  | inl h ↦ rw (← some-injective _ _ (rw h at e)) (sym ((==_iff v (into_u8 t)).0 h))
  | inr h ↦ find_symbol_sound v ss s (rw h at e)
]

-- A symbol that is found has that discriminant.
into_u8-try_from_u8 : (v : ℕ) {s : TokenSymbol} → try_from_u8 v ≡ some s → into_u8 s ≡ v
unfolding try_from_u8
into_u8-try_from_u8 v {s} e = find_symbol_sound v symbols s e

pub into_u8-injective : (s t : TokenSymbol) → into_u8 s ≡ into_u8 t → s ≡ t
into_u8-injective s t e =
    some-injective _ _ (sym (try_from_u8-into_u8 s) ∙ ap try_from_u8 e ∙ try_from_u8-into_u8 t)

-- A symbol is found under a number exactly when the number is its discriminant.
pub try_from_u8_iff : (v : ℕ) (s : TokenSymbol) → (try_from_u8 v ≡ some s) ↔ (into_u8 s ≡ v)
try_from_u8_iff v s = (
  λ e. into_u8-try_from_u8 v e,
  λ e. subst (λ v. try_from_u8 v ≡ some s) e (try_from_u8-into_u8 s),
)
