-- ===== src/Prelude/Results.antt =====
-- Exceptions as values.
use mathlib.Core.Path.{◌≡◌, refl}
use mathlib.Core.Logic.{◌⊎◌, inl, inr}
use mathlib.Core.Bool.{Bool, true, false}
use mathlib.Core.Option.{Option, none, some}
use mathlib.Core.List.{List, [], ◌∷◌}

-- One constructor for each `throw` of the source, and two for failures inside other code: the
-- runtime's `RangeError` and a rejection of a third-party library.
pub data Error : Type 0 where
  range_error external : Error
  too_long bad_input invalid_id_length bad_action bad_types assertion : Error
  missing_key missing_router missing_call : Error
  domain_not_found unregistered missing_signer_provider no_reconnect signer_lost_provider : Error
  reconnect_failed missing_core missing_bridge missing_replica : Error
  token_unknown token_unavailable no_signer no_canonical no_eth_helper no_message : Error
  not_paginated out_of_fuel : Error
  expected_single no_receipt multiple_updates direct_instantiation missing_log : Error
  no_deploys failed_check undefined_contract reverted no_config_folder no_deploy_file : Error

-- What a function returns or throws.
pub data Result {ℓ} (V : Type ℓ) : Type ℓ where
  err : Error → Result V
  ok : V → Result V

-- `undefined` where a value is needed.
abbrev pub or_throw {ℓ} : {V : Type ℓ} → Option V → Error → Result V
or_throw none thrown = err thrown
or_throw (some value) thrown = ok value

-- `if (!condition) throw`
abbrev pub guard : Bool → Error → Result (Unit {0})
guard false thrown = err thrown
guard true thrown = ok tt

infixl 5 ◌>>=◌ ◌>>◌
abbrev pub ◌>>=◌ {ℓ κ} : {V : Type ℓ} {W : Type κ} → Result V → (V → Result W) → Result W
err thrown >>= rest = err thrown
ok value >>= rest = rest value

abbrev pub ◌>>◌ {ℓ κ} : {V : Type ℓ} {W : Type κ} → Result V → Result W → Result W
first >> second = first >>= λ _. second

-- What returns came through its first step.
pub >>=-eq-ok {ℓ κ} :
    {V : Type ℓ} {W : Type κ} (first : Result V) (rest : V → Result W) {result : W}
    → (first >>= rest) ≡ ok result
    → (value : V) × (first ≡ ok value) × (rest value ≡ ok result)
>>=-eq-ok (err thrown) rest e = cc
>>=-eq-ok (ok value) rest e = (value, refl, e)

-- `Promise.all(xs.map(f))`: the results in order, or a failure.
abbrev pub traverse {ℓ κ} : {A : Type ℓ} {B : Type κ} → (A → Result B) → List A → Result (List B)
traverse f [] = ok []
traverse f (x ∷ xs) = f x >>= λ y. traverse f xs >>= λ ys. ok (y ∷ ys)

pub Result-cases {ℓ} :
    {A : Type ℓ} (r : Result A) → ((a : A) × (r ≡ ok a)) ⊎ ((e : Error) × (r ≡ err e))
Result-cases (ok a) = inl (a, refl)
Result-cases (err e) = inr (e, refl)

pub ok-eq-ok {ℓ} : {A : Type ℓ} {a b : A} → ok a ≡ ok b → a ≡ b
ok-eq-ok h = cc
