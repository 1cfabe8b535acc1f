-- ===== src/Examples/ToyLaws.antt =====
-- The stand-in satisfies the hypotheses of Sdk/Laws.antt.
use quantoxide.Examples.ToySdk.{add_units, sub_units, toy_sdk, units}
use quantoxide.Prelude.{
  Bool, ap, arith, err_absurd, false, ok, ok_inj, refl, sym, true, ◌+◌, ◌<◌, ◌≡◌,
}
use quantoxide.Prelude.Machine.{i64_half}
use quantoxide.Sdk.Laws.{DifferenceLaw, ExposureLaws, PriceLaws, QuantityLaws}

pub toy_prices : PriceLaws ⦃sdk = toy_sdk⦄
toy_prices = record {
  price_total = λ a b. ground arith;
  price_trans = λ a b c h k. ground arith;
  f64_le_price = λ x a b h k. ground arith;
  price_le_f64 = λ x a b h k. ground arith;
}

pub toy_exposures : ExposureLaws ⦃sdk = toy_sdk⦄
toy_exposures = record {
  new_neutral = λ m l. refl;
  new_running = λ m l s q p e h. ((s, q, p), sym (ok_inj h), refl, refl, refl);
  params_neutral = refl;
  params_running = λ r. refl;
}

as_u64_inj : (a b : Bool) → units a ≡ units b → a ≡ b
as_u64_inj true true h = refl
as_u64_inj false false h = refl
as_u64_inj true false h = ground arith
as_u64_inj false true h = ground arith

add_exact : (a b c : Bool) → add_units a b ≡ ok c → units c ≡ units a + units b
add_exact true true c h = ap units (sym (ok_inj h))
add_exact true false c h = err_absurd h
add_exact false true c h = err_absurd h
add_exact false false c h = err_absurd h

sub_exact : (a b c : Bool) → sub_units a b ≡ ok c → units c + units b ≡ units a
sub_exact true true c h = err_absurd h
sub_exact true false c h = err_absurd h
sub_exact false true c h = ap (λ x. units x + 1) (sym (ok_inj h))
sub_exact false false c h = err_absurd h

units_bound : (q : Bool) → units q < i64_half
units_bound true = omega arith
units_bound false = omega arith

pub toy_quantities : QuantityLaws ⦃sdk = toy_sdk⦄
toy_quantities = record {
  as_i64_exact = λ q. refl;
  as_u64_bound = units_bound;
  as_u64_injective = as_u64_inj;
  try_add_exact = add_exact;
  try_sub_exact = sub_exact;
}

sub_defined : (a b : Bool) → units b < units a → (c : Bool) × (sub_units a b ≡ ok c)
sub_defined false true h = (true, refl)
sub_defined true true h = ground (arith, h)
sub_defined true false h = ground (arith, h)
sub_defined false false h = ground (arith, h)

pub toy_differences : DifferenceLaw ⦃sdk = toy_sdk⦄
toy_differences = record { try_sub_defined = sub_defined }
