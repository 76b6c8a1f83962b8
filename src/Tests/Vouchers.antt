-- ===== src/Tests/Vouchers.antt =====
-- A coupon of ten percent on two lines, of which the rule covers both.
use e_commerce_be.Prelude.{ℕ, sub64, ◌≡◌, ◌≢◌, refl, true, none, List, [], ◌∷◌, pos, ◌⊎◌, ◌↔◌, map}
use e_commerce_be.Shared.{ok, err, panicked}
use e_commerce_be.Words.{percent}
use e_commerce_be.Models.{Coupon, CouponRule}
use e_commerce_be.Voucher.{Line, Quote, calculate}
use e_commerce_be.Voucher.Quotes.{IsExact}
use e_commerce_be.Voucher.Code.{normalize, normalize_idem}
use e_commerce_be.Text.{trim_space, to_upper}
use e_commerce_be.Voucher.Pattern.{Matches, normalize-Matches}
use e_commerce_be.Voucher.Calculate.{
  IsRedeemable, calculate-IsExact, calculate-ne-panicked, calculate_accepts,
}

abbrev tenth : Coupon
tenth = record {
  id = 1;
  active = true;
  max_discount = pos 100;
  code = b'T' ∷ b'E' ∷ b'N' ∷ [];
  kind = percent;
  value = pos 10;
  starts_at = 10;
  ends_at = 90;
  usage_limit = pos 0;
  used_count = pos 0;
  deleted_at = none;
}

abbrev any_shop : CouponRule
any_shop = record { coupon_id = 1; min_order = pos 100; seller_id = none; deleted_at = none }

abbrev basket : List Line
basket =
    record { seller_id = 3; amount = pos 333 } ∷ record { seller_id = 4; amount = pos 170 } ∷ []

abbrev quoted : Quote
quoted = record { coupon_id = 1; discount = pos 50; line_discounts = pos 33 ∷ pos 17 ∷ [] }

calculate_run : calculate tenth any_shop basket 50 ≡ ok quoted
unfolding calculate sub64
calculate_run = refl

calculate-IsExact_example :
    IsRedeemable tenth any_shop basket 50 × IsExact tenth any_shop basket quoted
calculate-IsExact_example = calculate-IsExact tenth any_shop basket 50 quoted calculate_run

calculate-ne-panicked_example : calculate tenth any_shop basket 50 ≢ err panicked
calculate-ne-panicked_example = calculate-ne-panicked tenth any_shop basket 50

calculate_accepts_example : (q : Quote) × (calculate tenth any_shop basket 50 ≡ ok q)
calculate_accepts_example =
    calculate_accepts tenth any_shop basket 50
      (calculate-IsExact tenth any_shop basket 50 quoted calculate_run).0

abbrev same_case : ℕ → ℕ
same_case c = c

abbrev typed : List ℕ
typed = b' ' ∷ b't' ∷ b'E' ∷ b'n' ∷ []

abbrev stored : List ℕ
stored = b'T' ∷ b'E' ∷ b'N' ∷ []

normalize_run : normalize same_case typed ≡ ok stored
unfolding normalize
normalize_run = refl

normalize-Matches_example :
    (normalize same_case typed ≡ ok stored)
    ↔ ((stored ≡ map (to_upper same_case) (trim_space typed)) × ((stored ≡ []) ⊎ Matches stored))
normalize-Matches_example = normalize-Matches same_case typed stored

normalize_idem_example : normalize same_case stored ≡ ok stored
normalize_idem_example = normalize_idem same_case typed stored normalize_run
