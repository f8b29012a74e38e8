-- ===== src/Pricing/Tests.antt =====
-- Tests of the prices, and instances of their theorems.
use playhub_playbooking.Common.{
  List, [], arith, codes, none, ok, refl, some, true, ◌*◌, ◌+◌, ◌/◌, ◌∷◌, ◌≡◌,
}
use playhub_playbooking.Calendar.{text_ltb}
use playhub_playbooking.Calendar.Utc.{hour, utc}
use playhub_playbooking.Common.ListDatabase.{list_database, sort_by}
use playhub_playbooking.Pricing.{
  PricingRule, add_segment, calculate_price, find_best_rule, is_candidate, price_by, price_from,
  rules_for, skips,
}
use playhub_playbooking.Pricing.Rules.{IsBest, find_best_rule-IsBest}
use playhub_playbooking.Pricing.Total.{QuoteResult, calculate_price-QuoteResult}

-- 600 rupees an hour at any time, and 900 from 18:00 to 22:00.
abbrev pub base : PricingRule
base = record {
  id = 1;
  facility_id = 7;
  name = "base";
  base_price = 60000;
  currency = "INR";
  effective_from = none;
  effective_to = none;
  start_time = none;
  end_time = none;
  days_of_week = [];
  priority = 0;
  is_active = true;
}

abbrev pub peak : PricingRule
peak = record base {
  id = 2;
  name = "peak";
  base_price = 90000;
  start_time = some (codes "18:00");
  end_time = some (codes "22:00");
  priority = 5;
}

abbrev pub table : List PricingRule
table = base ∷ peak ∷ record base { id = 3; facility_id = 8; name = "other" } ∷ []

unfoldable pub pricing_program : Unit {0}
unfolding calculate_price price_by rules_for sort_by is_candidate price_from find_best_rule skips
    text_ltb add_segment
pricing_program = tt

-- From 17:30 to 18:40: half an hour at 600, 40 minutes at 900.
calculate_price-table :
    calculate_price list_database utc table 7 (17 * hour + hour / 2) (18 * hour + 2400000)
    ≡ ok (record {
      total_price = 60000 * 1800000 + 90000 * 2400000;
      currency = "INR";
      breakdown =
          record {
            start_time = 17 * hour + hour / 2;
            end_time = 18 * hour;
            price = 60000 * 1800000;
            rule_name = "base";
          }
          ∷ record {
            start_time = 18 * hour;
            end_time = 18 * hour + 2400000;
            price = 90000 * 2400000;
            rule_name = "peak";
          }
          ∷ [];
    })
unfolding pricing_program
calculate_price-table = refl

find_best_rule-IsBest_example :
    IsBest utc (19 * hour) (is_candidate 7 (18 * hour) (20 * hour)) table peak
unfolding pricing_program
find_best_rule-IsBest_example =
    find_best_rule-IsBest list_database utc table 7 (18 * hour) (20 * hour) (19 * hour) peak refl

calculate_price-QuoteResult_example :
    QuoteResult utc
      (rules_for list_database table 7 (18 * hour) (20 * hour))
      (18 * hour)
      (20 * hour)
      (calculate_price list_database utc table 7 (18 * hour) (20 * hour))
calculate_price-QuoteResult_example =
    calculate_price-QuoteResult list_database utc table 7 (18 * hour) (20 * hour) (omega arith)
