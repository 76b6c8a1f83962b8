-- ===== src/Tests/Suggestions.antt =====
-- The home page of user 1, where the only popular product is the one of Tests.Rows.
use e_commerce_be.Prelude.{◌≡◌, refl, true, none, some, List, [], ◌∷◌, pos}
use e_commerce_be.Shared.{Uuid, ok, err, not_found}
use e_commerce_be.Words.{approved}
use e_commerce_be.Directory.{Directory, SellerInfo}
use e_commerce_be.Recommendation.{Candidate, Card, Index, recommend}
use e_commerce_be.Recommendation.Good.{IsGood, Told, recommend-IsGood}
use e_commerce_be.Grpc.{postgres, from_status, to_status, learned, from_status-to_status}
use e_commerce_be.Tests.Rows.{placed}

abbrev open_shops : Directory
open_shops = record {
  check_membership = λ user seller. err not_found;
  get_info = λ seller. err not_found;
  batch_info = λ sellers. ok ((3, record { status = approved; commission_rate = pos 1000 }) ∷ []);
  get_operations = λ seller. err not_found;
}

abbrev popular : Candidate
popular = record { id = 41; seller_id = 3; categories = []; signals = 0 }

abbrev index : Index
index = record {
  cached_result = λ user product. [];
  cached_category = λ category. none;
  cached_popular = none;
  search_category = λ category. none;
  search_similar = λ product. none;
  search_popular = some (popular ∷ popular ∷ []);
  recent = none;
  before = λ interests similar a b. true;
}

abbrev shown_card : Card
shown_card = record { id = 41; seller_id = 3; name = 44; min_price = pos 250 }

shown_run : recommend open_shops index placed 1 0 [] (pos 10) ≡ shown_card ∷ []
unfolding recommend e_commerce_be.Prelude.take e_commerce_be.Prelude.sort_by
    e_commerce_be.Prelude.mul64 e_commerce_be.Prelude.find e_commerce_be.Prelude.select
    e_commerce_be.Prelude.reverse e_commerce_be.Prelude.count
shown_run = refl

recommend-IsGood_example :
    (shops : List (Uuid × SellerInfo)) × Told open_shops shops
    × IsGood 10 0 shops (recommend open_shops index placed 1 0 [] (pos 10))
recommend-IsGood_example = recommend-IsGood open_shops index placed 1 0 [] 9

from_status-to_status_example : from_status (to_status (postgres 23505)) ≡ learned (postgres 23505)
from_status-to_status_example = from_status-to_status (postgres 23505)
