-- ===== src/Recommendation.antt =====
-- internal/modules/recommendation/service.go and repository.go: from candidates to the cards that a
-- page shows. The order that the scores of `rank`, floating-point numbers, give is a parameter, as is
-- what the caches and the search index answer.
pub mod Good
use e_commerce_be.Prelude.{
  ℕ, suc, Bool, true, false, not, ◌&&◌, ◌||◌, ◌++◌, Option, none, some, List, [], ◌∷◌, ◌==◌, ℤ, pos,
  ltb_ℤ, leb_ℤ, ◌==ℤ◌, mul64, length, ltb, find, select, count, map, sort_by, take, reverse,
}
use e_commerce_be.Shared.{Word, Uuid, Result, ok, err, is_some}
use e_commerce_be.Words.{approved, published}
use e_commerce_be.Models.{Product, ProductVariant}
use e_commerce_be.Store.{Db}
use e_commerce_be.Directory.{Directory, SellerInfo}
use e_commerce_be.Voucher.Preview.{status_in, is_in}

pub record Card : Type 0 where
  pub id : Uuid
  pub seller_id : Uuid
  pub name : Word
  pub min_price : ℤ

-- `candidate`. What `rank` reads besides the categories is one value here.
pub record Candidate : Type 0 where
  pub id : Uuid
  pub seller_id : Uuid
  pub categories : List Uuid
  pub signals : Word

pub record Index : Type 0 where
  -- The list in Redis for a user and a product, empty where there is none.
  pub cached_result : Uuid → Uuid → List Candidate
  pub cached_category : Uuid → Option (List Candidate)
  pub cached_popular : Option (List Candidate)
  -- What a search gives, none where the index is missing or fails.
  pub search_category : Uuid → Option (List Candidate)
  pub search_similar : Uuid → Option (List Candidate)
  pub search_popular : Option (List Candidate)
  -- `RecentFallback`
  pub recent : Option (List Candidate)
  -- The order by score, for the interests and with or without a product to be similar to.
  pub before : List Uuid → Bool → Candidate → Candidate → Bool

abbrev or_else : {A : Type 0} → Option A → Option A → Option A
or_else none b = b
or_else (some x) b = some x

-- `categoryCandidates` and `popularCandidates`, without what they write to the cache.
abbrev pub category_candidates : Index → Uuid → Option (List Candidate)
category_candidates ix id = or_else (ix.cached_category id) (ix.search_category id)

abbrev pub popular_candidates : Index → Option (List Candidate)
popular_candidates ix = or_else ix.cached_popular (or_else ix.search_popular ix.recent)

-- The loop over the interests, which ends at the first error.
unfoldable pub by_interests : Index → List Uuid → List Candidate
by_interests ix [] = []
by_interests ix (i ∷ is) =
    let rest = by_interests ix is in
    elim (category_candidates ix i) [ none ↦ [] | some items ↦ items ++ rest ]

abbrev pub listed : Option (List Candidate) → List Candidate
listed none = []
listed (some items) = items

abbrev pub found_for : Index → List Uuid → Uuid → List Candidate
found_for ix interests exclude =
    by_interests ix interests
    ++ elim (exclude == 0) [ true ↦ [] | false ↦ listed (ix.search_similar exclude) ]

-- The candidates of `recommend`, which it also writes to the cache for the next call.
unfoldable pub gather : Index → Uuid → Uuid → List Uuid → ℤ → List Candidate
unfolding by_interests
gather ix user exclude interests limit = elim (ix.cached_result user exclude) [
  | c ∷ cs ↦ c ∷ cs
  | [] ↦
      let found = found_for ix interests exclude in
      elim (ltb_ℤ (pos (length found)) (mul64 limit (pos 2))) [
        | false ↦ found
        | true ↦ found ++ listed (popular_candidates ix)
      ]
]

abbrev pub candidate_is : Uuid → Candidate → Bool
candidate_is id c = c.id == id

-- The map `unique`: of the candidates with one identifier the first, without `exclude` and uuid.Nil.
unfoldable pub unique : Uuid → List Candidate → List Candidate → List Candidate
unique exclude seen [] = []
unique exclude seen (c ∷ cs) =
    let new = unique exclude (c ∷ seen) cs in
    let old = unique exclude seen cs in
    elim (c.id == exclude || c.id == 0 || is_some (find (candidate_is c.id) seen)) [
      | true ↦ old
      | false ↦ c ∷ new
    ]

abbrev pub ids_of : List Candidate → List Uuid
ids_of cs = map (λ (c : Candidate). c.id) cs

unfoldable pub ranked : Index → Uuid → List Uuid → List Candidate → List Uuid
unfolding unique
ranked ix exclude interests cs =
    take 100 (ids_of (sort_by (ix.before interests (not (exclude == 0))) (unique exclude [] cs)))

abbrev in_stock : Uuid → ProductVariant → Bool
in_stock product v = v.product_id == product && ltb_ℤ (pos 0) v.stock && not (is_some v.deleted_at)

abbrev cheaper : ProductVariant → ProductVariant → Bool
cheaper a b = leb_ℤ a.price b.price

-- A row of the query of `Cards`: the product with its cheapest variant that is in stock.
abbrev card_of : List ProductVariant → Product → Option Card
card_of vs p = elim (sort_by cheaper (select (in_stock p.id) vs)) [
  | [] ↦ none
  | v ∷ rest ↦
      some (record { id = p.id; seller_id = p.seller_id; name = p.name; min_price = v.price })
]

abbrev card_row : List Uuid → List ProductVariant → Product → Option Card
card_row ids vs p = elim (is_in p.id ids && p.status == published && not (is_some p.deleted_at)) [
  | true ↦ card_of vs p
  | false ↦ none
]

-- `Repository.Cards`
unfoldable pub cards_in : List Uuid → List ProductVariant → List Product → List Card
cards_in ids vs [] = []
cards_in ids vs (p ∷ ps) =
    let rest = cards_in ids vs ps in
    elim (card_row ids vs p) [ none ↦ rest | some card ↦ card ∷ rest ]

unfoldable pub card_sellers : List Uuid → List Card → List Uuid
card_sellers seen [] = []
card_sellers seen (c ∷ cs) =
    let new = card_sellers (c.seller_id ∷ seen) cs in
    let old = card_sellers seen cs in
    elim (is_in c.seller_id seen) [ true ↦ old | false ↦ c.seller_id ∷ new ]

abbrev pub of_approved : List (Uuid × SellerInfo) → Card → Bool
of_approved shops c = status_in c.seller_id shops == approved

-- `hydrate`, none where the seller directory fails, with the shops it asked for.
unfoldable pub hydrate : Directory → Db → List Uuid → Option (List (Uuid × SellerInfo) × List Card)
unfolding cards_in card_sellers
hydrate d db ids =
    let cards = cards_in ids db.variants db.products in
    elim cards [
      | [] ↦ some ([], [])
      | c ∷ cs ↦ elim (d.batch_info (card_sellers [] (c ∷ cs))) [
        | err e ↦ none
        | ok shops ↦ some (shops, select (of_approved shops) (c ∷ cs))
      ]
    ]

abbrev pub card_is : Uuid → Card → Bool
card_is id c = c.id == id

abbrev pub of_seller : Uuid → Card → Bool
of_seller seller c = c.seller_id == seller

abbrev pub add_card : List Card → Card → List Card
add_card shown c = shown ++ (c ∷ [])

-- The last loop: at most two cards of a seller, until `limit` cards are shown. In the map `byID` the
-- last card with an identifier stands.
unfoldable pub pick : ℤ → List Card → List Uuid → List Card → List Card
pick limit cards [] shown = shown
pick limit cards (id ∷ ids) shown = elim (find (card_is id) (reverse cards)) [
  | none ↦ pick limit cards ids shown
  | some c ↦ elim (ltb (count (of_seller c.seller_id) shown) 2) [
    | false ↦ pick limit cards ids shown
    | true ↦ elim (pos (length (add_card shown c)) ==ℤ limit) [
      | true ↦ add_card shown c
      | false ↦ pick limit cards ids (add_card shown c)
    ]
  ]
]

-- `Service.recommend`
unfoldable pub recommend : Directory → Index → Db → Uuid → Uuid → List Uuid → ℤ → List Card
unfolding gather ranked hydrate pick
recommend d ix db user exclude interests limit =
    let ids = ranked ix exclude interests (gather ix user exclude interests limit) in
    elim (hydrate d db ids) [ none ↦ [] | some (shops, cards) ↦ pick limit cards ids [] ]
