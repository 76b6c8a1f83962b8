-- ===== src/Recommendation/Good.antt =====
-- The cards that `recommend` shows: how many, of which sellers, and of which shops.
use e_commerce_be.Prelude.{
  ℕ, zero, suc, ◌≡◌, refl, sym, ap, ◌∙◌, ◌+◌, ◌≤◌, ◌⊎◌, inl, inr, Bool, true, not, ◌||◌, ◌++◌, some,
  List, [], ◌∷◌, ◌==◌, ◌==ℤ◌, pos, ltb, length, length-append, find, select, count, count-zero,
  find_holds, sort_by, insert_by, take, reverse, arith, Bool-cases, Option-cases, if◌then◌else◌,
}
use e_commerce_be.Shared.{Uuid, is_some, ok, Result-cases}
use e_commerce_be.Store.{Db}
use e_commerce_be.Directory.{Directory, SellerInfo}
use e_commerce_be.Recommendation.{
  Card, Candidate, Index, candidate_is, unique, ids_of, ranked, gather, of_approved, hydrate,
  cards_in, card_sellers, card_is, of_seller, add_card, pick, recommend,
}

module _ {A : Type 0} (p : A → Bool) where
  count-append : (xs ys : List A) → count p (xs ++ ys) ≡ count p xs + count p ys
  unfolding count
  count-append [] ys = omega arith
  count-append (x ∷ xs) ys = ground (arith, count-append xs ys)

  count-reverse : (xs : List A) → count p (reverse xs) ≡ count p xs
  unfolding count reverse
  count-reverse [] = refl
  count-reverse (x ∷ xs) = ground (arith, count-append (reverse xs) (x ∷ []), count-reverse xs)

  count-take : (n : ℕ) (xs : List A) → count p (take n xs) ≤ count p xs
  unfolding count take
  count-take n [] = omega arith
  count-take zero (x ∷ xs) = omega arith
  count-take (suc n) (x ∷ xs) = ground (arith, count-take n xs)

  module _ (before : A → A → Bool) where
    count-insert_by : (x : A) (xs : List A) → count p (insert_by before x xs) ≡ count p (x ∷ xs)
    unfolding count insert_by
    count-insert_by x [] = refl
    count-insert_by x (y ∷ ys) = ground (arith, count-insert_by x ys)

    count-sort_by : (xs : List A) → count p (sort_by before xs) ≡ count p xs
    unfolding count sort_by
    count-sort_by [] = refl
    count-sort_by (x ∷ xs) = ground (arith, count-insert_by x (sort_by before xs), count-sort_by xs)

count-ids_of :
    (id : Uuid) (cs : List Candidate)
    → count (λ j. j == id) (ids_of cs) ≡ count (candidate_is id) cs
unfolding count
count-ids_of id [] = refl
count-ids_of id (c ∷ cs) = ground (arith, count-ids_of id cs)

-- How often an identifier may stand in the list: not at all, or once.
abbrev pub allowed : Uuid → Uuid → ℕ
allowed exclude id = if id == exclude || id == 0 then 0 else 1

find-seen :
    (id : Uuid) (c : Candidate) (seen : List Candidate)
    → (c.id == id) ≡ true
    → is_some (find (candidate_is c.id) seen) ≡ is_some (find (candidate_is id) seen)
find-seen id c seen same =
    let p : c.id ≡ id = ground arith in ap (λ i. is_some (find (candidate_is i) seen)) p

unique-once :
    (exclude id : Uuid) (cs seen : List Candidate)
    → count (candidate_is id) (unique exclude seen cs)
      ≤ (if is_some (find (candidate_is id) seen) then 0 else allowed exclude id)
unfolding count unique find
unique-once exclude id [] seen = ground arith
unique-once exclude id (c ∷ cs) seen =
    let new = unique-once exclude id cs (c ∷ seen) in
    let old = unique-once exclude id cs seen in
    elim (Bool-cases (c.id == id)) [
      | inl same ↦
          let p : c.id ≡ id = ground arith in ground (arith, find-seen id c seen same, new, old, p)
      | inr other ↦ ground (arith, new, old, other)
    ]

ranked-once :
    (ix : Index) (exclude : Uuid) (interests : List Uuid) (cs : List Candidate) (id : Uuid)
    → count (λ j. j == id) (ranked ix exclude interests cs) ≤ allowed exclude id
unfolding ranked find
ranked-once ix exclude interests cs id =
    let order = ix.before interests (not (exclude == 0)) in
    let alone = unique exclude [] cs in
    let few = count-take (λ j. j == id) 100 (ids_of (sort_by order alone)) in
    let same =
      count-ids_of id (sort_by order alone) ∙ count-sort_by (candidate_is id) order alone in
    let once = unique-once exclude id cs [] in ground (arith, few, same, once)

pub record IsGood (limit : ℕ) (exclude : Uuid) (shops : List (Uuid × SellerInfo)) (ps : List Card)
    : Type 0 where
  pub few : length ps ≤ limit
  pub fair : (seller : Uuid) → count (of_seller seller) ps ≤ 2
  -- `exclude` and uuid.Nil not at all, any other product once.
  pub once : (id : Uuid) → count (card_is id) ps ≤ allowed exclude id
  pub approved : count (λ c. not (of_approved shops c)) ps ≡ 0

module _ (k : ℕ) (exclude : Uuid) (shops : List (Uuid × SellerInfo)) (cards : List Card) where
  -- The loop, before it has shown `k + 1` cards.
  record Picking (ids : List Uuid) (shown : List Card) : Type 0 where
    room : length shown ≤ k
    fair : (seller : Uuid) → count (of_seller seller) shown ≤ 2
    once : (id : Uuid) → count (card_is id) shown + count (λ j. j == id) ids ≤ allowed exclude id
    approved : count (λ c. not (of_approved shops c)) shown ≡ 0

  skipped :
      (id : Uuid) (ids : List Uuid) (shown : List Card)
      → Picking (id ∷ ids) shown
      → Picking ids shown
  unfolding count
  skipped id ids shown p = record {
    room = p.room;
    fair = p.fair;
    once = λ j. let before = p.once j in ground (arith, before);
    approved = p.approved;
  }

  added :
      (id : Uuid) (ids : List Uuid) (c : Card) (shown : List Card)
      → Picking (id ∷ ids) shown
      → (c.id == id) ≡ true
      → of_approved shops c ≡ true
      → ltb (count (of_seller c.seller_id) shown) 2 ≡ true
      → IsGood (suc k) exclude shops (add_card shown c)
        × ((j : Uuid)
            → count (card_is j) (add_card shown c) + count (λ i. i == j) ids ≤ allowed exclude j)
  unfolding count
  added id ids c shown p same good rare =
      let here : c.id ≡ id = ground arith in
      let total : (j : Uuid)
          → count (card_is j) (add_card shown c) + count (λ i. i == j) ids ≤ allowed exclude j =
        λ j.
          let before = p.once j in
          ground (arith, before, here, count-append (card_is j) shown (c ∷ [])) in
      (
        record {
          few = let room = p.room in ground (arith, length-append shown (c ∷ []));
          fair = λ s. elim (Bool-cases (c.seller_id == s)) [
            | inl his ↦
                let q : s ≡ c.seller_id = ground arith in
                let two = count-append (of_seller c.seller_id) shown (c ∷ []) in
                rw q (ground (arith, two, rare))
            | inr other ↦
                let before = p.fair s in
                ground (arith, before, other, count-append (of_seller s) shown (c ∷ []))
          ];
          once = λ j. let all = total j in omega (arith, all);
          approved = ground (
            arith,
            p.approved,
            good,
            count-append (λ d. not (of_approved shops d)) shown (c ∷ []),
          );
        },
        total,
      )

  finished :
      (ids : List Uuid) (shown : List Card) → Picking ids shown → IsGood (suc k) exclude shops shown
  finished ids shown p = record {
    few = let room = p.room in omega (arith, room);
    fair = p.fair;
    once = λ j. let before = p.once j in omega (arith, before);
    approved = p.approved;
  }

  pick-IsGood :
      count (λ c. not (of_approved shops c)) cards ≡ 0
      → (ids : List Uuid) (shown : List Card) → Picking ids shown
      → IsGood (suc k) exclude shops (pick (pos (suc k)) cards ids shown)
  unfolding pick
  pick-IsGood all [] shown p = finished [] shown p
  pick-IsGood all (id ∷ ids) shown p =
      let rest = pick-IsGood all ids shown (skipped id ids shown p) in
      elim (Option-cases (find (card_is id) (reverse cards))) [
        | inl lost ↦ rw (lost, pick) rest
        | inr (c, found) ↦ elim (Bool-cases (ltb (count (of_seller c.seller_id) shown) 2)) [
          | inr often ↦ rw (found, pick) (rw often rest)
          | inl rare ↦
              let same = find_holds (card_is id) (reverse cards) c found in
              let bad = λ (d : Card). not (of_approved shops d) in
              let none_bad = count-reverse bad cards ∙ all in
              let good : of_approved shops c ≡ true =
                ground (arith, count-zero bad (card_is id) (reverse cards) c none_bad found) in
              let (shows, total) = added id ids c shown p same good rare in
              elim (Bool-cases (pos (length (add_card shown c)) ==ℤ pos (suc k))) [
                | inl full ↦ rw (found, pick) (rw rare (rw full shows))
                | inr space ↦
                    let later = pick-IsGood all ids (add_card shown c) (record {
                      room = let few = shows.few in ground (arith, few, space);
                      fair = shows.fair;
                      once = total;
                      approved = shows.approved;
                    }) in
                    rw (found, pick) (rw rare (rw space later))
              ]
        ]
      ]

count-select : (p : Card → Bool) (cs : List Card) → count (λ c. not (p c)) (select p cs) ≡ 0
unfolding count select
count-select p [] = refl
count-select p (c ∷ cs) = ground (arith, count-select p cs)

-- The statuses of the shops are what the directory said, or none were needed.
abbrev pub Told : Directory → List (Uuid × SellerInfo) → Type 0
Told d shops = (shops ≡ []) ⊎ ((sellers : List Uuid) × (d.batch_info sellers ≡ ok shops))

rows_or : (cs : List Card) → (cs ≡ []) ⊎ ((c : Card) × (rest : List Card) × (cs ≡ c ∷ rest))
rows_or [] = inl refl
rows_or (c ∷ rest) = inr (c, rest, refl)

hydrate_ok :
    (d : Directory) (db : Db) (ids : List Uuid) (shops : List (Uuid × SellerInfo))
    (cards : List Card)
    → hydrate d db ids ≡ some (shops, cards)
    → Told d shops × (count (λ c. not (of_approved shops c)) cards ≡ 0)
unfolding hydrate count
hydrate_ok d db ids shops cards h =
    let rows = cards_in ids db.variants db.products in
    elim (rows_or rows) [
      | inl nothing ↦ (
        inl (ground (arith, h, nothing)),
        let r : cards ≡ [] = ground (arith, h, nothing) in rw r refl,
      )
      | inr (c, cs, some_rows) ↦ elim (Result-cases (d.batch_info (card_sellers [] (c ∷ cs)))) [
        | inl (e, down) ↦
            (inl (ground (arith, h, some_rows, down)), ground (arith, h, some_rows, down))
        | inr (told, said) ↦
            let q : shops ≡ told = ground (arith, h, some_rows, said) in
            let r : cards ≡ select (of_approved told) (c ∷ cs) =
              ground (arith, h, some_rows, said) in
            (
              inr (card_sellers [] (c ∷ cs), said ∙ ap ok (sym q)),
              rw q (rw r (count-select (of_approved told) (c ∷ cs))),
            )
      ]
    ]

empty-IsGood :
    (limit : ℕ) (exclude : Uuid) (shops : List (Uuid × SellerInfo)) → IsGood limit exclude shops []
unfolding count
empty-IsGood limit exclude shops = record {
  few = omega arith;
  fair = λ s. omega arith;
  once = λ j. omega arith;
  approved = refl;
}

-- With a limit of at least 1, a page of recommendations has at most so many cards, at most two of
-- one seller, no product twice, not the product that the page is about, and only shops whose status
-- the directory gave as approved.
pub recommend-IsGood :
    (d : Directory) (ix : Index) (db : Db) (user exclude : Uuid) (interests : List Uuid) (k : ℕ)
    → (shops : List (Uuid × SellerInfo)) × Told d shops
      × IsGood (suc k) exclude shops (recommend d ix db user exclude interests (pos (suc k)))
unfolding recommend count
recommend-IsGood d ix db user exclude interests k =
    let found = gather ix user exclude interests (pos (suc k)) in
    let ids = ranked ix exclude interests found in
    elim (Option-cases (hydrate d db ids)) [
      | inl down ↦ ([], inl refl, rw (down, recommend) (empty-IsGood (suc k) exclude []))
      | inr ((shops, cards), there) ↦
          let (told, all) = hydrate_ok d db ids shops cards there in
          let start : Picking k exclude shops cards ids [] = record {
            room = omega arith;
            fair = λ s. omega arith;
            once =
                λ j. let alone = ranked-once ix exclude interests found j in omega (arith, alone);
            approved = refl;
          } in
          (shops, told, rw (there, recommend) (pick-IsGood k exclude shops cards all ids [] start))
    ]
