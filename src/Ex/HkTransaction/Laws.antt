-- ===== src/Ex/HkTransaction/Laws.antt =====
-- What the pages of Hong Kong transactions add up to.
use eltdx.Base.{
  ℕ, zero, suc, ◌+◌, ◌-◌, ◌*◌, ◌<◌, ◌≤◌, ◌≡◌, refl, ap, sym, ◌∙◌, min, false, List, [], ◌∷◌, ◌++◌,
  length, length-take, take, drop, drop-add, take-add, take_all, Option, Result, ok, err, ◌>>=◌,
  ltb, lt→ltb, le→ltb, ltb→le, ltb→lt, ◌==◌, arith, append-nil, Bool-cases, inl, inr,
}
use eltdx.Ex.HkTransaction.{
  Command, build_cmd, page_size, map_records, extend, fetch_loop, fetch_all_loop,
  fetch_hk_transactions, fetch_all_hk_transactions,
}

>>=-ok {ℓ} : {A : Type ℓ} (m : Result A) → (m >>= (λ a. ok a)) ≡ m
>>=-ok (ok a) = refl
>>=-ok (err e) = refl

module _ {Rec Row : Type 0} (map_record : Rec → Result Row) where
  map_records-append :
      (xs ys : List Rec)
      → map_records map_record (xs ++ ys) ≡ (
          map_records map_record xs
          >>= (λ rows. map_records map_record ys >>= (λ more. ok (rows ++ more))))
  map_records-append [] ys = sym (>>=-ok (map_records map_record ys))
  map_records-append (x ∷ xs) ys =
      rw (map_records-append xs ys)
        (regroup (map_record x) (map_records map_record xs) (map_records map_record ys))
    where
      regroup :
          (a : Result Row) (b c : Result (List Row))
          → (a >>= (λ row.
              (b >>= (λ rows. c >>= (λ more. ok (rows ++ more)))) >>= (λ rows. ok (row ∷ rows))))
            ≡ ((a >>= (λ row. b >>= (λ rows. ok (row ∷ rows))))
                >>= (λ rows. c >>= (λ more. ok (rows ++ more))))
      regroup (err e) b c = refl
      regroup (ok row) (err e) c = refl
      regroup (ok row) (ok rows) (err e) = refl
      regroup (ok row) (ok rows) (ok more) = refl

  extend-short :
      (size : ℕ) (xs : List Rec) (rest : Result (List Row))
      → length xs < size
      → extend map_record xs size rest ≡ map_records map_record xs
  extend-short size [] rest h = refl
  extend-short size (x ∷ xs) rest h =
      rw (nonempty, lt→ltb _ _ h) (join-nil (map_records map_record (x ∷ xs)))
    where
      nonempty : (length (x ∷ xs) == 0) ≡ false
      nonempty = ground arith

      join-nil : (m : Result (List Row)) → (m >>= (λ rows. ok (rows ++ []))) ≡ m
      join-nil (ok rows) = ap ok (append-nil rows)
      join-nil (err e) = refl

  -- A batch is the whole, unless it is full and has a record.
  extend-take :
      (size m : ℕ) (xs : List Rec) (rest : Result (List Row))
      → 0 < size
      → (size ≤ length xs → rest ≡ map_records map_record (take m (drop size xs)))
      → extend map_record (take size xs) size rest ≡ map_records map_record (take (size + m) xs)
  extend-take size m xs rest pos h = elim (Bool-cases (ltb (length xs) size)) [
    | inl short ↦
        let few = ltb→lt (length xs) size short in
        rw (take_all size xs (omega (arith, few)), take_all (size + m) xs (omega (arith, few)))
          (extend-short size xs rest few)
    | inr full ↦
        let many = ltb→le (length xs) size full in
        let count : length (take size xs) ≡ size = omega (arith, length-take size xs, many) in
        let nonempty : (size == 0) ≡ false = ground (arith, pos) in
        rw (count, nonempty, le→ltb size size (omega arith), h many, take-add size m xs)
          (sym (map_records-append (take size xs) (take m (drop size xs))))
  ]

  module _ (execute : Command → Result (List Rec)) (ymd : Option ℕ) (all : List Rec)
      (serves : (offset size : ℕ)
        → size ≤ page_size
        → execute (build_cmd ymd offset size) ≡ ok (take size (drop offset all))) where
    -- The rest of the pages, behind a full one.
    next_page :
        (rest : ℕ → Result (List Row)) (size m offset : ℕ)
        → rest size ≡ map_records map_record (take m (drop (offset + size) all))
        → size ≤ length (drop offset all)
        → rest (length (take size (drop offset all)))
          ≡ map_records map_record (take m (drop size (drop offset all)))
    next_page rest size m offset ih full = rw (full_page, drop-add offset size all) ih
      where
        full_page : length (take size (drop offset all)) ≡ size
        full_page = omega (arith, length-take size (drop offset all), full)

    fetch_loop-take :
        (fuel count fetched offset : ℕ)
        → count - fetched < fuel
        → fetch_loop map_record execute ymd fuel count fetched offset
          ≡ map_records map_record (take (count - fetched) (drop offset all))
    unfolding fetch_loop
    fetch_loop-take zero count fetched offset h = absurd (omega (arith, h))
    fetch_loop-take (suc fuel) count fetched offset h = elim (Bool-cases (ltb fetched count)) [
      | inl more ↦
          let left = ltb→lt fetched count more in
          let size : ℕ = min (count - fetched) 1800 in
          let m : ℕ = count - (fetched + size) in
          let sum : size + m ≡ count - fetched = omega (arith, left) in
          rw (more, serves offset size (omega arith))
            (extend-take size m (drop offset all) _ (omega (arith, left)) (
                next_page
                  (λ n. fetch_loop map_record execute ymd fuel count (fetched + n) (offset + n))
                  size m offset
                  (fetch_loop-take fuel count (fetched + size) (offset + size)
                    (omega (arith, left, h))))
              ∙ ap (λ k. map_records map_record (take k (drop offset all))) sum)
      | inr done ↦
          let none_left : count - fetched ≡ 0 = omega (arith, ltb→le fetched count done) in
          rw (done, none_left) refl
    ]

    fetch_all_loop-take :
        (pages offset : ℕ)
        → fetch_all_loop map_record execute ymd pages offset
          ≡ map_records map_record (take (pages * page_size) (drop offset all))
    unfolding fetch_all_loop
    fetch_all_loop-take zero offset = refl
    fetch_all_loop-take (suc pages) offset = rw (serves offset page_size (omega arith)) (
        extend-take page_size (pages * page_size) (drop offset all) _ (omega arith) (
          next_page (λ n. fetch_all_loop map_record execute ymd pages (offset + n)) page_size
            (pages * page_size) offset (fetch_all_loop-take pages (offset + page_size)))
        ∙ ap (λ k. map_records map_record (take k (drop offset all))) (suc_mul pages))
      where
        suc_mul : (n : ℕ) → page_size + n * page_size ≡ suc n * page_size
        suc_mul n = omega arith

    -- Of a server that answers with the records behind an offset, as many as a page holds, the
    -- pages of `count` records are those `count` records, whatever the number is, and the loop
    -- ends. A record with no valid time fails the whole call.
    pub fetch_hk_transactions_records :
        (start count : ℕ)
        → fetch_hk_transactions map_record execute ymd start count
          ≡ map_records map_record (take count (drop start all))
    unfolding fetch_hk_transactions
    fetch_hk_transactions_records start count =
        fetch_loop-take (suc count) count 0 start (omega arith)
        ∙ ap (λ k. map_records map_record (take k (drop start all))) (omega arith)

    -- All pages are the records behind the start, up to 90000 of them: the rest is left out
    -- without an error.
    pub fetch_all_hk_transactions_records :
        (start : ℕ)
        → fetch_all_hk_transactions map_record execute ymd start
          ≡ map_records map_record (take 90000 (drop start all))
    unfolding fetch_all_hk_transactions
    fetch_all_hk_transactions_records start = fetch_all_loop-take 50 start
