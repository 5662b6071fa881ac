-- ===== src/Tests/Paging.antt =====
-- Runs of the theorems on responses and pages.
use eltdx.Base.{
  err, runtime_error, ℕ, ◌≡◌, refl, List, [], ◌∷◌, ◌++◌, take, drop, none, some, Result, ok, arith,
}
use eltdx.Wire.{Bytes, le_bytes}
use eltdx.Ex.HkTransaction.{Command, fetch_hk_transactions}
use eltdx.Ex.HkTransaction.Command.{today, history}
use eltdx.Ex.HkTransaction.Laws.{fetch_hk_transactions_records}
use eltdx.Api.Trades.{Page, all_ticks, all_batch, validate_page_size}
use eltdx.Api.Trades.Bulk.{all_batch-all_ticks}
use eltdx.Api.Trades.Laws.{served, whole_page, all_ticks_complete, all_ticks_too_many}

abbrev row : Bytes
row = 58 ∷ 2 ∷ 100 ∷ 0 ∷ 0 ∷ 0 ∷ 7 ∷ 0 ∷ 0 ∷ 0 ∷ 0 ∷ 0 ∷ 0 ∷ 0 ∷ 30 ∷ 0 ∷ []

abbrev response_head : Bytes
response_head = 31 ∷ 48 ∷ 48 ∷ 55 ∷ 48 ∷ 48 ∷ 0 ∷ 0 ∷ 0 ∷ 0 ∷ 0 ∷ 0 ∷ 0 ∷ 0 ∷ []

abbrev short_response : Bytes
short_response = response_head ++ (le_bytes 2 5 ++ (row ++ row))

-- A server of four records
abbrev four : List ℕ
four = 4 ∷ 3 ∷ 2 ∷ 1 ∷ []

abbrev serve : Command → Result (List ℕ)
serve (today offset size) = ok (take size (drop offset four))
serve (history ymd offset size) = ok (take size (drop offset four))

abbrev keep : ℕ → Result ℕ
keep n = ok n

fetch_hk_transactions_records_example : fetch_hk_transactions keep serve none 1 2 ≡ ok (3 ∷ 2 ∷ [])
fetch_hk_transactions_records_example =
    fetch_hk_transactions_records keep serve none four (λ offset size h. refl) 1 2

-- The pages of three ticks, oldest first
abbrev three : List ℕ
three = 1 ∷ 2 ∷ 3 ∷ []

abbrev pages : ℕ → ℕ → Result (Page ℕ ℕ)
pages start n = ok (served 600000 three start n)

two_valid : validate_page_size 2 ≡ ok tt
unfolding validate_page_size
two_valid = refl

all_ticks_complete_example : all_ticks pages 2 (some 3) 3 ≡ ok (whole_page 600000 three)
all_ticks_complete_example =
    all_ticks_complete 600000 three pages (λ start n. refl) 2 (some 3) two_valid 3 2 (omega arith)
      (omega arith) (omega arith)

all_batch-all_ticks_example : all_batch pages 2 none 5 ≡ all_ticks pages 2 none 5
all_batch-all_ticks_example = all_batch-all_ticks pages 2 none 5

all_ticks_too_many_example : all_ticks pages 2 (some 2) 2 ≡ err runtime_error
all_ticks_too_many_example =
    all_ticks_too_many 600000 three pages (λ start n. refl) 2 (some 2) two_valid 2 1 (omega arith)
      refl (omega arith)
