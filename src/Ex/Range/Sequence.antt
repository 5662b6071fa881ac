-- ===== src/Ex/Range/Sequence.antt =====
-- The sequence numbers of the requests for bars between two dates.
use eltdx.Base.{
  ℕ, zero, suc, ◌+◌, ◌%◌, ◌^◌, ◌<◌, ◌≡◌, refl, [], ◌∷◌, ◌++◌, get_elem?, some, ok, ltb, arith,
  Bool-cases, inl, inr, lt→ltb, ltb→lt, ltb→le, true,
}
use eltdx.Wire.{Bytes, le_bytes}
use eltdx.Wire.Records.{pack_row}
use eltdx.Ex.Transaction.{pack_text}
use eltdx.Ex.Range.{next_seqid, build_range, seqid_min, middle}

-- What the class holds after `n` requests of a process.
abbrev pub seqid_after : ℕ → ℕ
unfolding next_seqid
seqid_after zero = seqid_min
seqid_after (suc n) = (next_seqid (seqid_after n)).1

next_seqid-cycle : (n seqid : ℕ) → seqid ≡ n % 255 + 1 → (next_seqid seqid).1 ≡ suc n % 255 + 1
unfolding next_seqid
next_seqid-cycle n seqid h = elim (Bool-cases (ltb seqid 255)) [
  | inl below ↦ rw below (omega (arith, ltb→lt _ _ below, h))
  | inr above ↦ rw above (omega (arith, ltb→le _ _ above, h))
]

-- The numbers run from 1 to 255 and again from 1, for any number of requests.
pub seqid_after_cycle : (n : ℕ) → seqid_after n ≡ n % 255 + 1
unfolding next_seqid
seqid_after_cycle zero = omega arith
seqid_after_cycle (suc n) = next_seqid-cycle n (seqid_after n) (seqid_after_cycle n)

-- The bytes of a request whose fields fit.
abbrev range_bytes : ℕ → ℕ → Bytes → ℕ → ℕ → Bytes
range_bytes seqid market code start_date end_date =
    (0x01 ∷ [])
    ++ (le_bytes 1 seqid
        ++ (middle
            ++ (le_bytes 1 market
                ++ (pack_text 9 code
                    ++ ((0x07 ∷ 0x00 ∷ [])
                        ++ (le_bytes 4 start_date ++ (le_bytes 4 end_date ++ [])))))))

-- Every request of a process can be built, however many there were before it, and carries its
-- number in its second byte, where the market fits in a byte and the dates in four.
pub build_range_cycle :
    (n market : ℕ) (code : Bytes) (start_date end_date : ℕ)
    → market < 256
    → start_date < 2 ^ 32
    → end_date < 2 ^ 32
    → (request : Bytes) × ((build_range market code start_date end_date (seqid_after n)).0
        ≡ ok request)
      × (get_elem? request 1 ≡ some (n % 255 + 1))
unfolding build_range next_seqid pack_row
build_range_cycle n market code start_date end_date m s e =
    let cycle = seqid_after_cycle n in
    let fits : ltb (n % 255 + 1) 256 ≡ true = lt→ltb _ _ (omega arith) in
    let small : (n % 255 + 1) % 256 ≡ n % 255 + 1 = omega arith in
    (
      range_bytes (n % 255 + 1) market code start_date end_date,
      rw cycle (
          rw fits (
            rw (lt→ltb market 256 m)
              (rw (lt→ltb start_date (2 ^ 32) s) (rw (lt→ltb end_date (2 ^ 32) e) refl)))),
      rw small refl,
    )
