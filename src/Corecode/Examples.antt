-- ===== src/Corecode/Examples.antt =====
-- Tests of corecode.
use recycle_bin.Prelude.{◌≡◌, [], ◌∷◌, arith, Returns}
use recycle_bin.Prelude.Int.{pos, signed32}
use recycle_bin.Corecode.Dump.{ant_itoa}
use recycle_bin.Corecode.Zero.{bytes_all, ant_iszero, isallc}
use recycle_bin.Corecode.Zero.Words.{isallc-bytes_all}
use recycle_bin.Corecode.Dump.Value.{IsDecimal, ant_itoa-IsDecimal}

ant_itoa-IsDecimal_example :
    Returns (IsDecimal (signed32 4294967295)) (ant_itoa (signed32 4294967295) 10)
ant_itoa-IsDecimal_example = ant_itoa-IsDecimal 4294967295 (omega arith)

isallc-bytes_all_example :
    (isallc (7 ∷ 7 ∷ 7 ∷ 7 ∷ 8 ∷ []) (pos 7) 5 ≡ bytes_all 7 5 (7 ∷ 7 ∷ 7 ∷ 7 ∷ 8 ∷ []))
    × (ant_iszero (7 ∷ 7 ∷ 7 ∷ 7 ∷ 8 ∷ []) 5 ≡ bytes_all 0 5 (7 ∷ 7 ∷ 7 ∷ 7 ∷ 8 ∷ []))
isallc-bytes_all_example =
    isallc-bytes_all 7 5 (7 ∷ 7 ∷ 7 ∷ 7 ∷ 8 ∷ []) (omega arith) (omega arith)
      (omega arith, (omega arith, (omega arith, (omega arith, (omega arith, tt))))) (omega arith)
