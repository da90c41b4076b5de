-- ===== src/Checksum/Tests.antt =====
-- The theorem on `adlerChecksum` at the bytes of "otx".
use otxserver.Common.{ℕ, ◌*◌, ◌%◌, ◌^◌, ◌≡◌, List, [], ◌∷◌, arith}
use Prim.Native.Nat.{bit_or}
use otxserver.Checksum.{adler, adler_checksum}
use otxserver.Checksum.Sums.{sum_a, sum_b, adler_checksum_lem}

abbrev otx : List ℕ
otx = b'o' ∷ b't' ∷ b'x' ∷ []

adler_checksum_lem_example :
    adler_checksum otx ≡ bit_or (sum_b otx 1 0 % adler * 2 ^ 16) (sum_a otx 1 % adler)
adler_checksum_lem_example =
    adler_checksum_lem otx (omega arith, (omega arith, (omega arith, tt))) (omega arith)
      (omega arith)
