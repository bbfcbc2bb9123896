-- ===== src/Tests/Buffers.antt =====
-- A buffer of three places on a writer that keeps all it is given.
use nanonet.Common.{refl, some, [], ◌∷◌, ◌++◌, Bytes, length, arith}
use nanonet.StreamBuf.{Writer, WritesAll, OutBuffer, put_all}
use nanonet.StreamBuf.Delivery.{PutResult, put_all-PutResult}

abbrev keeper : Writer
keeper = record {
  State = Bytes;
  write = λ s bytes. (s ++ bytes, some (length bytes));
  accepted = λ s. s;
}

keeper-WritesAll : WritesAll keeper
keeper-WritesAll = record { complete = λ s bytes n e. (cc e, refl) }

abbrev three_places : OutBuffer keeper
three_places = record { rw = some []; pending = 1 ∷ []; size = 3 }

put_all-PutResult_example :
    PutResult 3 (1 ∷ []) (2 ∷ 3 ∷ 4 ∷ []) (put_all (2 ∷ 3 ∷ 4 ∷ []) three_places)
put_all-PutResult_example =
    put_all-PutResult (2 ∷ 3 ∷ 4 ∷ []) three_places [] keeper-WritesAll refl (omega arith)
