-- ===== src/RleStream/Examples.antt =====
-- A run of the round trip of a creator and a stream.
use sserialize.Base.{ℕ, ◌≡◌, arith, List, [], ◌∷◌, some}
use sserialize.Storage.Adapter.{Adapter}
use sserialize.Storage.Stream.Read.{unread}
use sserialize.RleStream.{Creator, Stream, create, stream, put_all, read_values}
use sserialize.RleStream.RoundTrip.{IsClose, read_values-put_all}

abbrev empty : Adapter
empty = record { storage = []; off_set = 0; len = 0; get_ptr = 0; put_ptr = 0 }

-- A run of equal differences, a step down, and a step that is shorter as a full value.
abbrev values : List ℕ
values = 5 ∷ 7 ∷ 9 ∷ 8 ∷ 1000 ∷ []

values-IsClose : IsClose 0 values
values-IsClose = ground arith

read_values-put_all_example :
    (c : Creator) × (u : Stream) × (put_all (create empty) values ≡ some c)
    × (read_values 5 (stream (record c.dest { get_ptr = 0 })) ≡ some (values, u))
    × (unread u.d ≡ [])
read_values-put_all_example =
    read_values-put_all empty values (omega arith) values-IsClose (omega arith) (omega arith)
