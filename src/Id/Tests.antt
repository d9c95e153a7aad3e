-- ===== src/Id/Tests.antt =====
-- Identifiers of src/util.c on concrete bytes.
use tangent.Base.{◌+◌, ◌%◌, ◌^◌, ◌≡◌, refl, true, ltb, arith}
use tangent.Id.{IsId, id_equals, id_is_between, id_add, chord_id_successor, memcmp, is_less}
use tangent.Id.Value.{circle, value}
use tangent.Id.Arith.{value-id_add}
use tangent.Id.Step.{value-chord_id_successor}
use tangent.Id.Between.{rank, id_is_between-rank}
use tangent.Samples.{byte_id, byte_id-IsId}

id_is_between-rank_example :
    id_is_between (byte_id 5) (byte_id 200) (byte_id 10)
    ≡ ltb (rank (byte_id 200) (byte_id 5)) (rank (byte_id 200) (byte_id 10))
id_is_between-rank_example =
    id_is_between-rank (byte_id 5) (byte_id 200) (byte_id 10) (byte_id-IsId 5 (omega arith))
      (byte_id-IsId 200 (omega arith)) (byte_id-IsId 10 (omega arith))

-- Past the top of the circle, and not before it.
wraps : id_is_between (byte_id 5) (byte_id 200) (byte_id 10) ≡ true
unfolding id_is_between id_equals memcmp is_less
wraps = refl

value-id_add_example :
    IsId (id_add (byte_id 200) (byte_id 100))
    × (value (id_add (byte_id 200) (byte_id 100))
        ≡ (value (byte_id 200) + value (byte_id 100)) % circle)
value-id_add_example =
    value-id_add (byte_id 200) (byte_id 100) (byte_id-IsId 200 (omega arith))
      (byte_id-IsId 100 (omega arith))

value-chord_id_successor_example :
    IsId (chord_id_successor (byte_id 255) 157)
    × (value (chord_id_successor (byte_id 255) 157) ≡ (value (byte_id 255) + 2 ^ 157) % circle)
value-chord_id_successor_example =
    value-chord_id_successor (byte_id 255) 157 (byte_id-IsId 255 (omega arith)) (omega arith)
