-- ===== src/Dispatcher/Tests.antt =====
-- A small dispatcher of src/dispatcher.c, whose packets are one byte of type and the payload, and
-- whose handlers add up what they get.
use tangent.Base.{ℕ, ◌≡◌, refl, none, some, [], ◌∷◌}
use tangent.Dispatcher.{RawHeader, Dispatcher, new_dispatcher, init_handler}
use tangent.Dispatcher.Packet.{run_handler}
use tangent.Samples.{peer, read_length, add_up}

abbrev empty : Dispatcher ℕ ℕ ℕ
empty = new_dispatcher 3

abbrev packet : RawHeader
packet = record { version = none; type = 2; payload = 5 ∷ 6 ∷ [] }

-- Two bytes of payload count.
sum :
    run_handler empty (init_handler "sum" 7 read_length add_up) packet (peer 20) 40
    ≡ some (1, some 0, 42)
unfolding run_handler new_dispatcher
sum = refl
