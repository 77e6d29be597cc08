-- ===== src/Tests/Ring.antt =====
-- src/media/ring_buffer.h on a buffer of capacity 2.
use rtsp_server.Base.{ℕ, ◌≡◌, refl, List, [], ◌∷◌, some, arith}
use rtsp_server.Base.Int.{pos}
use rtsp_server.RingBuffer.{RingBuffer, init, add, push_back, pop_front, front}
use rtsp_server.RingBuffer.Refines.{
  Represents, init-Represents, push_back-Represents, pop_front-Represents,
}

-- 7 alone, at the end of the buffer, so that the next item wraps round.
abbrev one_item : RingBuffer ℕ
one_item = record { buffer = 0 ∷ 7 ∷ []; num_datas = pos 1; capacity = 2; put_pos = 0; get_pos = 1 }

abbrev two_items : RingBuffer ℕ
two_items = record {
  buffer = 8 ∷ 7 ∷ [];
  num_datas = pos 2;
  capacity = 2;
  put_pos = 1;
  get_pos = 1;
}

one_item-Represents : Represents one_item (7 ∷ [])
one_item-Represents = record {
  counted = refl;
  bounded = omega arith;
  allocated = refl;
  get_inside = omega arith;
  put_behind = refl;
  holds = (refl, tt);
}

two_items-Represents : Represents two_items (7 ∷ 8 ∷ [])
unfolding add
two_items-Represents = record {
  counted = refl;
  bounded = omega arith;
  allocated = refl;
  get_inside = omega arith;
  put_behind = refl;
  holds = (refl, (refl, tt));
}

abbrev no_item : RingBuffer ℕ
no_item = init 0 2

init-Represents_example : Represents no_item []
init-Represents_example = init-Represents 0 2 (omega arith)

push_back-Represents_example :
    (r : RingBuffer ℕ) × (push_back one_item 8 ≡ some r) × Represents r (7 ∷ 8 ∷ [])
push_back-Represents_example =
    push_back-Represents one_item (7 ∷ []) 8 one_item-Represents (omega arith)

pop_front-Represents_example :
    (front two_items ≡ some 7) × Represents (pop_front two_items) (8 ∷ [])
pop_front-Represents_example = pop_front-Represents two_items 7 (8 ∷ []) two_items-Represents

abbrev items : List ℕ
items = 7 ∷ []
