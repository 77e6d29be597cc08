-- ===== src/RingBuffer.antt =====
-- src/media/ring_buffer.h: the class template RingBuffer. Its positions are never negative and are
-- numbers; `_numDatas` is an integer, since `pop_front` decrements it with no test. A failed
-- `assert` is `none`.
pub mod Refines
use rtsp_server.Base.Int.{ℤ, pos, increment, decrement, lt_nat, eq_nat, above_zero}
use rtsp_server.Base.{
  ℕ, suc, ◌+◌, ◌-◌, Bool, List, Option, none, some, ◌==◌, ltb, if◌then◌else◌, set, get_elem?,
  replicate,
}

pub record RingBuffer {ℓ} (T : Type ℓ) : Type ℓ where
  pub buffer : List T
  pub num_datas : ℤ
  pub capacity : ℕ
  pub put_pos : ℕ
  pub get_pos : ℕ

-- `add`, which steps a position.
unfoldable pub add : ℕ → ℕ → ℕ
add capacity p = if p + 1 == capacity then 0 else p + 1

module _ {ℓ} {T : Type ℓ} where
  -- The constructor; `default` is what the vector's elements are constructed as.
  pub init : T → ℕ → RingBuffer T
  init default capacity = record {
    buffer = replicate capacity default;
    num_datas = pos 0;
    capacity = capacity;
    put_pos = 0;
    get_pos = 0;
  }

  -- `pushData`, to which both `push_back` pass their argument on.
  pub push_back : RingBuffer T → T → Option (RingBuffer T)
  push_back r v =
      if lt_nat r.num_datas r.capacity
      then some (record r {
        buffer = set r.buffer r.put_pos v;
        put_pos = add r.capacity r.put_pos;
        num_datas = increment r.num_datas;
      })
      else none

  pub pop_front : RingBuffer T → RingBuffer T
  pop_front r = record r { get_pos = add r.capacity r.get_pos; num_datas = decrement r.num_datas }

  pub front : RingBuffer T → Option T
  front r = if above_zero r.num_datas then get_elem? r.buffer r.get_pos else none

  pub full : RingBuffer T → Bool
  full r = eq_nat r.num_datas r.capacity

  pub empty : RingBuffer T → Bool
  empty r = eq_nat r.num_datas 0

  pub size : RingBuffer T → ℤ
  size r = r.num_datas
