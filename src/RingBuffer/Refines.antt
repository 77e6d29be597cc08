-- ===== src/RingBuffer/Refines.antt =====
-- src/media/ring_buffer.h: a RingBuffer is a bounded queue.
use rtsp_server.Base.{
  ℕ, ◌+◌, ◌-◌, ◌≤◌, ◌<◌, ◌≡◌, refl, ap, List, [], ◌∷◌, ◌++◌, none, some, arith, length, get_elem?,
  set, length-set, get_elem?-set_self, get_elem?-set_ne, length-append, length-replicate, ltb,
  lt→ltb, ◌∙◌, ==_iff, ◌==◌, if◌then◌else◌, true,
}
use rtsp_server.Base.Int.{pos}
use rtsp_server.RingBuffer.{RingBuffer, init, add, push_back, pop_front, front, full, empty}

-- The position `n` steps behind `p`, for `n` below the capacity.
abbrev pub advance : ℕ → ℕ → ℕ → ℕ
advance capacity p n = if ltb (p + n) capacity then p + n else p + n - capacity

module _ {ℓ} {T : Type ℓ} where
  -- From position `p` on, `buffer` holds the items.
  abbrev pub Holds : List T → ℕ → ℕ → List T → Type ℓ
  Holds buffer capacity p [] = Unit
  Holds buffer capacity p (x ∷ xs) =
      (get_elem? buffer p ≡ some x) × Holds buffer capacity (add capacity p) xs

  -- The queue, oldest item first, that the buffer stands for.
  pub record Represents (r : RingBuffer T) (xs : List T) : Type ℓ where
    pub counted : r.num_datas ≡ pos (length xs)
    pub bounded : length xs ≤ r.capacity
    pub allocated : length r.buffer ≡ r.capacity
    pub get_inside : r.get_pos < r.capacity
    pub put_behind : r.put_pos ≡ advance r.capacity r.get_pos (length xs)
    pub holds : Holds r.buffer r.capacity r.get_pos xs

  pub init-Represents :
      (default : T) (capacity : ℕ) → 0 < capacity → Represents (init default capacity) []
  unfolding init
  init-Represents default capacity h = record {
    counted = refl;
    bounded = omega arith;
    allocated = length-replicate capacity default;
    get_inside = h;
    put_behind = ground arith;
    holds = tt;
  }

  -- A write just behind the items leaves them alone.
  Holds-set :
      (buffer : List T) (capacity p q : ℕ) (xs : List T) (v : T)
      → length buffer ≡ capacity
      → p < capacity
      → length xs < capacity
      → q ≡ advance capacity p (length xs)
      → Holds buffer capacity p xs
      → Holds (set buffer q v) capacity p (xs ++ v ∷ [])
  unfolding add
  Holds-set buffer capacity p q [] v len inside room at h =
      let e : q ≡ p = ground arith in (rw e (get_elem?-set_self buffer p v (omega arith)), tt)
  Holds-set buffer capacity p q (x ∷ xs) v len inside room at h = (
    get_elem?-set_ne buffer q p v (ground arith) ∙ h.0,
    Holds-set buffer capacity (add capacity p) q xs v len (ground arith) (omega arith)
        (ground arith) h.1,
  )

  -- On a buffer that is not full `push_back` succeeds and puts the item behind the others.
  pub push_back-Represents :
      (r : RingBuffer T) (xs : List T) (v : T)
      → Represents r xs
      → length xs < r.capacity
      → (r' : RingBuffer T) × (push_back r v ≡ some r') × Represents r' (xs ++ v ∷ [])
  unfolding push_back add
  push_back-Represents r xs v w room = (
    record {
      buffer = set r.buffer r.put_pos v;
      capacity = r.capacity;
      put_pos = add r.capacity r.put_pos;
      get_pos = r.get_pos;
      num_datas = pos (length xs + 1);
    },
    rw (w.counted, lt→ltb _ _ room),
    record {
      counted = ap pos (omega (arith, length-append xs (v ∷ [])));
      bounded = omega (arith, length-append xs (v ∷ []));
      allocated = length-set r.buffer r.put_pos v ∙ w.allocated;
      get_inside = w.get_inside;
      put_behind = ground (arith, w.put_behind, w.get_inside, length-append xs (v ∷ []));
      holds =
          Holds-set r.buffer r.capacity r.get_pos r.put_pos xs v w.allocated w.get_inside room
            w.put_behind w.holds;
    },
  )

  -- On a full buffer the assertion of `push_back` fails.
  pub push_back-full :
      (r : RingBuffer T) (xs : List T) (v : T)
      → Represents r xs
      → length xs ≡ r.capacity
      → (full r ≡ true) × (push_back r v ≡ none)
  unfolding push_back full
  push_back-full r xs v w h = (rw w.counted ((==_iff _ _).1 h), rw w.counted (ground arith))

  -- `front` reads the oldest item and `pop_front` takes it off, whatever the positions are.
  pub pop_front-Represents :
      (r : RingBuffer T) (x : T) (xs : List T)
      → Represents r (x ∷ xs)
      → (front r ≡ some x) × Represents (pop_front r) xs
  unfolding front pop_front add
  pop_front-Represents r x xs w = (
    rw w.counted (ground (arith, w.holds.0)),
    record {
      counted = rw w.counted (ground arith);
      bounded = omega (arith, w.bounded);
      allocated = w.allocated;
      get_inside = ground (arith, w.get_inside);
      put_behind = ground (arith, w.put_behind, w.get_inside, w.bounded);
      holds = w.holds.1;
    },
  )

  -- `empty` and `full` tell the number of items.
  pub empty_full_lem :
      (r : RingBuffer T) (xs : List T)
      → Represents r xs
      → (empty r ≡ (length xs == 0)) × (full r ≡ (length xs == r.capacity))
  unfolding empty full
  empty_full_lem r xs w = (rw w.counted, rw w.counted)
