-- ===== src/H264File/Meaning.antt =====
-- src/h264_file.cc: the tests of readFrame say of a place what the bytes there say.
use rtsp_server.Base.{
  ℕ, zero, suc, Bytes, Bool, true, false, Option, some, [], ◌∷◌, ◌+◌, ◌%◌, ◌≤◌, ◌<◌, ◌≡◌, refl, ap,
  sym, ◌∙◌, arith, ◌==◌, leb, ◌&&◌, ◌||◌, if◌then◌else◌, length, length-drop, drop, get_elem?,
  all_below, all_below_sound, All, Bool-cases, inl, inr,
}
use rtsp_server.H264File.{
  and_also, holds_at, has_code_3, has_code_4, start_code, is_slice, is_header, is_first,
  starts_frame, ends_frame, hit_at,
}
use rtsp_server.H264File.Shapes.{
  behind_code, behind_code_lem, is_first_slice, is_parameter, on_some, ends_at, starts, ends,
}

-- The masks on bytes.
same : Bool → Bool → Bool
same true b = b
same false true = false
same false false = true

same_eq : (a b : Bool) → same a b ≡ true → a ≡ b
unfolding same
same_eq true b h = sym h
same_eq false true h = cc
same_eq false false h = refl

mask_table : ℕ → Bool
mask_table b =
    same (is_slice b) (b % 32 == 1 || b % 32 == 5)
    && (same (is_header b) (b % 32 == 6 || (b % 32 == 7 || b % 32 == 8))
        && same (is_first b) (leb 128 b))

mask_all : all_below 256 mask_table ≡ true
unfolding all_below mask_table same
mask_all = refl

and_true : (a b : Bool) → a && b ≡ true → (a ≡ true) × (b ≡ true)
and_true true b h = (refl, h)
and_true false b h = cc

masks :
    (b : ℕ)
    → b < 256
    → (is_slice b ≡ (b % 32 == 1 || b % 32 == 5))
      × (is_header b ≡ (b % 32 == 6 || (b % 32 == 7 || b % 32 == 8)))
      × (is_first b ≡ leb 128 b)
unfolding mask_table
masks b small =
    let (slice, rest) = and_true _ _ (all_below_sound 256 mask_table b mask_all small) in
    let (header, first) = and_true _ _ rest in
    (same_eq _ _ slice, same_eq _ _ header, same_eq _ _ first)

and_also-some : (x y : Bool) → and_also (some x) (some y) ≡ some (x && y)
and_also-some true y = refl
and_also-some false y = refl

pub get_elem?-drop : (k j : ℕ) (xs : Bytes) → get_elem? xs (k + j) ≡ get_elem? (drop k xs) j
get_elem?-drop zero j xs = ap (get_elem? xs) (let e : 0 + j ≡ j = omega arith in e)
get_elem?-drop (suc k) j [] = refl
get_elem?-drop (suc k) j (x ∷ xs) =
    ap (get_elem? (x ∷ xs)) (let e : suc k + j ≡ suc (k + j) = omega arith in e)
    ∙ get_elem?-drop k j xs

-- Six bytes in a buffer, one behind the other.
record HasSix (buf : Bytes) (k a b c d e g : ℕ) : Type 0 where
  at_0 : get_elem? buf k ≡ some a
  at_1 : get_elem? buf (k + 1) ≡ some b
  at_2 : get_elem? buf (k + 2) ≡ some c
  at_3 : get_elem? buf (k + 3) ≡ some d
  at_4 : get_elem? buf (k + 3 + 1) ≡ some e
  at_4' : get_elem? buf (k + 4) ≡ some e
  at_5 : get_elem? buf (k + 4 + 1) ≡ some g

HasSix-drop :
    (buf s : Bytes) (k a b c d e g : ℕ)
    → drop k buf ≡ a ∷ b ∷ c ∷ d ∷ e ∷ g ∷ s
    → HasSix buf k a b c d e g
HasSix-drop buf s k a b c d e g is = record {
  at_0 =
      ap (get_elem? buf) (let q : k ≡ k + 0 = omega arith in q)
      ∙ get_elem?-drop k 0 buf
      ∙ ap (λ l. get_elem? l 0) is;
  at_1 = get_elem?-drop k 1 buf ∙ ap (λ l. get_elem? l 1) is;
  at_2 = get_elem?-drop k 2 buf ∙ ap (λ l. get_elem? l 2) is;
  at_3 = get_elem?-drop k 3 buf ∙ ap (λ l. get_elem? l 3) is;
  at_4 =
      ap (get_elem? buf) (let q : k + 3 + 1 ≡ k + 4 = omega arith in q)
      ∙ get_elem?-drop k 4 buf
      ∙ ap (λ l. get_elem? l 4) is;
  at_4' = get_elem?-drop k 4 buf ∙ ap (λ l. get_elem? l 4) is;
  at_5 =
      ap (get_elem? buf) (let q : k + 4 + 1 ≡ k + 5 = omega arith in q)
      ∙ get_elem?-drop k 5 buf
      ∙ ap (λ l. get_elem? l 5) is;
}

module _ (buf : Bytes) (k a b c d e g : ℕ) (six : HasSix buf k a b c d e g) where
  abbrev three : Bool
  three = a == 0 && (b == 0 && c == 1)

  abbrev four : Bool
  four = a == 0 && (b == 0 && (c == 0 && d == 1))

  code_3_lem : has_code_3 buf k ≡ some three
  unfolding has_code_3 holds_at
  code_3_lem =
      rw (six.at_0, six.at_1, six.at_2)
        (ap (and_also (some (a == 0))) (and_also-some (b == 0) (c == 1))
          ∙ and_also-some (a == 0) (b == 0 && c == 1))

  code_4_lem : has_code_4 buf k ≡ some four
  unfolding has_code_4 holds_at
  code_4_lem =
      rw (six.at_0, six.at_1, six.at_2, six.at_3)
        (ap (λ x. and_also (some (a == 0)) (and_also (some (b == 0)) x))
            (and_also-some (c == 0) (d == 1))
          ∙ ap (and_also (some (a == 0))) (and_also-some (b == 0) (c == 0 && d == 1))
          ∙ and_also-some (a == 0) (b == 0 && (c == 0 && d == 1)))

  hit_lem :
      (test : Bytes → ℕ → ℕ → Option Bool) (at_3 at_4 : Bool)
      → test buf k 3 ≡ some at_3
      → test buf k 4 ≡ some at_4
      → hit_at test buf k ≡ some (if three then at_3 else if four then at_4 else false)
  unfolding hit_at start_code
  hit_lem test x y e3 e4 = elim (Bool-cases three) [
    | inl is_3 ↦ rw (code_3_lem, is_3, e3) refl
    | inr not_3 ↦ elim (Bool-cases four) [
      | inl is_4 ↦ rw (code_3_lem, not_3, code_4_lem, is_4, e4) refl
      | inr not_4 ↦ rw (code_3_lem, not_3, code_4_lem, not_4) refl
    ]
  ]

starts_frame_lem :
    (buf : Bytes) (i code d e : ℕ)
    → get_elem? buf (i + code) ≡ some d
    → get_elem? buf (i + code + 1) ≡ some e
    → starts_frame buf i code ≡ some (is_slice d && is_first e)
unfolding starts_frame holds_at
starts_frame_lem buf i code d e h k = rw (h, k) (and_also-some (is_slice d) (is_first e))

ends_frame_lem :
    (buf : Bytes) (i code d e : ℕ)
    → get_elem? buf (i + code) ≡ some d
    → get_elem? buf (i + code + 1) ≡ some e
    → ends_frame buf i code ≡ some (is_header d || is_slice d && is_first e)
unfolding ends_frame holds_at
ends_frame_lem buf i code d e h k = elim (Bool-cases (is_header d)) [
  | inl header ↦ rw (h, header) refl
  | inr other ↦ rw (h, other, k) (and_also-some (is_slice d) (is_first e))
]

first_slice_lem :
    (d e : ℕ) (s : Bytes)
    → d < 256
    → e < 256
    → is_first_slice (d ∷ e ∷ s) ≡ (is_slice d && is_first e)
unfolding is_first_slice
first_slice_lem d e s small small' =
    let (slice, _, _) = masks d small in
    let (_, _, first) = masks e small' in rw (slice, first) refl

ends_at_lem :
    (d e : ℕ) (s : Bytes)
    → d < 256
    → e < 256
    → ends_at (d ∷ e ∷ s) ≡ (is_header d || is_slice d && is_first e)
unfolding is_parameter
ends_at_lem d e s small small' =
    let (_, header, _) = masks d small in rw (header, first_slice_lem d e s small small') refl

-- The test of a loop at a place, six bytes in front of the end of the buffer, is what the bytes say.
Says : (Bytes → ℕ → ℕ → Option Bool) → (Bytes → Bool) → Type 0
Says test is =
    (buf : Bytes) (i code d e : ℕ) (s : Bytes)
    → get_elem? buf (i + code) ≡ some d
    → get_elem? buf (i + code + 1) ≡ some e
    → d < 256
    → e < 256
    → test buf i code ≡ some (is (d ∷ e ∷ s))

starts_frame-Says : Says starts_frame is_first_slice
unfolding Says
starts_frame-Says buf i code d e s h k small small' =
    starts_frame_lem buf i code d e h k ∙ ap some (sym (first_slice_lem d e s small small'))

ends_frame-Says : Says ends_frame ends_at
unfolding Says
ends_frame-Says buf i code d e s h k small small' =
    ends_frame_lem buf i code d e h k ∙ ap some (sym (ends_at_lem d e s small small'))

module _ (test : Bytes → ℕ → ℕ → Option Bool) (is : Bytes → Bool) (says : Says test is) where
  hit_six :
      (buf s : Bytes) (k a b c d e g : ℕ)
      → drop k buf ≡ a ∷ b ∷ c ∷ d ∷ e ∷ g ∷ s
      → d < 256
      → e < 256
      → g < 256
      → hit_at test buf k ≡ some (on_some is (behind_code (a ∷ b ∷ c ∷ d ∷ e ∷ g ∷ s)))
  unfolding Says
  hit_six buf s k a b c d e g here small_d small_e small_g =
      let six = HasSix-drop buf s k a b c d e g here in
      hit_lem buf k a b c d e g six test (is (d ∷ e ∷ g ∷ s)) (is (e ∷ g ∷ s))
        (says buf k 3 d e (g ∷ s) six.at_3 six.at_4 small_d small_e)
        (says buf k 4 e g s six.at_4' six.at_5 small_e small_g)
      ∙ rw (behind_code_lem a b c d e g s) (elim (Bool-cases (a == 0 && (b == 0 && c == 1))) [
        | inl is_3 ↦ rw is_3 refl
        | inr not_3 ↦ rw not_3 (elim (Bool-cases (a == 0 && (b == 0 && (c == 0 && d == 1)))) [
          | inl is_4 ↦ rw is_4 refl
          | inr not_4 ↦ rw not_4 refl
        ])
      ])

  hit_drop :
      (buf s : Bytes) (k : ℕ)
      → drop k buf ≡ s
      → 6 ≤ length s
      → All (λ b. b < 256) s
      → hit_at test buf k ≡ some (on_some is (behind_code s))
  hit_drop buf (a ∷ b ∷ c ∷ d ∷ e ∷ g ∷ s) k here long
        (_, (_, (_, (small_d, (small_e, (small_g, _)))))) =
      hit_six buf s k a b c d e g here small_d small_e small_g
  hit_drop buf _ k here long small = absurd (omega (arith, long))

pub All-drop {ℓ} : (P : ℕ → Type ℓ) (k : ℕ) (xs : Bytes) → All P xs → All P (drop k xs)
All-drop P zero xs h = h
All-drop P (suc k) [] h = h
All-drop P (suc k) (x ∷ xs) h = All-drop P k xs h.1

-- A test of readFrame says, at each place six bytes in front of the end of the buffer, what the bytes
-- there say.
abbrev pub Means : (Bytes → ℕ → ℕ → Option Bool) → (Bytes → Bool) → Type 0
Means test is =
    (buf : Bytes) (k : ℕ)
    → k + 6 ≤ length buf
    → All (λ b. b < 256) buf
    → hit_at test buf k ≡ some (is (drop k buf))

pub starts_frame-Means : Means starts_frame starts
unfolding starts
starts_frame-Means buf k inside small =
    hit_drop starts_frame is_first_slice starts_frame-Says buf (drop k buf) k refl
      (omega (arith, inside, length-drop k buf)) (All-drop (λ b. b < 256) k buf small)

pub ends_frame-Means : Means ends_frame ends
unfolding ends
ends_frame-Means buf k inside small =
    hit_drop ends_frame ends_at ends_frame-Says buf (drop k buf) k refl
      (omega (arith, inside, length-drop k buf)) (All-drop (λ b. b < 256) k buf small)
