-- ===== src/MediaSession/Shares.antt =====
-- src/media/media_session.cc: what one connection gets of the packets that a session hands out.
use mathlib.Core.List.{reverse, reverse-cons}
use rtsp_server.Base.{
  ℕ, zero, suc, Bytes, Option, none, some, List, [], ◌∷◌, ◌++◌, ◌+◌, ◌-◌, ◌≡◌, refl, ap, sym, ◌∙◌,
  arith, ◌==◌, if◌then◌else◌, take, take-nil, drop, All, Bool-cases, Option-cases, inl, inr,
}
use rtsp_server.Media.{MediaChannelId, RtpPacket}
use rtsp_server.H264Source.Packets.{payload}
use rtsp_server.MediaSession.{is_empty}
use rtsp_server.MediaSession.Delivery.{IsCopy, live, targets}
use rtsp_server.MediaSession.Broadcast.{receivers}

-- The packets for a connection, in order.
unfoldable pub shares : ℕ → List (ℕ × MediaChannelId × RtpPacket) → List RtpPacket
shares conn [] = []
shares conn ((c, ch, p) ∷ sent) =
    let rest = shares conn sent in if c == conn then p ∷ rest else rest

-- How often a connection is in a list.
unfoldable pub count : ℕ → List ℕ → ℕ
count conn [] = 0
count conn (c ∷ cs) = let n = count conn cs in if c == conn then suc n else n

pub shares-append :
    (conn : ℕ) (xs ys : List (ℕ × MediaChannelId × RtpPacket))
    → shares conn (xs ++ ys) ≡ shares conn xs ++ shares conn ys
unfolding shares
shares-append conn [] ys = refl
shares-append conn ((c, ch, p) ∷ xs) ys = elim (Bool-cases (c == conn)) [
  | inl same ↦ rw same (ap (λ l. p ∷ l) (shares-append conn xs ys))
  | inr other ↦ rw other (shares-append conn xs ys)
]

count-append : (conn : ℕ) (xs ys : List ℕ) → count conn (xs ++ ys) ≡ count conn xs + count conn ys
unfolding count
count-append conn [] ys = omega arith
count-append conn (c ∷ xs) ys = ground (arith, count-append conn xs ys)

pub count-reverse : (conn : ℕ) (xs : List ℕ) → count conn (reverse xs) ≡ count conn xs
unfolding count
count-reverse conn [] = refl
count-reverse conn (c ∷ xs) =
    ap (count conn) (reverse-cons c xs)
    ∙ count-append conn (reverse xs) (c ∷ [])
    ∙ ground (arith, count-reverse conn xs)

-- A connection that is there once gets one copy.
no_shares :
    (conn : ℕ) (sent : List (ℕ × MediaChannelId × RtpPacket))
    → count conn (receivers sent) ≡ 0
    → shares conn sent ≡ []
unfolding shares count
no_shares conn [] h = refl
no_shares conn ((c, ch, p) ∷ sent) h = ground (arith, no_shares conn sent)

pub one_share :
    (channel : MediaChannelId) (pkt : RtpPacket) (conn : ℕ)
    (sent : List (ℕ × MediaChannelId × RtpPacket))
    → All (λ d. (d.1 ≡ channel) × IsCopy pkt d.2) sent
    → count conn (receivers sent) ≡ 1
    → (p : RtpPacket) × (shares conn sent ≡ p ∷ []) × IsCopy pkt p
unfolding shares count
one_share channel pkt conn [] copies h = absurd (omega (arith, h))
one_share channel pkt conn ((c, ch, p) ∷ sent) ((at, copy), copies) h =
    elim (Bool-cases (c == conn)) [
      | inl same ↦
          (p, rw same (ap (λ l. p ∷ l) (no_shares conn sent (ground (arith, same, h)))), copy)
      | inr other ↦
          let (q, e, ok) = one_share channel pkt conn sent copies (rw other at h) in
          (q, rw other e, ok)
    ]

take-drop : (m n : ℕ) (xs : Bytes) → take (n - m) (drop m xs) ≡ drop m (take n xs)
take-drop zero n xs = ap (λ k. take k xs) (let e : n - 0 ≡ n = omega arith in e)
take-drop (suc m) zero xs =
    ap (λ k. take k (drop (suc m) xs)) (let e : 0 - suc m ≡ 0 = omega arith in e)
take-drop (suc m) (suc n) [] = take-nil (suc n - suc m)
take-drop (suc m) (suc n) (x ∷ xs) =
    ap (λ k. take k (drop m xs)) (let e : suc n - suc m ≡ n - m = omega arith in e)
    ∙ take-drop m n xs

pub payload-IsCopy : (pkt p : RtpPacket) → IsCopy pkt p → payload p ≡ payload pkt
payload-IsCopy pkt p ok =
    take-drop 16 p.size p.bytes ∙ ap (drop 16) ok.bytes ∙ sym (take-drop 16 pkt.size pkt.bytes)

module _ (lock : ℕ → Option Bytes) (fd conn : ℕ) (rest : List (ℕ × ℕ)) where
  live_gone :
      lock conn ≡ none
      → (live lock ((fd, conn) ∷ rest) ≡ live lock rest)
        × (targets lock ((fd, conn) ∷ rest) ≡ targets lock rest)
  unfolding live targets
  live_gone gone = (rw (gone, live) refl, rw (gone, targets) refl)

  live_there :
      (id : Bytes)
      → lock conn ≡ some id
      → live lock ((fd, conn) ∷ rest) ≡ (fd, conn) ∷ live lock rest
  unfolding live
  live_there id there = rw (there, live) refl

targets_there :
    (lock : ℕ → Option Bytes) (fd conn : ℕ) (rest : List (ℕ × ℕ)) (id : Bytes)
    → lock conn ≡ some id
    → targets lock ((fd, conn) ∷ rest)
      ≡ (if is_empty id then targets lock rest else conn ∷ targets lock rest)
unfolding targets
targets_there lock fd conn rest id there = rw (there, targets) refl

-- Who is served stays the same when the clients that are gone are forgotten.
pub targets-live :
    (lock : ℕ → Option Bytes) (clients : List (ℕ × ℕ))
    → targets lock (live lock clients) ≡ targets lock clients
unfolding live targets
targets-live lock [] = refl
targets-live lock ((fd, conn) ∷ rest) =
    let more = targets-live lock rest in
    elim (Option-cases (lock conn)) [
      | inl gone ↦
          let (alive, served) = live_gone lock fd conn rest gone in
          ap (targets lock) alive ∙ more ∙ sym served
      | inr (id, there) ↦
          ap (targets lock) (live_there lock fd conn rest id there)
          ∙ targets_there lock fd conn (live lock rest) id there
          ∙ ap (λ l. if is_empty id then l else conn ∷ l) more
          ∙ sym (targets_there lock fd conn rest id there)
    ]
