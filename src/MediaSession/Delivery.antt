-- ===== src/MediaSession/Delivery.antt =====
-- src/media/media_session.cc: the callback of addMediaSource hands a copy of the packet to every
-- client that is still there.
use mathlib.Core.Option.{some-injective}
use rtsp_server.Base.{
  ℕ, Bytes, false, Option, none, some, List, [], ◌∷◌, ◌≤◌, ◌≡◌, refl, ap, sym, subst, ◌∙◌, arith,
  if◌then◌else◌, length, take, read_lem, write_lem, spliced, length-spliced, take-append_of_eq,
  length-take, Option-cases, Bool-cases, inl, inr, All,
}
use rtsp_server.Base.Maps.{
  bytes_eq, equal, equal_iff, lookup, emplace, lookup-emplace_new, lookup-emplace_keeps,
}
use rtsp_server.Media.{RtpPacket, packet_capacity}
use rtsp_server.MediaSession.{Collected, copy_packet, is_empty, add_copy, collect}

-- The same packet, in memory of its own.
pub record IsCopy (pkt p : RtpPacket) : Type 0 where
  pub bytes : take p.size p.bytes ≡ take pkt.size pkt.bytes
  pub size : p.size ≡ pkt.size
  pub last : p.last ≡ pkt.last
  pub timestamp : p.timestamp ≡ pkt.timestamp
  pub type : p.type ≡ pkt.type
  pub allocated : length p.bytes ≡ packet_capacity

copy_packet-IsCopy :
    (memory : Bytes) (pkt : RtpPacket)
    → length memory ≡ packet_capacity
    → pkt.size ≤ length pkt.bytes
    → pkt.size ≤ packet_capacity
    → (p : RtpPacket) × (copy_packet memory pkt ≡ some p) × IsCopy pkt p
unfolding copy_packet
copy_packet-IsCopy memory pkt allocated inside fits =
    let body = take pkt.size pkt.bytes in
    let len : length body ≡ pkt.size = omega (arith, length-take pkt.size pkt.bytes) in
    let copied = spliced memory 0 body in
    (
      record {
        bytes = copied;
        size = pkt.size;
        timestamp = pkt.timestamp;
        type = pkt.type;
        last = pkt.last;
      },
      rw (read_lem pkt.bytes 0 pkt.size (omega arith), write_lem memory 0 body (omega arith)),
      record {
        bytes = take-append_of_eq pkt.size body _ len;
        size = refl;
        last = refl;
        timestamp = refl;
        type = refl;
        allocated = length-spliced memory 0 body (omega arith) ∙ allocated;
      },
    )

-- What the two loops are to do: the clients that are still there, and of these the ones with a TCP
-- connection, in the order of the map.
unfoldable pub live : (ℕ → Option Bytes) → List (ℕ × ℕ) → List (ℕ × ℕ)
live lock [] = []
live lock ((fd, conn) ∷ rest) = elim (lock conn) [
  | none ↦ live lock rest
  | some id ↦ (fd, conn) ∷ live lock rest
]

unfoldable pub targets : (ℕ → Option Bytes) → List (ℕ × ℕ) → List ℕ
unfolding is_empty
targets lock [] = []
targets lock ((fd, conn) ∷ rest) = elim (lock conn) [
  | none ↦ targets lock rest
  | some id ↦ if is_empty id then targets lock rest else conn ∷ targets lock rest
]

-- `emplace_front` of one item after the other.
unfoldable pub push_all : List ℕ → List ℕ → List ℕ
push_all [] conns = conns
push_all (c ∷ cs) conns = push_all cs (c ∷ conns)

module _ (memory : ℕ → Bytes) (lock : ℕ → Option Bytes) (id_now : ℕ → Bytes) (pkt : RtpPacket)
    (allocated : (conn : ℕ) → length (memory conn) ≡ packet_capacity)
    (inside : pkt.size ≤ length pkt.bytes) (fits : pkt.size ≤ packet_capacity)
    (steady : (conn : ℕ) (id : Bytes) → lock conn ≡ some id → id_now conn ≡ id) where
  -- Every packet of the map is a copy.
  abbrev pub Copies : List (Bytes × RtpPacket) → Type 0
  Copies packets = (id : Bytes) (p : RtpPacket) → lookup id packets ≡ some p → IsCopy pkt p

  -- Every connection of the list has its packet.
  abbrev pub HasPacket : List (Bytes × RtpPacket) → ℕ → Type 0
  HasPacket packets conn =
      (is_empty (id_now conn) ≡ false) × (p : RtpPacket) × (lookup (id_now conn) packets ≡ some p)

  -- What `add_copy` makes of the map.
  record Grows (id : Bytes) (before after : List (Bytes × RtpPacket)) : Type 0 where
    copies : Copies after
    has : (p : RtpPacket) × (lookup id after ≡ some p)
    keeps : (j : Bytes) (p : RtpPacket) → lookup j before ≡ some p → lookup j after ≡ some p

  All-keeps :
      (before after : List (Bytes × RtpPacket))
      → ((j : Bytes) (p : RtpPacket) → lookup j before ≡ some p → lookup j after ≡ some p)
      → (conns : List ℕ) → All (HasPacket before) conns
      → All (HasPacket after) conns
  All-keeps before after keeps [] h = tt
  All-keeps before after keeps (conn ∷ conns) (h, rest) =
      ((h.0, h.1, keeps (id_now conn) h.1 h.2), All-keeps before after keeps conns rest)

  copies_new :
      (id j : Bytes) (tmp p : RtpPacket) (packets : List (Bytes × RtpPacket))
      → (lookup j packets ≡ some p → IsCopy pkt p)
      → IsCopy pkt tmp
      → (if equal id j then some tmp else lookup j packets) ≡ some p
      → IsCopy pkt p
  copies_new id j tmp p packets old copy e = elim (Bool-cases (equal id j)) [
    | inl same ↦ subst (IsCopy pkt) (some-injective tmp p (rw same at e)) copy
    | inr other ↦ old (rw other at e)
  ]

  add_copy-Grows :
      (conn : ℕ) (id : Bytes) (packets : List (Bytes × RtpPacket))
      → Copies packets
      → (more : List (Bytes × RtpPacket)) × (add_copy (memory conn) pkt id packets ≡ some more)
        × Grows id packets more
  unfolding add_copy
  add_copy-Grows conn id packets ok = elim (Option-cases (lookup id packets)) [
    | inl new ↦
        let (tmp, copied, copy) =
          copy_packet-IsCopy (memory conn) pkt (allocated conn) inside fits in
        (
          emplace id tmp packets,
          rw (new, add_copy) (rw copied),
          record {
            copies = λ j p e.
                copies_new id j tmp p packets (ok j p) copy
                  (sym (lookup-emplace_new id j tmp packets new) ∙ e);
            has = (tmp, ground (arith, lookup-emplace_new id id tmp packets new, equal_iff id id));
            keeps = λ j p e. lookup-emplace_keeps id j tmp p packets e;
          },
        )
    | inr (p, old) ↦
        (packets, rw (old, add_copy), record { copies = ok; has = (p, old); keeps = λ j q e. e })
  ]

  pub collect-lem :
      (clients : List (ℕ × ℕ)) (packets : List (Bytes × RtpPacket)) (conns : List ℕ)
      → Copies packets
      → All (HasPacket packets) conns
      → (r : Collected) × (collect memory lock pkt clients packets conns ≡ some r)
        × (r.rtp_conn_list ≡ push_all (targets lock clients) conns)
        × (r.kept ≡ live lock clients)
        × Copies r.packets
        × All (HasPacket r.packets) r.rtp_conn_list
  unfolding collect push_all targets live
  collect-lem [] packets conns ok has =
      (record { packets = packets; rtp_conn_list = conns; kept = [] }, refl, refl, refl, ok, has)
  collect-lem ((fd, conn) ∷ rest) packets conns ok has = elim (Option-cases (lock conn)) [
    | inl gone ↦
        let (r, e, l, k, c, h) = collect-lem rest packets conns ok has in
        (r, rw (gone, collect) e, rw (gone, targets) l, rw (gone, live) k, c, h)
    | inr (id, here) ↦ elim (Bool-cases (is_empty id)) [
      | inl bare ↦
          let (r, e, l, k, c, h) = collect-lem rest packets conns ok has in
          (
            record r { kept = (fd, conn) ∷ r.kept },
            rw (here, bare, collect) (rw e),
            rw (here, bare, targets) l,
            rw (here, live) (ap (◌∷◌ (fd, conn)) k),
            c,
            h,
          )
      | inr named ↦
          let (more, grown, g) = add_copy-Grows conn id packets ok in
          let now = steady conn id here in
          let (r, e, l, k, c, h) = collect-lem rest more (conn ∷ conns) g.copies (
            (ap is_empty now ∙ named, g.has.0, ap (λ i. lookup i more) now ∙ g.has.1),
            All-keeps packets more g.keeps conns has,
          ) in
          (
            record r { kept = (fd, conn) ∷ r.kept },
            rw (here, named, collect) (rw (grown, e)),
            rw (here, named, targets) l,
            rw (here, live) (ap (◌∷◌ (fd, conn)) k),
            c,
            h,
          )
    ]
  ]
