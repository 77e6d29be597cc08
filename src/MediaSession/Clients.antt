-- ===== src/MediaSession/Clients.antt =====
-- src/media/media_session.cc: addClient and removeClient on the map of clients.
use rtsp_server.Base.{
  ℕ, Bool, true, false, none, some, List, [], ◌∷◌, ◌+◌, ◌≤◌, ◌<◌, ◌≡◌, ◌≢◌, ◌↔◌, refl, arith, ◌==◌,
  if◌then◌else◌, length, Option-cases, inl, inr,
}
use rtsp_server.Base.Maps.{nat_eq, lookup, erase, lookup-erase}
use rtsp_server.MediaSession.{
  MediaSession, Notification, emplace_sorted, notify, add_client, remove_client,
}

-- The keys rise strictly, from `low` on, as the entries of a `std::map` do.
abbrev pub Rises {ℓ} : {V : Type ℓ} → ℕ → List (ℕ × V) → Type 0
Rises low [] = Unit
Rises low ((j, w) ∷ m) = (low ≤ j) × Rises (j + 1) m

module _ {ℓ} {V : Type ℓ} where
  Rises-mono : (low high : ℕ) (m : List (ℕ × V)) → low ≤ high → Rises high m → Rises low m
  Rises-mono low high [] h r = tt
  Rises-mono low high ((j, w) ∷ m) h r = (omega arith, r.1)

  pub emplace_sorted-Rises :
      (low k : ℕ) (v : V) (m : List (ℕ × V))
      → low ≤ k
      → Rises low m
      → Rises low (emplace_sorted k v m)
  unfolding emplace_sorted
  emplace_sorted-Rises low k v [] h r = (h, tt)
  emplace_sorted-Rises low k v ((j, w) ∷ m) h r = ground (arith, emplace_sorted-Rises (j + 1) k v m)

  pub erase-Rises : (low k : ℕ) (m : List (ℕ × V)) → Rises low m → Rises low (erase k m)
  unfolding erase
  erase-Rises low k [] r = tt
  erase-Rises low k ((j, w) ∷ m) r =
      let rest = erase-Rises (j + 1) k m r.1 in
      ground (arith, rest, Rises-mono low (j + 1) (erase k m))

  pub lookup_below : (low k : ℕ) (m : List (ℕ × V)) → Rises low m → k < low → lookup k m ≡ none
  unfolding lookup
  lookup_below low k [] r h = refl
  lookup_below low k ((j, w) ∷ m) r h = ground (arith, lookup_below (j + 1) k m r.1)

  pub lookup-emplace_sorted :
      (k j : ℕ) (v : V) (m : List (ℕ × V))
      → lookup k m ≡ none
      → lookup j (emplace_sorted k v m) ≡ (if k == j then some v else lookup j m)
  unfolding lookup emplace_sorted
  lookup-emplace_sorted k j v [] h = ground arith
  lookup-emplace_sorted k j v ((i, w) ∷ m) h = ground (arith, lookup-emplace_sorted k j v m)

  pub length-emplace_sorted :
      (k : ℕ) (v : V) (m : List (ℕ × V))
      → lookup k m ≡ none
      → length (emplace_sorted k v m) ≡ length m + 1
  unfolding lookup emplace_sorted
  length-emplace_sorted k v [] h = refl
  length-emplace_sorted k v ((i, w) ∷ m) h = ground (arith, length-emplace_sorted k v m)

  erase_absent : (k : ℕ) (m : List (ℕ × V)) → lookup k m ≡ none → length (erase k m) ≡ length m
  unfolding lookup erase
  erase_absent k [] h = refl
  erase_absent k ((i, w) ∷ m) h = ground (arith, erase_absent k m)

  pub length-erase :
      (low k : ℕ) (v : V) (m : List (ℕ × V))
      → Rises low m
      → lookup k m ≡ some v
      → length (erase k m) + 1 ≡ length m
  unfolding lookup erase
  length-erase low k v [] r h = cc
  length-erase low k v ((i, w) ∷ m) r h =
      ground (arith, length-erase (i + 1) k v m r.1, erase_absent k m, lookup_below (i + 1) k m r.1)

-- The clients of a session are in order and have distinct descriptors.
abbrev pub HasClients : MediaSession → Type 0
HasClients s = Rises 0 s.clients

-- What `addClient` promises, by whether the descriptor was there.
pub record Adds (rtspfd conn : ℕ) (s s' : MediaSession) (told : List Notification) (added : Bool)
    : Type 0 where
  pub ordered : HasClients s'
  pub answer : (added ≡ true) ↔ (lookup rtspfd s.clients ≡ none)
  pub found : added ≡ true → lookup rtspfd s'.clients ≡ some conn
  pub others : (fd : ℕ) → fd ≢ rtspfd → lookup fd s'.clients ≡ lookup fd s.clients
  pub counted : added ≡ true → length s'.clients ≡ length s.clients + 1
  pub unchanged : added ≡ false → (s' ≡ s) × (told ≡ [])
  pub notified : added ≡ true → told ≡ notify s'

-- `addClient` adds a client exactly when its descriptor is new: it answers true, the descriptor
-- leads to the connection, the number of clients grows by one and the callback is told. Otherwise
-- it answers false and changes nothing. Other descriptors keep their connections.
pub add_client-Adds :
    (rtspfd conn : ℕ) (s : MediaSession)
    → HasClients s
    → let r = add_client rtspfd conn s in Adds rtspfd conn s r.0 r.1 r.2
unfolding add_client
add_client-Adds rtspfd conn s ok = elim (Option-cases (lookup rtspfd s.clients)) [
  | inl new ↦
      rw (new, add_client)
        (record {
          ordered = emplace_sorted-Rises 0 rtspfd conn s.clients (omega arith) ok;
          answer = (λ e. new, λ e. refl);
          found = λ e. ground (arith, lookup-emplace_sorted rtspfd rtspfd conn s.clients new);
          others = λ fd ne. ground (arith, lookup-emplace_sorted rtspfd fd conn s.clients new);
          counted = λ e. length-emplace_sorted rtspfd conn s.clients new;
          unchanged = λ e. cc;
          notified = λ e. refl;
        })
  | inr (other, old) ↦
      rw (old, add_client)
        (record {
          ordered = ok;
          answer = ((λ e. cc), (λ e. cc));
          found = λ e. cc;
          others = λ fd ne. refl;
          counted = λ e. cc;
          unchanged = λ e. (refl, refl);
          notified = λ e. cc;
        })
]

-- What `removeClient` promises.
pub record Removes (rtspfd : ℕ) (s s' : MediaSession) (told : List Notification) : Type 0 where
  pub ordered : HasClients s'
  pub gone : lookup rtspfd s'.clients ≡ none
  pub others : (fd : ℕ) → fd ≢ rtspfd → lookup fd s'.clients ≡ lookup fd s.clients
  pub absent : lookup rtspfd s.clients ≡ none → (s' ≡ s) × (told ≡ [])
  pub present :
      (conn : ℕ)
      → lookup rtspfd s.clients ≡ some conn
      → (length s'.clients + 1 ≡ length s.clients) × (told ≡ notify s')

-- After `removeClient` the descriptor is gone and the others are as before. The number of clients
-- falls by one and the callback is told if the descriptor was there, and nothing changes if not.
pub remove_client-Removes :
    (rtspfd : ℕ) (s : MediaSession)
    → HasClients s
    → let r = remove_client rtspfd s in Removes rtspfd s r.0 r.1
unfolding remove_client
remove_client-Removes rtspfd s ok = elim (Option-cases (lookup rtspfd s.clients)) [
  | inl new ↦
      rw (new, remove_client)
        (record {
          ordered = ok;
          gone = new;
          others = λ fd ne. refl;
          absent = λ e. (refl, refl);
          present = λ conn e. cc;
        })
  | inr (other, old) ↦
      rw (old, remove_client)
        (record {
          ordered = erase-Rises 0 rtspfd s.clients ok;
          gone = ground (arith, lookup-erase rtspfd rtspfd s.clients);
          others = λ fd ne. ground (arith, lookup-erase rtspfd fd s.clients);
          absent = λ e. cc;
          present = λ conn e. (length-erase 0 rtspfd other s.clients ok old, refl);
        })
]
