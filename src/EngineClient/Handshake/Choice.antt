-- ===== src/EngineClient/Handshake/Choice.antt =====
-- engine.io/v4/client/client.go: which transport a handshake leads to, and its ping interval.
use mathlib.Core.Option.{none-ne-some}
use go_socket_io.Base.{
  ap, ◌∙◌, ℕ, ◌<◌, ◌≡◌, ◌≢◌, ◌↔◌, refl, false, Option, none, some, List, [], ◌∷◌, ◌++◌, Bytes,
  arith, All, Bool-cases, Option-cases, inl, inr, equal, equal_iff,
}
use go_socket_io.Base.Int.{ℤ, negsuc}
use go_socket_io.EngineClient.{HandshakeResponse, Parser, Client, Transports, panic}
use go_socket_io.EngineClient.Handshake.{
  find_transport, choose_upgrade, handle_handshake, new_interval, milliseconds,
}

equal-false : (s t : Bytes) → equal s t ≡ false → s ≢ t
equal-false s t h = ground (arith, equal_iff s t)

module _ {Tr : Type 0} (current : Bytes) (supported : List (Bytes × Tr)) where
  -- A name that the loop over the upgrades passes by.
  abbrev pub Skipped : Bytes → Type 0
  Skipped m = (current ≢ m) × (find_transport supported m ≡ none)

  -- A name is the first that the loop does not pass by, and its transport is `t`.
  abbrev pub ChosenAt : Tr → List Bytes → Type 0
  ChosenAt t names =
      (before : List Bytes) × (n : Bytes) × (rest : List Bytes) × (names ≡ before ++ n ∷ rest)
      × All Skipped before
      × (current ≢ n)
      × (find_transport supported n ≡ some t)

  passed :
      (t : Tr) (m : Bytes) (names : List Bytes)
      → current ≢ m
      → find_transport supported m ≡ none
      → ChosenAt t names
      → ChosenAt t (m ∷ names)
  passed t m names ne missing (before, n, rest, split, skipped, last, found) =
      (m ∷ before, n, rest, ap (λ ns. m ∷ ns) split, ((ne, missing), skipped), last, found)

  choose_upgrade_sound :
      (t : Tr) (names : List Bytes)
      → choose_upgrade current supported names ≡ some t
      → ChosenAt t names
  unfolding choose_upgrade
  choose_upgrade_sound t [] h = cc
  choose_upgrade_sound t (n ∷ ns) h = elim (Bool-cases (equal current n)) [
    | inl same ↦ absurd (none-ne-some _ (rw same at h))
    | inr other ↦
        let ne = equal-false current n other in
        elim (Option-cases (find_transport supported n)) [
          | inl missing ↦
              passed t n ns ne missing (choose_upgrade_sound t ns (rw (other, missing) at h))
          | inr (s, found) ↦ ([], n, ns, refl, tt, ne, found ∙ rw (other, found) at h)
        ]
  ]

  choose_upgrade_complete :
      (t : Tr) (before : List Bytes) (n : Bytes) (rest : List Bytes)
      → All Skipped before
      → current ≢ n
      → find_transport supported n ≡ some t
      → choose_upgrade current supported (before ++ n ∷ rest) ≡ some t
  unfolding choose_upgrade
  choose_upgrade_complete t [] n rest h ne f = ground (arith, equal_iff current n)
  choose_upgrade_complete t (m ∷ before) n rest h ne f =
      ground (arith, equal_iff current m, choose_upgrade_complete t before n rest h.1 ne f)

module _ {Tr : Type 0} (current : Bytes) (supported : List (Bytes × Tr)) where
  -- The loop over the upgrades of a handshake changes to a transport exactly when it is supported
  -- under the first name that has one, and no name up to there is that of the transport in use.
  pub choose_upgrade_iff :
      (t : Tr) (names : List Bytes)
      → (choose_upgrade current supported names ≡ some t) ↔ ChosenAt current supported t names
  choose_upgrade_iff t names = (
    choose_upgrade_sound current supported t names,
    λ (before, n, rest, split, skipped, ne, found).
        rw split (choose_upgrade_complete current supported t before n rest skipped ne found),
  )

new_interval-negative :
    (old : Option ℤ) (n : ℕ) → n < 9223372036854 → new_interval old (negsuc n) ≡ none
unfolding new_interval milliseconds
new_interval-negative old n h = ground arith

module _ {Tr F : Type 0} (ts : Transports Tr F) (p : Parser) where
  -- A handshake with a session id and a negative ping interval panics: the ticker refuses the
  -- period. The interval is one that fits into nanoseconds.
  pub negative_interval-panic :
      (unmarshal : Bytes → Option HandshakeResponse) (c : Client Tr F) (body : Bytes)
      (r : HandshakeResponse) (n : ℕ)
      → unmarshal body ≡ some r
      → r.sid ≢ []
      → r.ping_interval ≡ negsuc n
      → n < 9223372036854
      → handle_handshake ts p unmarshal c body ≡ panic
  unfolding handle_handshake
  negative_interval-panic unmarshal c body r n read named slow h =
      rw read (elim (Bool-cases (equal r.sid [])) [
        | inl unnamed ↦ absurd (named ((equal_iff r.sid []).0 unnamed))
        | inr named' ↦ rw (named', slow, new_interval-negative c.ping_interval n h) refl
      ])
