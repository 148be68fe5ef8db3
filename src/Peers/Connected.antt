-- ===== src/Peers/Connected.antt =====
-- runtime/peer.go: what is open, and what the map of peers says.
use text.Mathlib.TextPositions.{eq_refl}
use open_kael.Loop.Run.{run}
use text.Mathlib.TextPositions.{eq_refl}
use open_kael.Proposal.RoundTrip.{append-cut_prefix, cut_prefix-append}
use open_kael.Proposal.{cut_prefix}
use open_kael.Approval.Local.{lookup-put, lookup-removed}
use open_kael.Prelude.Text.{eq_iff, ◌<>◌, ◌=ₛ◌}
use open_kael.Prelude.{
  ap, ◌↔◌, true, refl, arith, Option-cases, Bool, ◌≡◌, ℕ, some, none, lookup, inr, inl,
  if◌then◌else◌, String, List,
}
use open_kael.Peers.{
  peer_authorized, peer_at, one_step, no_step, connected, HubRun, opens, closes, PeerHub, HubStep,
  unregister_peer,
}

lookup-unregister_peer :
    (j k : String) (m : List (String × ℕ))
    → lookup j (unregister_peer k m) ≡ (if j =ₛ k then none else lookup j m)
lookup-unregister_peer j k m = lookup-removed j k m

-- What the map has is open, under the id that it has it for.
abbrev IsOpen : PeerHub → Type 0
IsOpen h = (id : String) (n : ℕ) → lookup id h.peers ≡ some n → h.open_connections n ≡ some id

Step-IsOpen : {h k : PeerHub} → IsOpen h → HubStep h k → IsOpen k
Step-IsOpen {h = h} f (opens n id free given) =
    λ j m e. ground (arith, f j m, lookup-put j id n h.peers, eq_iff j id, free, e)
Step-IsOpen {h = h} f (closes n id there) =
    λ j m e. ground (arith, f j m, lookup-unregister_peer j id h.peers, eq_iff j id, there, e)

-- What is open is in the map.
abbrev IsRegistered : PeerHub → Type 0
IsRegistered h = (n : ℕ) (id : String) → h.open_connections n ≡ some id → lookup id h.peers ≡ some n

Step-IsRegistered :
    {h k : PeerHub}
    → ((m n : ℕ) (id : String)
        → k.open_connections m ≡ some id
        → k.open_connections n ≡ some id
        → m ≡ n)
    → IsRegistered h
    → HubStep h k
    → IsRegistered k
Step-IsRegistered {h = h} one g (opens n id free given) =
    λ m j e. ground (arith, g m j, lookup-put j id n h.peers, eq_iff j id, free, e, one m n id)
Step-IsRegistered {h = h} one g (closes n id there) = λ m j e.
    ground (arith, g m j, g n id there, lookup-unregister_peer j id h.peers, eq_iff j id, e)

-- A peer that is found in the map is a connection that is open, and that said that id.
HubRun-IsOpen :
    {alone : Bool} {h : PeerHub} (id : String) (n : ℕ)
    → HubRun alone h
    → peer_at id h ≡ some n
    → h.open_connections n ≡ some id
unfolding lookup
HubRun-IsOpen id n no_step e = cc
HubRun-IsOpen id n (one_step run st one) e =
    Step-IsOpen (λ j m q. HubRun-IsOpen j m run q) st id n e

HubRun-IsRegistered :
    {h : PeerHub} (n : ℕ) (id : String)
    → HubRun true h
    → h.open_connections n ≡ some id
    → lookup id h.peers ≡ some n
HubRun-IsRegistered n id no_step e = cc
HubRun-IsRegistered n id (one_step run st one) e =
    Step-IsRegistered (one refl) (λ m j q. HubRun-IsRegistered m j run q) st n id e

-- As long as no peer opens a connection while it still has one, a peer is taken to be connected just
-- where one of the open connections is its own.
pub connected_iff :
    {h : PeerHub} (id : String)
    → HubRun true h
    → (connected id h ≡ true) ↔ ((n : ℕ) × (h.open_connections n ≡ some id))
connected_iff {h = h} id run = (
  λ c. elim (Option-cases (peer_at id h)) [
    | inl e ↦ ground arith
    | inr (n, e) ↦ (n, HubRun-IsOpen id n run e)
  ],
  λ (n, e). rw (HubRun-IsRegistered n id run e) refl,
)

-- A request is let in just where its Authorization header is "Bearer " and the token.
pub peer_authorized_iff :
    (auth token : String) → (peer_authorized auth token ≡ true) ↔ (auth ≡ "Bearer " <> token)
unfolding peer_authorized
peer_authorized_iff auth token = (
  λ h. elim (Option-cases (cut_prefix "Bearer " auth)) [
    | inl e ↦ ground arith
    | inr (provided, e) ↦
        let same : provided ≡ token = (eq_iff provided token).0 (rw e at h) in
        append-cut_prefix "Bearer " auth token (rw e (ap (λ x. some x) same))
  ],
  λ h. rw (h, cut_prefix-append "Bearer " token) (eq_refl token),
)
