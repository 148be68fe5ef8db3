-- ===== src/Peers.antt =====
-- runtime/peer.go: which remote workers a hub takes to be connected. The lock makes each change of the map
-- one step; a connection is known by its number, and is open from its hello until its handler returns.
pub mod Connected
mod Examples
use open_kael.Proposal.{cut_prefix}
use open_kael.Prelude.Text.{is_empty, ◌=ₛ◌}
use open_kael.Prelude.{
  ◌≡◌, ℕ, true, some, none, lookup, is_some, if◌then◌else◌, false, [], String, Option, List, Bool,
  ◌==◌,
}
use open_kael.Catalog.{without_those, put}

-- `Handler`'s open connections, with the id that each said, and `PeerHub`'s map from ids to connections.
pub record PeerHub : Type 0 where
  pub peers : List (String × ℕ)
  pub open_connections : ℕ → Option String

-- `NewPeerHub`.
abbrev pub new_peer_hub : PeerHub
new_peer_hub = record { peers = []; open_connections = λ n. none }

abbrev pub register_peer : String → ℕ → List (String × ℕ) → List (String × ℕ)
register_peer id n peers = put id n peers

abbrev pub unregister_peer : String → List (String × ℕ) → List (String × ℕ)
unregister_peer id peers = without_those (λ (j, n). j =ₛ id) peers

-- `get`, and `Connected`.
abbrev pub peer_at : String → PeerHub → Option ℕ
peer_at id h = lookup id h.peers

abbrev pub connected : String → PeerHub → Bool
connected id h = is_some (peer_at id h)

-- `peerAuthorized`, on the request's Authorization header.
abbrev pub is_token : String → Option String → Bool
is_token token none = false
is_token token (some provided) = provided =ₛ token

unfoldable pub peer_authorized : (auth token : String) → Bool
peer_authorized auth token = is_token token (cut_prefix "Bearer " auth)

-- `handleConn` once the hello was read: the peer is registered.
abbrev pub opened : ℕ → String → PeerHub → PeerHub
opened n id h = record h {
  peers = register_peer id n h.peers;
  open_connections = λ k. if k == n then some id else h.open_connections k;
}

-- The end of `handleConn`: the deferred `unregister(p.id)`.
abbrev pub closed : ℕ → String → PeerHub → PeerHub
closed n id h = record h {
  peers = unregister_peer id h.peers;
  open_connections = λ k. if k == n then none else h.open_connections k;
}

-- A connection opens with an id that is not empty, or one that is open closes.
pub data HubStep (h : PeerHub) : PeerHub → Type 0 where
  opens :
      (n : ℕ) (id : String)
      → h.open_connections n ≡ none
      → is_empty id ≡ false
      → HubStep h (opened n id h)
  closes : (n : ℕ) (id : String) → h.open_connections n ≡ some id → HubStep h (closed n id h)

-- The steps that were taken; with `alone`, no peer opens a connection while it still has one.
pub data HubRun (alone : Bool) : PeerHub → Type 0 where
  no_step : HubRun alone new_peer_hub
  one_step :
      {h k : PeerHub}
      → HubRun alone h
      → HubStep h k
      → (alone ≡ true
          → (m n : ℕ) (id : String) → k.open_connections m ≡ some id
          → k.open_connections n ≡ some id
          → m ≡ n)
      → HubRun alone k
